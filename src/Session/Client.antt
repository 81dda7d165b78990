-- ===== src/Session/Client.antt =====
-- `request` and `refreshAccessToken` of frontend/src/api/client.ts.
use Prim.Native.String.{String}
use blend_pos.Prelude.{
  ℕ, ◌==◌, Option, none, some, [], ◌∷◌, ◌++◌, Bool, true, false, not, ◌||◌, ◌&&◌, leb,
  if◌then◌else◌,
}
use blend_pos.Session.{
  Texts, State, Call, fetched, refresh_asked, truthy, set_tokens, clear_tokens,
  schedule_proactive_refresh, cancel_proactive_refresh,
}

-- How one `fetch` ends: an answer with its status, or an exception: whether it is a `TypeError` whose
-- message speaks of the network, and `navigator.onLine`.
pub data Fetched (A : Type 0) : Type 0 where
  answered : ℕ → A → Fetched A
  failed : Bool → Bool → Fetched A

pub data Outcome (A : Type 0) : Type 0 where
  json : A → Outcome A
  no_content : Outcome A
  offline : Outcome A
  network_error : Outcome A
  unauthorized : Outcome A
  http_error : ℕ → Outcome A

-- the new access token and refresh token
pub record Tokens : Type 0 where
  pub access : String
  pub refresh : String

-- What the network answers: to the request, the first time and again, by its `Authorization`, and to
-- `/v1/auth/refresh` (`none`: an exception, or an answer that is not ok).
pub record Network (A : Type 0) : Type 0 where
  pub fetch : Bool → Option String → Fetched A
  pub refresh : String → Option Tokens
  pub now : ℕ

-- `response.ok`
abbrev pub is_ok : ℕ → Bool
is_ok status = leb 200 status && leb status 299

abbrev pub log : Call → State → State
log c s = record s { calls = s.calls ++ (c ∷ []) }

-- The session is given up: no tokens, no timer, the login page.
unfoldable pub expire : State → State
expire s = record (clear_tokens (cancel_proactive_refresh s)) { at_login = true }

module _ {A : Type 0} where
  -- an answer that is not 401
  unfoldable pub read_response : ℕ → A → Outcome A
  read_response status body =
      if not (is_ok status)
      then http_error status
      else if status == 204
      then no_content
      else json body

  -- `refreshAccessToken`; `false` if it throws
  unfoldable pub refresh_access_token : Texts → Network A → State → State × Bool
  refresh_access_token texts net s = elim (truthy s.refresh_token) [
    | none ↦ (s, false)
    | some refresh ↦
        let asked = log (refresh_asked refresh) s in
        elim (net.refresh refresh) [
          | none ↦ (asked, false)
          | some t ↦ (
            schedule_proactive_refresh texts net.now t.access (set_tokens t.access t.refresh asked),
            true,
          )
        ]
  ]

  -- `request` with `_isRetry`
  unfoldable pub request_again : Network A → State → State × Outcome A
  request_again net s =
      let token = truthy s.access_token in
      let sent = log (fetched token) s in
      elim (net.fetch true token) [
        | failed network online ↦ (sent, if not online || network then offline else network_error)
        | answered status body ↦
            if status == 401
            then (elim token [ none ↦ sent | some _ ↦ expire sent ], unauthorized)
            else (sent, read_response status body)
      ]

  -- a 401 to the first attempt: one refresh, then the request once more
  unfoldable pub after_401 : Texts → Network A → Option String → State → State × Outcome A
  after_401 texts net none s = (s, unauthorized)
  after_401 texts net (some token) s =
      let (after, ok) = refresh_access_token texts net s in
      if ok then request_again net after else (expire after, unauthorized)

  unfoldable pub request : Texts → Network A → State → State × Outcome A
  request texts net s =
      let token = truthy s.access_token in
      let sent = log (fetched token) s in
      elim (net.fetch false token) [
        | failed network online ↦ (sent, if not online || network then offline else network_error)
        | answered status body ↦
            if status == 401
            then after_401 texts net token sent
            else (sent, read_response status body)
      ]
