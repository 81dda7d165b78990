-- ===== src/Session/Overlap.antt =====
-- Requests of frontend/src/api/client.ts that overlap: each goes on when the answer that it waits for
-- arrives, and those that get a 401 meanwhile share the one refresh of `_refreshPromise`.
pub mod Attended
pub mod Progress
pub mod Calls
use Prim.Native.String.{String}
use blend_pos.Prelude.{
  ℕ, zero, suc, ◌==◌, Option, none, some, List, [], ◌∷◌, ◌++◌, map, foldl, Bool, true, false, not,
  ◌||◌, if◌then◌else◌, get_elem?,
}
use blend_pos.Session.{
  Texts, State, fetched, refresh_asked, truthy, set_tokens, schedule_proactive_refresh,
}
use blend_pos.Session.Client.{
  Fetched, answered, failed, Outcome, offline, network_error, unauthorized, Tokens, log, expire,
  read_response,
}

-- Where a call of `request` waits: for the answer to its first or second `fetch`, sent with a token,
-- or for the shared refresh; the refresh is over but the call has not gone on; the call has ended.
pub data Phase (A : Type 0) : Type 0 where
  in_air : Bool → Option String → Phase A
  waits : Phase A
  woken : Bool → Phase A
  ended : Outcome A → Phase A

-- `_refreshPromise`, as the refresh token that its request was made with; with no token, it is going
-- to throw.
pub record NetSystem (A : Type 0) : Type 0 where
  pub session : State
  pub refresh_promise : Option (Option String)
  pub requests : List (Phase A)

-- What happens next: `request` is called; an answer to the `fetch` of a call arrives; the answer to
-- the refresh arrives; a call goes on after the refresh; the timer of the proactive refresh fires.
pub data NetEvent (A : Type 0) : Type 0 where
  begins : NetEvent A
  answers : ℕ → Fetched A → NetEvent A
  settles : Option Tokens → NetEvent A
  resumes : ℕ → NetEvent A
  timer_fires : NetEvent A

abbrev pub set_at {ℓ} : {B : Type ℓ} → ℕ → B → List B → List B
set_at n y [] = []
set_at zero y (x ∷ xs) = y ∷ xs
set_at (suc n) y (x ∷ xs) = x ∷ set_at n y xs

module _ {A : Type 0} where
  unfoldable pub put : ℕ → Phase A → NetSystem A → NetSystem A
  put i p s = record s { requests = set_at i p s.requests }

  unfoldable pub on_session : (State → State) → NetSystem A → NetSystem A
  on_session f s = record s { session = f s.session }

  -- the call that makes `_refreshPromise`
  unfoldable pub ask : Option String → NetSystem A → NetSystem A
  ask none s = record s { refresh_promise = some none }
  ask (some token) s = record s {
    refresh_promise = some (some token);
    session = log (refresh_asked token) s.session;
  }

  -- `refreshAccessToken()` up to its `await`, with the promise that there is
  unfoldable pub start_with : Option (Option String) → NetSystem A → NetSystem A
  unfolding ask
  start_with none s = ask (truthy s.session.refresh_token) s
  start_with (some _) s = s

  unfoldable pub start_refresh : NetSystem A → NetSystem A
  unfolding start_with
  start_refresh s = start_with s.refresh_promise s

  -- a 401
  unfoldable pub refused_call : ℕ → Bool → Option String → NetSystem A → NetSystem A
  unfolding put on_session start_refresh
  refused_call i retry none s = put i (ended unauthorized) s
  refused_call i false (some _) s = put i waits (start_refresh s)
  refused_call i true (some _) s = put i (ended unauthorized) (on_session expire s)

  unfoldable pub fetch_over : ℕ → Bool → Option String → Fetched A → NetSystem A → NetSystem A
  unfolding put refused_call
  fetch_over i retry token (failed network online) s =
      put i (ended (if not online || network then offline else network_error)) s
  fetch_over i retry token (answered status body) s =
      if status == 401
      then refused_call i retry token s
      else put i (ended (read_response status body)) s

  -- an answer is read by the call that waits for one
  unfoldable pub answer_at : ℕ → Fetched A → Option (Phase A) → NetSystem A → NetSystem A
  unfolding fetch_over
  answer_at i x (some (in_air retry token)) s = fetch_over i retry token x s
  answer_at i x (some waits) s = s
  answer_at i x (some (woken _)) s = s
  answer_at i x (some (ended _)) s = s
  answer_at i x none s = s

  -- a call goes on with what the refresh gave
  unfoldable pub resume_at : ℕ → Option (Phase A) → NetSystem A → NetSystem A
  unfolding put on_session
  resume_at i (some (woken true)) s =
      let token = truthy s.session.access_token in
      put i (in_air true token) (on_session (log (fetched token)) s)
  resume_at i (some (woken false)) s = put i (ended unauthorized) (on_session expire s)
  resume_at i (some (in_air _ _)) s = s
  resume_at i (some waits) s = s
  resume_at i (some (ended _)) s = s
  resume_at i none s = s

  unfoldable pub wake_one : Bool → Phase A → Phase A
  wake_one ok waits = woken ok
  wake_one ok (in_air retry token) = in_air retry token
  wake_one ok (woken b) = woken b
  wake_one ok (ended o) = ended o

  -- the promise is settled: every call that waits for it goes on, and it is forgotten
  unfoldable pub wake : Bool → NetSystem A → NetSystem A
  unfolding wake_one
  wake ok s = record s { refresh_promise = none; requests = map (wake_one ok) s.requests }

  module _ (texts : Texts) (now : ℕ) where
    -- the answer to a refresh that was asked with a token or had none
    unfoldable pub settle_with : Option String → Option Tokens → NetSystem A → NetSystem A
    unfolding wake on_session
    settle_with none r s = wake false s
    settle_with (some _) none s = wake false s
    settle_with (some _) (some t) s = wake true (
        on_session
          (λ u. schedule_proactive_refresh texts now t.access (set_tokens t.access t.refresh u)) s)

    unfoldable pub settle_at : Option (Option String) → Option Tokens → NetSystem A → NetSystem A
    unfolding settle_with
    settle_at none r s = s
    settle_at (some token) r s = settle_with token r s

    unfoldable pub next_state : NetSystem A → NetEvent A → NetSystem A
    unfolding answer_at settle_at resume_at start_refresh on_session
    next_state s begins =
        let token = truthy s.session.access_token in
        record (on_session (log (fetched token)) s) {
          requests = s.requests ++ (in_air false token ∷ []);
        }
    next_state s (answers i x) = answer_at i x (get_elem? s.requests i) s
    next_state s (settles r) = settle_at s.refresh_promise r s
    next_state s (resumes i) = resume_at i (get_elem? s.requests i) s
    next_state s timer_fires = start_refresh s

    unfoldable pub run_system : NetSystem A → List (NetEvent A) → NetSystem A
    unfolding next_state
    run_system = foldl next_state

  -- a page with a session and no request yet
  unfoldable pub new_system : State → NetSystem A
  new_system s = record { session = s; refresh_promise = none; requests = [] }
