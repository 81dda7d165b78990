-- ===== src/Session/Expiry.antt =====
-- The requests that `request` of frontend/src/api/client.ts makes, and what a 401 leaves.
use Prim.Native.String.{String}
use blend_pos.Prelude.{
  ℕ, ◌≡◌, refl, ◌⊎◌, inl, inr, Option, none, some, List, [], ◌∷◌, ◌++◌, Bool, true, false,
  Bool-cases, Option-cases, ◌==◌, if◌then◌else◌, not, ◌||◌, arith,
}
use blend_pos.Session.{
  Texts, State, Call, fetched, refresh_asked, truthy, set_tokens, clear_tokens,
  schedule_proactive_refresh, cancel_proactive_refresh,
}
use blend_pos.Session.Client.{
  Fetched, answered, failed, Outcome, offline, network_error, unauthorized, Tokens, Network,
  read_response, expire, refresh_access_token, request_again, after_401, request, is_ok,
}

-- no session is left, and the login page is shown
unfoldable pub IsGivenUp : State → Type 0
IsGivenUp s =
    (s.access_token ≡ none)
    × (s.refresh_token ≡ none)
    × (s.refresh_timer ≡ none)
    × (s.at_login ≡ true)

expire-IsGivenUp : (s : State) → IsGivenUp (expire s)
unfolding IsGivenUp expire clear_tokens cancel_proactive_refresh
expire-IsGivenUp s = (refl, refl, refl, refl)

module _ {A : Type 0} (net : Network A) where
  -- what the backend answers to a refresh: a token that is not the empty text
  unfoldable pub GivesTokens : Type 0
  GivesTokens =
      (r : String) (t : Tokens) → net.refresh r ≡ some t → truthy (some t.access) ≡ some t.access

module _ {A : Type 0} (texts : Texts) (net : Network A) where
  -- what a refresh does to the requests made, and the access token that it leaves
  unfoldable pub Refreshed : State → State × Bool → Type 0
  Refreshed s (s', ok) =
      ((ok ≡ false) × (s'.calls ≡ s.calls))
      ⊎ ((r : String) × (truthy s.refresh_token ≡ some r)
          × (s'.calls ≡ s.calls ++ (refresh_asked r ∷ []))
          × ((ok ≡ false)
              ⊎ ((t : Tokens) × (net.refresh r ≡ some t) × (s'.access_token ≡ some t.access))))

  refresh_access_token-Refreshed : (s : State) → Refreshed s (refresh_access_token texts net s)
  unfolding Refreshed refresh_access_token schedule_proactive_refresh set_tokens
  refresh_access_token-Refreshed s = elim (Option-cases (truthy s.refresh_token)) [
    | inl absent ↦ rw (refresh_access_token, absent) (inl (refl, refl))
    | inr (r, present) ↦ elim (Option-cases (net.refresh r)) [
      | inl refused ↦ rw (refresh_access_token, present, refused) (inr (r, refl, refl, inl refl))
      | inr (t, given) ↦
          rw (refresh_access_token, present, given) (inr (r, refl, refl, inr (t, given, refl)))
    ]
  ]

  pub Fetched-cases :
      (f : Fetched A)
      → ((n : Bool) × (o : Bool) × (f ≡ failed n o))
        ⊎ ((status : ℕ) × (body : A) × (f ≡ answered status body))
  Fetched-cases (failed n o) = inl (n, o, refl)
  Fetched-cases (answered status body) = inr (status, body, refl)

  -- giving up makes no request
  expire_calls :
      (o : Option String) (s : State)
      → (elim o as (λ _. State) [ none ↦ s | some _ ↦ expire s ]).calls ≡ s.calls
  unfolding expire clear_tokens cancel_proactive_refresh
  expire_calls none s = refl
  expire_calls (some _) s = refl

  request_again_calls :
      (s : State)
      → (request_again net s).0.calls ≡ s.calls ++ (fetched (truthy s.access_token) ∷ [])
  unfolding request_again
  request_again_calls s = elim (Fetched-cases (net.fetch true (truthy s.access_token))) [
    | inl (n, o, down) ↦ rw (request_again, down) refl
    | inr (status, body, up) ↦ elim (Bool-cases (status == 401)) [
      | inl refused ↦ rw (request_again, up, refused) (expire_calls (truthy s.access_token) _)
      | inr accepted ↦ rw (request_again, up, accepted) refl
    ]
  ]

  -- the requests of one call, after those before it: the request; a refresh; the request again, with
  -- the token that the refresh gave
  unfoldable pub IsAfterRefresh : State → List Call → Type 0
  IsAfterRefresh s cs =
      (cs ≡ s.calls)
      ⊎ ((r : String) × (truthy s.refresh_token ≡ some r)
          × ((cs ≡ s.calls ++ (refresh_asked r ∷ []))
              ⊎ ((t : Tokens) × (net.refresh r ≡ some t)
                  × (cs
                      ≡ (s.calls ++ (refresh_asked r ∷ []))
                        ++ (fetched (truthy (some t.access)) ∷ [])))))

  expire_only : (s : State) → (expire s).calls ≡ s.calls
  unfolding expire clear_tokens cancel_proactive_refresh
  expire_only s = refl

  after_401-IsAfterRefresh :
      (o : Option String) (s : State) → IsAfterRefresh s (after_401 texts net o s).0.calls
  unfolding IsAfterRefresh after_401 Refreshed
  after_401-IsAfterRefresh none s = inl refl
  after_401-IsAfterRefresh (some token) s = elim (refresh_access_token-Refreshed s) [
    | inl (fails, same) ↦ rw (after_401, fails) (inl (rw expire_only same))
    | inr (r, present, made, given) ↦ elim (Bool-cases (refresh_access_token texts net s).1) [
      | inr fails ↦ rw (after_401, fails) (inr (r, present, inl (rw expire_only made)))
      | inl works ↦ elim given [
        | inl fails ↦ let e = rw works at fails in ground (arith, e)
        | inr (t, got, held) ↦
            rw (after_401, works)
              (inr (r, present, inr (t, got, rw (request_again_calls, made, held) refl)))
      ]
    ]
  ]

  -- One call of `request` makes one request, or that and one refresh, or these and the request once
  -- more, with the token that the refresh has just given: never a second refresh or a third attempt.
  pub request_calls :
      (s : State)
      → IsAfterRefresh
          (record s { calls = s.calls ++ (fetched (truthy s.access_token) ∷ []) })
          (request texts net s).0.calls
  unfolding request IsAfterRefresh
  request_calls s = elim (Fetched-cases (net.fetch false (truthy s.access_token))) [
    | inl (n, o, down) ↦ rw (request, down) (inl refl)
    | inr (status, body, up) ↦ elim (Bool-cases (status == 401)) [
      | inl refused ↦ rw (request, up, refused) (after_401-IsAfterRefresh (truthy s.access_token) _)
      | inr accepted ↦ rw (request, up, accepted) (inl refl)
    ]
  ]

  read_response-authorized : (status : ℕ) (body : A) → ¬ (read_response status body ≡ unauthorized)
  unfolding read_response
  read_response-authorized status body e = elim (Bool-cases (is_ok status)) [
    | inr bad ↦ let e = rw bad at e in ground (arith, e)
    | inl good ↦ elim (Bool-cases (status == 204)) [
      | inl empty ↦ let e = rw (good, empty) at e in ground (arith, e)
      | inr full ↦ let e = rw (good, full) at e in ground (arith, e)
    ]
  ]

  offline-authorized :
      (n o : Bool)
      → ¬ (◌≡◌ {A = Outcome A} (if not o || n then offline else network_error) unauthorized)
  offline-authorized n o e = ground (arith, e)

  request_again-IsGivenUp :
      (s : State) (t : String)
      → truthy s.access_token ≡ some t
      → (request_again net s).1 ≡ unauthorized
      → IsGivenUp (request_again net s).0
  unfolding request_again
  request_again-IsGivenUp s t held e =
      elim (Fetched-cases (net.fetch true (truthy s.access_token))) [
        | inl (n, o, down) ↦
            let e = rw (request_again, down) at e in elim (offline-authorized n o e) [ ]
        | inr (status, body, up) ↦ elim (Bool-cases (status == 401)) [
          | inl refused ↦ rw (request_again, up, refused, held) (expire-IsGivenUp _)
          | inr accepted ↦
              let e = rw (request_again, up, accepted) at e in
              elim (read_response-authorized status body e) [ ]
        ]
      ]

  after_401-IsGivenUp :
      (s : State) (t : String)
      → GivesTokens net
      → (after_401 texts net (some t) s).1 ≡ unauthorized
      → IsGivenUp (after_401 texts net (some t) s).0
  unfolding after_401 Refreshed GivesTokens
  after_401-IsGivenUp s t gives e = elim (Bool-cases (refresh_access_token texts net s).1) [
    | inr fails ↦ rw (after_401, fails) (expire-IsGivenUp _)
    | inl works ↦ elim (refresh_access_token-Refreshed s) [
      | inl (fails, _) ↦ let e = rw works at fails in ground (arith, e)
      | inr (r, _, _, inl fails) ↦ let e = rw works at fails in ground (arith, e)
      | inr (r, _, _, inr (k, got, held)) ↦
          let e = rw (after_401, works) at e in
          rw (after_401, works) (request_again-IsGivenUp _ k.access (rw held (gives r k got)) e)
    ]
  ]

  -- A request that was sent with a token and ends as unauthorized leaves no token, no refresh timer and
  -- the login page, provided that the backend never gives an empty token.
  pub request-IsGivenUp :
      (s : State) (t : String)
      → truthy s.access_token ≡ some t
      → GivesTokens net
      → (request texts net s).1 ≡ unauthorized
      → IsGivenUp (request texts net s).0
  unfolding request
  request-IsGivenUp s t held gives e =
      elim (Fetched-cases (net.fetch false (truthy s.access_token))) [
        | inl (n, o, down) ↦ let e = rw (request, down) at e in elim (offline-authorized n o e) [ ]
        | inr (status, body, up) ↦ elim (Bool-cases (status == 401)) [
          | inl refused ↦
              let e = rw (request, up, refused, held) at e in
              rw (request, up, refused, held) (after_401-IsGivenUp _ t gives e)
          | inr accepted ↦
              let e = rw (request, up, accepted) at e in
              elim (read_response-authorized status body e) [ ]
        ]
      ]

  -- Without a token a request changes nothing but the list of requests.
  pub request_without_token :
      (s : State)
      → truthy s.access_token ≡ none
      → (request texts net s).0 ≡ record s { calls = s.calls ++ (fetched none ∷ []) }
  unfolding request after_401
  request_without_token s out = elim (Fetched-cases (net.fetch false (truthy s.access_token))) [
    | inl (n, o, down) ↦ rw (request, down, out) refl
    | inr (status, body, up) ↦ elim (Bool-cases (status == 401)) [
      | inl refused ↦ rw (request, up, refused, out) refl
      | inr accepted ↦ rw (request, up, accepted, out) refl
    ]
  ]
