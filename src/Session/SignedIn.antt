-- ===== src/Session/SignedIn.antt =====
-- What the auth store (frontend/src/store/useAuthStore.ts) shows, across the requests of the client.
use Prim.Native.String.{String}
use text.Mathlib.Text.{◌==◌ as str_eq}
use blend_pos.Prelude.{
  ℕ, ◌≡◌, refl, Option, none, some, List, [], ◌∷◌, Bool, true, false, Bool-cases, Option-cases, inl,
  inr, is_some, ◌∙◌, ◌==◌, find,
}
use blend_pos.Session.{
  Texts, State, truthy, set_tokens, clear_tokens, schedule_proactive_refresh,
  cancel_proactive_refresh, reload,
}
use blend_pos.Session.Client.{
  Network, expire, refresh_access_token, request_again, after_401, request, unauthorized,
}
use blend_pos.Session.Auth.{
  LoginResponse, DemoUser, login_backend, login_demo, logout, refresh, init_auth,
  clear_must_change_password, is_demo,
}
use blend_pos.Session.Expiry.{GivesTokens, IsGivenUp, request-IsGivenUp, Fetched-cases}

-- one operation on the session, with what the outside answers
pub data Op (A : Type 0) : Type 0 where
  logs_in : ℕ → String → Option LoginResponse → Op A
  logs_in_demo : ℕ → Bool → List DemoUser → String → String → Op A
  logs_out : Network A → Op A
  refreshes : ℕ → (String → Option LoginResponse) → Op A
  mounts : ℕ → (String → Option LoginResponse) → Op A
  changes_password : Op A
  requests : Network A → Op A
  reloads : Bool → Op A

-- The store says that a user is signed in just when it has a user.
unfoldable pub IsCoherent : State → Type 0
IsCoherent s = s.is_authenticated ≡ is_some s.user

module _ (texts : Texts) where
  login_backend-IsCoherent :
      (now : ℕ) (name : String) (r : Option LoginResponse) (s : State)
      → IsCoherent s
      → IsCoherent (login_backend texts now name r s).0
  unfolding IsCoherent login_backend
  login_backend-IsCoherent now name none s h = h
  login_backend-IsCoherent now name (some r) s h = refl

  login_demo-IsCoherent :
      (now : ℕ) (dev : Bool) (demo : List DemoUser) (name password : String) (s : State)
      → IsCoherent s
      → IsCoherent (login_demo texts now dev demo name password s).0
  unfolding IsCoherent login_demo
  login_demo-IsCoherent now false demo name password s h = h
  login_demo-IsCoherent now true demo name password s h =
      elim (Option-cases (find (is_demo name password) demo)) [
        | inl absent ↦ rw absent h
        | inr (u, found) ↦ rw found refl
      ]

  refresh-IsCoherent :
      (now : ℕ) (api : String → Option LoginResponse) (s : State)
      → IsCoherent s
      → IsCoherent (refresh texts now api s).0
  unfolding IsCoherent refresh
  refresh-IsCoherent now api s h = elim (Option-cases (truthy s.refresh_token)) [
    | inl absent ↦ rw (refresh, absent) h
    | inr (t, present) ↦ elim (Option-cases (api t)) [
      | inl fails ↦ rw (refresh, present, fails) refl
      | inr (r, given) ↦ rw (refresh, present, given) refl
    ]
  ]

  init_auth-IsCoherent :
      (now : ℕ) (api : String → Option LoginResponse) (s : State)
      → IsCoherent s
      → IsCoherent (init_auth texts now api s)
  unfolding IsCoherent init_auth
  init_auth-IsCoherent now api s h = elim (Bool-cases s.is_authenticated) [
    | inr signed_off ↦ rw (init_auth, signed_off) (rw signed_off at h)
    | inl signed_on ↦ elim (Option-cases (truthy s.access_token)) [
      | inr (t, present) ↦ rw (init_auth, signed_on, present) h
      | inl absent ↦ elim (Bool-cases (refresh texts now api s).1) [
        | inl works ↦ rw (init_auth, signed_on, absent, works) (refresh-IsCoherent now api s h)
        | inr fails ↦ rw (init_auth, signed_on, absent, fails) refl
      ]
    ]
  ]

-- the fields of the auth store are the same
unfoldable pub Same : State → State → Type 0
Same s s' = (s'.user ≡ s.user) × (s'.is_authenticated ≡ s.is_authenticated)

Same-refl : (a : State) → Same a a
unfolding Same
Same-refl a = (refl, refl)

kept-IsCoherent : (s : State) → IsCoherent s → IsCoherent (clear_must_change_password s)
unfolding IsCoherent clear_must_change_password
kept-IsCoherent s h = h

reload-IsCoherent : (b : Bool) (s : State) → IsCoherent s → IsCoherent (reload b s)
unfolding IsCoherent reload
reload-IsCoherent b s h = h

Same-trans : (a b c : State) → Same a b → Same b c → Same a c
unfolding Same
Same-trans a b c (u, v) (x, y) = (x ∙ u, y ∙ v)

Same-expire : (a b : State) → Same a b → Same a (expire b)
unfolding Same expire clear_tokens cancel_proactive_refresh
Same-expire a b h = h

Same-IsCoherent : (a b : State) → Same a b → IsCoherent a → IsCoherent b
unfolding Same IsCoherent
Same-IsCoherent a b (u, v) h = rw (v, u) h

given_up_mounts :
    (texts : Texts) (now : ℕ) (api : String → Option LoginResponse) (b : Bool) (s : State)
    → IsGivenUp s
    → (init_auth texts now api (reload b s)).is_authenticated ≡ false
unfolding IsGivenUp init_auth refresh reload truthy
given_up_mounts texts now api b s (_, no_refresh, _, _) = elim (Bool-cases s.is_authenticated) [
  | inl signed_on ↦ rw (signed_on, no_refresh) refl
  | inr signed_off ↦ rw signed_off refl
]

module _ {A : Type 0} (texts : Texts) where
  unfoldable pub apply_op : Op A → State → State
  apply_op (logs_in now name r) s = (login_backend texts now name r s).0
  apply_op (logs_in_demo now dev demo name password) s =
      (login_demo texts now dev demo name password s).0
  apply_op (logs_out net) s = logout texts net s
  apply_op (refreshes now api) s = (refresh texts now api s).0
  apply_op (mounts now api) s = init_auth texts now api s
  apply_op changes_password s = clear_must_change_password s
  apply_op (requests net) s = (request texts net s).0
  apply_op (reloads b) s = reload b s

  unfoldable pub run_ops : List (Op A) → State → State
  run_ops [] s = s
  run_ops (o ∷ os) s = run_ops os (apply_op o s)

  request_again-Same : (net : Network A) (s : State) → Same s (request_again net s).0
  unfolding Same request_again
  request_again-Same net s =
      elim (Fetched-cases texts net (net.fetch true (truthy s.access_token))) [
        | inl (n, o, down) ↦ rw (request_again, down) (refl, refl)
        | inr (status, body, up) ↦ elim (Bool-cases (status == 401)) [
          | inl refused ↦ elim (Option-cases (truthy s.access_token)) [
            | inl absent ↦ rw (request_again, up, refused, absent) (refl, refl)
            | inr (t, held) ↦ rw (request_again, up, refused, held) (Same-expire s _ (refl, refl))
          ]
          | inr accepted ↦ rw (request_again, up, accepted) (refl, refl)
        ]
      ]

  refresh_access_token-Same :
      (net : Network A) (s : State) → Same s (refresh_access_token texts net s).0
  unfolding Same refresh_access_token schedule_proactive_refresh set_tokens
  refresh_access_token-Same net s = elim (Option-cases (truthy s.refresh_token)) [
    | inl absent ↦ rw (refresh_access_token, absent) (refl, refl)
    | inr (r, present) ↦ elim (Option-cases (net.refresh r)) [
      | inl refused ↦ rw (refresh_access_token, present, refused) (refl, refl)
      | inr (t, given) ↦ rw (refresh_access_token, present, given) (refl, refl)
    ]
  ]

  after_401-Same :
      (net : Network A) (o : Option String) (s : State) → Same s (after_401 texts net o s).0
  unfolding after_401
  after_401-Same net none s = Same-refl s
  after_401-Same net (some t) s =
      let refreshed = refresh_access_token-Same net s in
      let s' : State = (refresh_access_token texts net s).0 in
      elim (Bool-cases (refresh_access_token texts net s).1) [
        | inl works ↦
            rw (after_401, works) (Same-trans s s' _ refreshed (request_again-Same net s'))
        | inr fails ↦ rw (after_401, fails) (Same-expire s s' refreshed)
      ]

  request-Same : (net : Network A) (s : State) → Same s (request texts net s).0
  unfolding request Same
  request-Same net s = elim (Fetched-cases texts net (net.fetch false (truthy s.access_token))) [
    | inl (n, o, down) ↦ rw (request, down) (refl, refl)
    | inr (status, body, up) ↦ elim (Bool-cases (status == 401)) [
      | inl refused ↦ rw (request, up, refused) (after_401-Same net (truthy s.access_token) _)
      | inr accepted ↦ rw (request, up, accepted) (refl, refl)
    ]
  ]

  logout-IsCoherent : (net : Network A) (s : State) → IsCoherent (logout texts net s)
  unfolding IsCoherent logout
  logout-IsCoherent net s = refl

  apply_op-IsCoherent : (o : Op A) (s : State) → IsCoherent s → IsCoherent (apply_op o s)
  unfolding apply_op
  apply_op-IsCoherent (logs_in now name r) s h = login_backend-IsCoherent texts now name r s h
  apply_op-IsCoherent (logs_in_demo now dev demo name password) s h =
      login_demo-IsCoherent texts now dev demo name password s h
  apply_op-IsCoherent (logs_out net) s h = logout-IsCoherent net s
  apply_op-IsCoherent (refreshes now api) s h = refresh-IsCoherent texts now api s h
  apply_op-IsCoherent (mounts now api) s h = init_auth-IsCoherent texts now api s h
  apply_op-IsCoherent changes_password s h = kept-IsCoherent s h
  apply_op-IsCoherent (requests net) s h = Same-IsCoherent s _ (request-Same net s) h
  apply_op-IsCoherent (reloads b) s h = reload-IsCoherent b s h

  -- After any operations, requests and reloads that start from a coherent session, the store says
  -- that a user is signed in just when it holds one.
  pub run_ops-IsCoherent : (os : List (Op A)) (s : State) → IsCoherent s → IsCoherent (run_ops os s)
  unfolding run_ops
  run_ops-IsCoherent [] s h = h
  run_ops-IsCoherent (o ∷ os) s h = run_ops-IsCoherent os (apply_op o s) (apply_op-IsCoherent o s h)

  -- When the client gives a session up (a request sent with a token ends as unauthorized), the page
  -- that is loaded next signs the user out, whatever the backend then answers: `initAuth` finds no
  -- refresh token. The backend is assumed never to give an empty token.
  pub expired_session_signed_out :
      (net : Network A) (s : State) (t : String) (now : ℕ) (api : String → Option LoginResponse)
      (b : Bool)
      → truthy s.access_token ≡ some t
      → GivesTokens net
      → (request texts net s).1 ≡ unauthorized
      → (init_auth texts now api (reload b (request texts net s).0)).is_authenticated ≡ false
  expired_session_signed_out net s t now api b held gives e =
      given_up_mounts texts now api b _ (request-IsGivenUp texts net s t held gives e)

-- After a login that requires a new password, a reload of the page and a refresh that succeeds leave
-- the user signed in without that requirement, whatever the answer to the refresh says of it. The
-- refresh token of the login is not empty.
pub password_change_skipped :
    (texts : Texts) (now later : ℕ) (name : String) (r r' : LoginResponse) (s : State) (b : Bool)
    → r.must_change_password ≡ some true
    → str_eq r.refresh_token "" ≡ false
    → let logged_in = (login_backend texts now name (some r) s).0 in
      let after = init_auth texts later (λ _. some r') (reload b logged_in) in
      (logged_in.must_change_password ≡ true)
      × (after.is_authenticated ≡ true)
      × (after.must_change_password ≡ false)
unfolding login_backend init_auth refresh reload truthy set_tokens schedule_proactive_refresh
password_change_skipped texts now later name r r' s b required present =
    rw (required, present, refresh, present) (refl, refl, refl)
