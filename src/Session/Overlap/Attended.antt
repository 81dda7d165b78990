-- ===== src/Session/Overlap/Attended.antt =====
-- A call of frontend/src/api/client.ts that waits for the shared refresh has one to wait for, whatever
-- overlaps with what.
use Prim.Native.String.{String}
use blend_pos.Prelude.{
  ℕ, zero, suc, ◌≡◌, refl, ap, ◌==◌, Option, none, some, List, [], ◌∷◌, map, Bool, true, false,
  get_elem?, is_some, Bool-cases, inl, inr, arith, All, All-append,
}
use blend_pos.Session.{Texts, State, truthy, fetched}
use blend_pos.Session.Client.{Fetched, answered, failed, Tokens, expire, unauthorized, log}
use blend_pos.Session.Overlap.{
  Phase, in_air, waits, woken, ended, NetSystem, NetEvent, begins, answers, settles, resumes,
  timer_fires, set_at, put, on_session, ask, start_with, start_refresh, refused_call, fetch_over,
  answer_at, resume_at, wake_one, wake, settle_with, settle_at, next_state, run_system,
}

module _ {A : Type 0} where
  abbrev pub is_waiting : Phase A → Bool
  is_waiting waits = true
  is_waiting (in_air _ _) = false
  is_waiting (woken _) = false
  is_waiting (ended _) = false

  abbrev pub NoneWaits : List (Phase A) → Type 0
  NoneWaits = All (λ p. is_waiting p ≡ false)

  -- With no refresh in flight no call waits for one.
  abbrev pub IsAttended : NetSystem A → Type 0
  IsAttended s = is_some s.refresh_promise ≡ false → NoneWaits s.requests

  set_at-NoneWaits :
      (i : ℕ) (p : Phase A) (ps : List (Phase A))
      → is_waiting p ≡ false
      → NoneWaits ps
      → NoneWaits (set_at i p ps)
  set_at-NoneWaits i p [] h hs = tt
  set_at-NoneWaits zero p (q ∷ ps) h (_, hs) = (h, hs)
  set_at-NoneWaits (suc i) p (q ∷ ps) h (k, hs) = (k, set_at-NoneWaits i p ps h hs)

  wake-NoneWaits : (b : Bool) (ps : List (Phase A)) → NoneWaits (map (wake_one b) ps)
  unfolding wake_one
  wake-NoneWaits b [] = tt
  wake-NoneWaits b (waits ∷ ps) = (refl, wake-NoneWaits b ps)
  wake-NoneWaits b (in_air _ _ ∷ ps) = (refl, wake-NoneWaits b ps)
  wake-NoneWaits b (woken _ ∷ ps) = (refl, wake-NoneWaits b ps)
  wake-NoneWaits b (ended _ ∷ ps) = (refl, wake-NoneWaits b ps)

  ask-in_flight : (o : Option String) (s : NetSystem A) → is_some (ask o s).refresh_promise ≡ true
  unfolding ask
  ask-in_flight none s = refl
  ask-in_flight (some _) s = refl

  ask-requests : (o : Option String) (s : NetSystem A) → (ask o s).requests ≡ s.requests
  unfolding ask
  ask-requests none s = refl
  ask-requests (some _) s = refl

  pub start_with-requests :
      (o : Option (Option String)) (s : NetSystem A) → (start_with o s).requests ≡ s.requests
  unfolding start_with
  start_with-requests none s = ask-requests (truthy s.session.refresh_token) s
  start_with-requests (some _) s = refl

  start_with-in_flight :
      (o : Option (Option String)) (s : NetSystem A)
      → s.refresh_promise ≡ o
      → is_some (start_with o s).refresh_promise ≡ true
  unfolding start_with
  start_with-in_flight none s h = ask-in_flight (truthy s.session.refresh_token) s
  start_with-in_flight (some _) s h = ap is_some h

  start_refresh-in_flight : (s : NetSystem A) → is_some (start_refresh s).refresh_promise ≡ true
  unfolding start_refresh
  start_refresh-in_flight s = start_with-in_flight s.refresh_promise s refl

  put-IsAttended :
      (i : ℕ) (p : Phase A) (s : NetSystem A)
      → is_waiting p ≡ false
      → IsAttended s
      → IsAttended (put i p s)
  unfolding put
  put-IsAttended i p s h attended idle = set_at-NoneWaits i p s.requests h (attended idle)

  on_session-IsAttended :
      (f : State → State) (s : NetSystem A) → IsAttended s → IsAttended (on_session f s)
  unfolding on_session
  on_session-IsAttended f s attended = attended

  refused_call-IsAttended :
      (i : ℕ) (retry : Bool) (o : Option String) (s : NetSystem A)
      → IsAttended s
      → IsAttended (refused_call i retry o s)
  unfolding refused_call
  refused_call-IsAttended i retry none s h = put-IsAttended i (ended unauthorized) s refl h
  refused_call-IsAttended i false (some _) s h =
      unfold put in λ idle. absurd (ground (arith, idle, start_refresh-in_flight s))
  refused_call-IsAttended i true (some _) s h =
      put-IsAttended i (ended unauthorized) (on_session expire s) refl
        (on_session-IsAttended expire s h)

  fetch_over-IsAttended :
      (i : ℕ) (retry : Bool) (o : Option String) (x : Fetched A) (s : NetSystem A)
      → IsAttended s
      → IsAttended (fetch_over i retry o x s)
  unfolding fetch_over
  fetch_over-IsAttended i retry o (failed _ _) s h = put-IsAttended i _ s refl h
  fetch_over-IsAttended i retry o (answered status body) s h = elim (Bool-cases (status == 401)) [
    | inl is_401 ↦ rw is_401 (refused_call-IsAttended i retry o s h)
    | inr other ↦ rw other (put-IsAttended i _ s refl h)
  ]

  answer_at-IsAttended :
      (i : ℕ) (x : Fetched A) (o : Option (Phase A)) (s : NetSystem A)
      → IsAttended s
      → IsAttended (answer_at i x o s)
  unfolding answer_at
  answer_at-IsAttended i x (some (in_air retry token)) s h =
      fetch_over-IsAttended i retry token x s h
  answer_at-IsAttended i x (some waits) s h = h
  answer_at-IsAttended i x (some (woken _)) s h = h
  answer_at-IsAttended i x (some (ended _)) s h = h
  answer_at-IsAttended i x none s h = h

  resume_at-IsAttended :
      (i : ℕ) (o : Option (Phase A)) (s : NetSystem A) → IsAttended s → IsAttended (resume_at i o s)
  unfolding resume_at
  resume_at-IsAttended i (some (woken true)) s h =
      let token = truthy s.session.access_token in
      put-IsAttended i (in_air true token) (on_session (log (fetched token)) s) refl
        (on_session-IsAttended (log (fetched token)) s h)
  resume_at-IsAttended i (some (woken false)) s h =
      put-IsAttended i (ended unauthorized) (on_session expire s) refl
        (on_session-IsAttended expire s h)
  resume_at-IsAttended i (some (in_air _ _)) s h = h
  resume_at-IsAttended i (some waits) s h = h
  resume_at-IsAttended i (some (ended _)) s h = h
  resume_at-IsAttended i none s h = h

  wake-IsAttended : (b : Bool) (s : NetSystem A) → IsAttended (wake b s)
  unfolding wake
  wake-IsAttended b s idle = wake-NoneWaits b s.requests

  module _ (texts : Texts) (now : ℕ) where
    settle_at-IsAttended :
        (o : Option (Option String)) (r : Option Tokens) (s : NetSystem A)
        → IsAttended s
        → IsAttended (settle_at texts now o r s)
    unfolding settle_at settle_with
    settle_at-IsAttended none r s h = h
    settle_at-IsAttended (some none) r s h = wake-IsAttended false s
    settle_at-IsAttended (some (some _)) none s h = wake-IsAttended false s
    settle_at-IsAttended (some (some _)) (some t) s h =
        unfold wake in λ idle. wake-NoneWaits true s.requests

    next_state-IsAttended :
        (s : NetSystem A) (e : NetEvent A) → IsAttended s → IsAttended (next_state texts now s e)
    unfolding next_state on_session
    next_state-IsAttended s begins h = λ idle.
        All-append (λ p. is_waiting p ≡ false) s.requests
          (in_air false (truthy s.session.access_token) ∷ []) (h idle) (refl, tt)
    next_state-IsAttended s (answers i x) h = answer_at-IsAttended i x (get_elem? s.requests i) s h
    next_state-IsAttended s (settles r) h = settle_at-IsAttended s.refresh_promise r s h
    next_state-IsAttended s (resumes i) h = resume_at-IsAttended i (get_elem? s.requests i) s h
    next_state-IsAttended s timer_fires h =
        λ idle. absurd (ground (arith, idle, start_refresh-in_flight s))

    pub run_system-IsAttended :
        (es : List (NetEvent A)) (s : NetSystem A)
        → IsAttended s
        → IsAttended (run_system texts now s es)
    unfolding run_system
    run_system-IsAttended [] s h = h
    run_system-IsAttended (e ∷ es) s h =
        run_system-IsAttended es (next_state texts now s e) (next_state-IsAttended s e h)
