-- ===== src/Session/Overlap/Calls.antt =====
-- How many calls the requests of frontend/src/api/client.ts make when they overlap.
use Prim.Native.String.{String}
use blend_pos.Prelude.{
  ℕ, zero, suc, ◌+◌, ◌≡◌, ◌≤◌, refl, ap, ◌==◌, Option, none, some, List, [], ◌∷◌, ◌++◌, map, Bool,
  true, false, get_elem?, Bool-cases, inl, inr, arith, length, length-append,
}
use blend_pos.Session.{
  Texts, State, Call, truthy, fetched, refresh_asked, set_tokens, clear_tokens,
  schedule_proactive_refresh, cancel_proactive_refresh,
}
use blend_pos.Session.Client.{Fetched, answered, failed, Tokens, expire, unauthorized, log}
use blend_pos.Session.Overlap.{
  Phase, in_air, waits, woken, ended, NetSystem, NetEvent, begins, answers, settles, resumes,
  timer_fires, set_at, put, on_session, ask, start_with, start_refresh, refused_call, fetch_over,
  answer_at, resume_at, wake_one, wake, settle_with, settle_at, next_state, run_system, new_system,
}
use blend_pos.Session.Overlap.Attended.{start_with-requests}

length-log : (c : Call) (u : State) → length (log c u).calls ≡ length u.calls + 1
length-log c u = length-append u.calls (c ∷ [])

expire_silent : (u : State) → (expire u).calls ≡ u.calls
unfolding expire clear_tokens cancel_proactive_refresh
expire_silent u = refl

module _ {A : Type 0} where
  -- the calls that a request may still make
  abbrev credit : Phase A → ℕ
  credit (in_air false _) = 2
  credit waits = 1
  credit (woken _) = 1
  credit (in_air true _) = 0
  credit (ended _) = 0

  abbrev credits : List (Phase A) → ℕ
  credits [] = 0
  credits (p ∷ ps) = credit p + credits ps

  abbrev budget : NetSystem A → ℕ
  budget s = length s.session.calls + credits s.requests

  -- the calls that an event may bring in all
  abbrev allowance : NetEvent A → ℕ
  allowance begins = 3
  allowance timer_fires = 1
  allowance (answers _ _) = 0
  allowance (settles _) = 0
  allowance (resumes _) = 0

  abbrev pub allowed : List (NetEvent A) → ℕ
  allowed [] = 0
  allowed (e ∷ es) = allowance e + allowed es

  credits-append : (ps qs : List (Phase A)) → credits (ps ++ qs) ≡ credits ps + credits qs
  credits-append [] qs = omega arith
  credits-append (p ∷ ps) qs = omega (arith, credits-append ps qs)

  credits-set_at :
      (i : ℕ) (p q : Phase A) (ps : List (Phase A))
      → get_elem? ps i ≡ some p
      → credits (set_at i q ps) + credit p ≡ credits ps + credit q
  credits-set_at i p q [] h = absurd (ground (arith, h))
  credits-set_at zero p q (x ∷ ps) h = ground arith
  credits-set_at (suc i) p q (x ∷ ps) h = omega (arith, credits-set_at i p q ps h)

  credits-wake : (b : Bool) (ps : List (Phase A)) → credits (map (wake_one b) ps) ≡ credits ps
  unfolding wake_one
  credits-wake b [] = refl
  credits-wake b (waits ∷ ps) = omega (arith, credits-wake b ps)
  credits-wake b (in_air false _ ∷ ps) = omega (arith, credits-wake b ps)
  credits-wake b (in_air true _ ∷ ps) = omega (arith, credits-wake b ps)
  credits-wake b (woken _ ∷ ps) = omega (arith, credits-wake b ps)
  credits-wake b (ended _ ∷ ps) = omega (arith, credits-wake b ps)

  ask_costs : (o : Option String) (s : NetSystem A) → budget (ask o s) ≤ budget s + 1
  unfolding ask
  ask_costs none s = omega arith
  ask_costs (some t) s = omega (arith, length-log (refresh_asked t) s.session)

  start_with_costs :
      (o : Option (Option String)) (s : NetSystem A) → budget (start_with o s) ≤ budget s + 1
  unfolding start_with
  start_with_costs none s = ask_costs (truthy s.session.refresh_token) s
  start_with_costs (some _) s = omega arith

  -- a request goes on to a phase with less credit, and `cost` calls are made
  put_costs :
      (i cost : ℕ) (p q : Phase A) (s s' : NetSystem A)
      → get_elem? s.requests i ≡ some p
      → s'.requests ≡ s.requests
      → length s'.session.calls ≤ length s.session.calls + cost
      → cost + credit q ≤ credit p
      → budget (put i q s') ≤ budget s
  unfolding put
  put_costs i cost p q s s' h same few lower =
      rw same (omega (arith, credits-set_at i p q s.requests h))

  refused_costs :
      (i : ℕ) (retry : Bool) (o : Option String) (s : NetSystem A)
      → get_elem? s.requests i ≡ some (in_air retry o)
      → budget (refused_call i retry o s) ≤ budget s
  unfolding refused_call start_refresh
  refused_costs i false none s h =
      put_costs i 0 (in_air false none) (ended unauthorized) s s h refl (omega arith) (omega arith)
  refused_costs i true none s h =
      put_costs i 0 (in_air true none) (ended unauthorized) s s h refl (omega arith) (omega arith)
  refused_costs i false (some t) s h =
      let same = start_with-requests s.refresh_promise s in
      put_costs i 1 (in_air false (some t)) waits s (start_with s.refresh_promise s) h same
        (omega (arith, ap credits same, start_with_costs s.refresh_promise s)) (omega arith)
  refused_costs i true (some t) s h =
      put_costs i 0 (in_air true (some t)) (ended unauthorized) s (on_session expire s) h
        (unfold on_session in refl)
        (unfold on_session in omega (arith, ap length (expire_silent s.session))) (omega arith)

  fetch_over_costs :
      (i : ℕ) (retry : Bool) (o : Option String) (x : Fetched A) (s : NetSystem A)
      → get_elem? s.requests i ≡ some (in_air retry o)
      → budget (fetch_over i retry o x s) ≤ budget s
  unfolding fetch_over
  fetch_over_costs i retry o (failed _ _) s h =
      put_costs i 0 (in_air retry o) (ended _) s s h refl (omega arith) (omega arith)
  fetch_over_costs i retry o (answered status body) s h = elim (Bool-cases (status == 401)) [
    | inl is_401 ↦ rw is_401 (refused_costs i retry o s h)
    | inr other ↦
        rw other (put_costs i 0 (in_air retry o) (ended _) s s h refl (omega arith) (omega arith))
  ]

  answer_costs :
      (i : ℕ) (x : Fetched A) (o : Option (Phase A)) (s : NetSystem A)
      → get_elem? s.requests i ≡ o
      → budget (answer_at i x o s) ≤ budget s
  unfolding answer_at
  answer_costs i x (some (in_air retry t)) s h = fetch_over_costs i retry t x s h
  answer_costs i x (some waits) s h = omega arith
  answer_costs i x (some (woken _)) s h = omega arith
  answer_costs i x (some (ended _)) s h = omega arith
  answer_costs i x none s h = omega arith

  resume_costs :
      (i : ℕ) (o : Option (Phase A)) (s : NetSystem A)
      → get_elem? s.requests i ≡ o
      → budget (resume_at i o s) ≤ budget s
  unfolding resume_at
  resume_costs i (some (woken true)) s h =
      let token = truthy s.session.access_token in
      put_costs i 1 (woken true) (in_air true token) s (on_session (log (fetched token)) s) h
        (unfold on_session in refl)
        (unfold on_session in omega (arith, length-log (fetched token) s.session)) (omega arith)
  resume_costs i (some (woken false)) s h =
      put_costs i 0 (woken false) (ended unauthorized) s (on_session expire s) h
        (unfold on_session in refl)
        (unfold on_session in omega (arith, ap length (expire_silent s.session))) (omega arith)
  resume_costs i (some (in_air _ _)) s h = omega arith
  resume_costs i (some waits) s h = omega arith
  resume_costs i (some (ended _)) s h = omega arith
  resume_costs i none s h = omega arith

  module _ (texts : Texts) (now : ℕ) where
    settle_costs :
        (o : Option (Option String)) (r : Option Tokens) (s : NetSystem A)
        → budget (settle_at texts now o r s) ≤ budget s
    unfolding settle_at settle_with wake on_session schedule_proactive_refresh set_tokens
    settle_costs none r s = omega arith
    settle_costs (some none) r s = omega (arith, credits-wake false s.requests)
    settle_costs (some (some _)) none s = omega (arith, credits-wake false s.requests)
    settle_costs (some (some _)) (some t) s = omega (arith, credits-wake true s.requests)

    next_state_costs :
        (s : NetSystem A) (e : NetEvent A)
        → budget (next_state texts now s e) ≤ budget s + allowance e
    unfolding next_state on_session start_refresh
    next_state_costs s begins =
        let token = truthy s.session.access_token in
        omega (
          arith,
          length-log (fetched token) s.session,
          credits-append s.requests (in_air false token ∷ []),
        )
    next_state_costs s (answers i x) =
        omega (arith, answer_costs i x (get_elem? s.requests i) s refl)
    next_state_costs s (settles r) = omega (arith, settle_costs s.refresh_promise r s)
    next_state_costs s (resumes i) = omega (arith, resume_costs i (get_elem? s.requests i) s refl)
    next_state_costs s timer_fires = start_with_costs s.refresh_promise s

    run_costs :
        (es : List (NetEvent A)) (s : NetSystem A)
        → budget (run_system texts now s es) ≤ budget s + allowed es
    unfolding run_system
    run_costs [] s = omega arith
    run_costs (e ∷ es) s =
        omega (arith, next_state_costs s e, run_costs es (next_state texts now s e))

    -- However requests overlap, they make no more calls than three for each of them and one for each
    -- time that the timer fires: the request, its share of a refresh, and the request once more.
    pub run_system_calls :
        (u : State) (es : List (NetEvent A))
        → length (run_system texts now (new_system u) es).session.calls
          ≤ length u.calls + allowed es
    unfolding new_system
    run_system_calls u es = omega (arith, run_costs es (new_system u))
