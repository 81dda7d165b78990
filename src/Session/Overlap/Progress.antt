-- ===== src/Session/Overlap/Progress.antt =====
-- Requests of frontend/src/api/client.ts that overlap all come to an end, and make few calls.
use Prim.Native.String.{String}
use blend_pos.Prelude.{
  ℕ, zero, suc, ◌+◌, ◌≡◌, ◌≤◌, ◌<◌, ap, ◌==◌, Option, none, some, List, [], ◌∷◌, map, Bool, true,
  false, get_elem?, is_some, Bool-cases, inl, inr, arith,
}
use blend_pos.Session.{Texts, State, truthy, fetched}
use blend_pos.Session.Client.{Fetched, answered, failed, Tokens, expire, unauthorized, log}
use blend_pos.Session.Overlap.{
  Phase, in_air, waits, woken, ended, NetSystem, NetEvent, answers, settles, resumes, set_at, put,
  on_session, start_refresh, refused_call, fetch_over, answer_at, resume_at, wake_one, wake,
  settle_with, settle_at, next_state, run_system, new_system,
}
use blend_pos.Session.Overlap.Attended.{
  IsAttended, start_with-requests, NoneWaits, run_system-IsAttended,
}

module _ {A : Type 0} where
  -- how many events a call is from its end, at most
  abbrev distance : Phase A → ℕ
  distance (in_air false _) = 4
  distance waits = 3
  distance (woken _) = 2
  distance (in_air true _) = 1
  distance (ended _) = 0

  abbrev distances : List (Phase A) → ℕ
  distances [] = 0
  distances (p ∷ ps) = distance p + distances ps

  abbrev pub left_to_do : NetSystem A → ℕ
  left_to_do s = distances s.requests

  -- the event that a call waits for, with any answer
  abbrev pub next_event : ℕ → Fetched A → Option Tokens → Phase A → NetEvent A
  next_event i x r (in_air _ _) = answers i x
  next_event i x r waits = settles r
  next_event i x r (woken _) = resumes i
  next_event i x r (ended _) = resumes i

  abbrev pub has_ended : Phase A → Bool
  has_ended (ended _) = true
  has_ended (in_air _ _) = false
  has_ended waits = false
  has_ended (woken _) = false

  distances-set_at :
      (i : ℕ) (p q : Phase A) (ps : List (Phase A))
      → get_elem? ps i ≡ some p
      → distances (set_at i q ps) + distance p ≡ distances ps + distance q
  distances-set_at i p q [] h = absurd (ground (arith, h))
  distances-set_at zero p q (x ∷ ps) h = ground arith
  distances-set_at (suc i) p q (x ∷ ps) h = omega (arith, distances-set_at i p q ps h)

  put_lowers :
      (i : ℕ) (p q : Phase A) (s : NetSystem A)
      → get_elem? s.requests i ≡ some p
      → suc (distance q) ≤ distance p
      → left_to_do (put i q s) < left_to_do s
  unfolding put
  put_lowers i p q s h lower = omega (arith, distances-set_at i p q s.requests h)

  distances-wake : (b : Bool) (ps : List (Phase A)) → distances (map (wake_one b) ps) ≤ distances ps
  unfolding wake_one
  distances-wake b [] = omega arith
  distances-wake b (waits ∷ ps) = omega (arith, distances-wake b ps)
  distances-wake b (in_air _ _ ∷ ps) = omega (arith, distances-wake b ps)
  distances-wake b (woken _ ∷ ps) = omega (arith, distances-wake b ps)
  distances-wake b (ended _ ∷ ps) = omega (arith, distances-wake b ps)

  wake_lowers :
      (b : Bool) (i : ℕ) (ps : List (Phase A))
      → get_elem? ps i ≡ some waits
      → distances (map (wake_one b) ps) < distances ps
  unfolding wake_one
  wake_lowers b i [] h = absurd (ground (arith, h))
  wake_lowers b zero (waits ∷ ps) h = omega (arith, distances-wake b ps)
  wake_lowers b zero (in_air _ _ ∷ ps) h = absurd (ground (arith, h))
  wake_lowers b zero (woken _ ∷ ps) h = absurd (ground (arith, h))
  wake_lowers b zero (ended _ ∷ ps) h = absurd (ground (arith, h))
  wake_lowers b (suc i) (waits ∷ ps) h = omega (arith, wake_lowers b i ps h)
  wake_lowers b (suc i) (in_air _ _ ∷ ps) h = omega (arith, wake_lowers b i ps h)
  wake_lowers b (suc i) (woken _ ∷ ps) h = omega (arith, wake_lowers b i ps h)
  wake_lowers b (suc i) (ended _ ∷ ps) h = omega (arith, wake_lowers b i ps h)

  NoneWaits-get_elem :
      (i : ℕ) (ps : List (Phase A)) → NoneWaits ps → get_elem? ps i ≡ some waits → ⊥
  NoneWaits-get_elem i [] h k = absurd (ground (arith, k))
  NoneWaits-get_elem zero (p ∷ ps) (h, hs) k = absurd (ground (arith, h, k))
  NoneWaits-get_elem (suc i) (p ∷ ps) (h, hs) k = NoneWaits-get_elem i ps hs k

  refused_lowers :
      (i : ℕ) (retry : Bool) (o : Option String) (s : NetSystem A)
      → get_elem? s.requests i ≡ some (in_air retry o)
      → left_to_do (refused_call i retry o s) < left_to_do s
  unfolding refused_call on_session start_refresh
  refused_lowers i false none s h = put_lowers i _ (ended unauthorized) s h (omega arith)
  refused_lowers i true none s h = put_lowers i _ (ended unauthorized) s h (omega arith)
  refused_lowers i false (some t) s h =
      unfold put in
      omega (
        arith,
        ap (λ ps. distances (set_at i waits ps)) (start_with-requests s.refresh_promise s),
        distances-set_at i (in_air false (some t)) waits s.requests h,
      )
  refused_lowers i true (some _) s h =
      put_lowers i _ (ended unauthorized) (on_session expire s) h (omega arith)

  fetch_over_lowers :
      (i : ℕ) (retry : Bool) (o : Option String) (x : Fetched A) (s : NetSystem A)
      → get_elem? s.requests i ≡ some (in_air retry o)
      → left_to_do (fetch_over i retry o x s) < left_to_do s
  unfolding fetch_over
  fetch_over_lowers i false o (failed _ _) s h = put_lowers i _ (ended _) s h (omega arith)
  fetch_over_lowers i true o (failed _ _) s h = put_lowers i _ (ended _) s h (omega arith)
  fetch_over_lowers i retry o (answered status body) s h = elim (Bool-cases (status == 401)) [
    | inl is_401 ↦ rw is_401 (refused_lowers i retry o s h)
    | inr other ↦ rw other (put_lowers i _ (ended _) s h (in_air_far retry o))
  ]
    where
      in_air_far : (b : Bool) (t : Option String) → 1 ≤ distance (in_air b t)
      in_air_far true t = omega arith
      in_air_far false t = omega arith

  resume_lowers :
      (i : ℕ) (b : Bool) (s : NetSystem A)
      → get_elem? s.requests i ≡ some (woken b)
      → left_to_do (resume_at i (some (woken b)) s) < left_to_do s
  unfolding resume_at on_session
  resume_lowers i true s h =
      let token = truthy s.session.access_token in
      put_lowers i (woken true) (in_air true token) (on_session (log (fetched token)) s) h
        (omega arith)
  resume_lowers i false s h =
      put_lowers i (woken false) (ended unauthorized) (on_session expire s) h (omega arith)

  module _ (texts : Texts) (now : ℕ) where
    settle_lowers :
        (i : ℕ) (o : Option (Option String)) (r : Option Tokens) (s : NetSystem A)
        → is_some o ≡ true
        → get_elem? s.requests i ≡ some waits
        → left_to_do (settle_at texts now o r s) < left_to_do s
    unfolding settle_at settle_with wake on_session
    settle_lowers i none r s flying h = absurd (ground (arith, flying))
    settle_lowers i (some none) r s flying h = wake_lowers false i s.requests h
    settle_lowers i (some (some _)) none s flying h = wake_lowers false i s.requests h
    settle_lowers i (some (some _)) (some _) s flying h = wake_lowers true i s.requests h

    next_event_lowers :
        (s : NetSystem A) (i : ℕ) (p : Phase A) (x : Fetched A) (r : Option Tokens)
        → IsAttended s
        → get_elem? s.requests i ≡ some p
        → has_ended p ≡ false
        → left_to_do (next_state texts now s (next_event i x r p)) < left_to_do s
    unfolding next_state answer_at
    next_event_lowers s i (in_air retry o) x r attended h live =
        rw h (fetch_over_lowers i retry o x s h)
    next_event_lowers s i waits x r attended h live =
        elim (Bool-cases (is_some s.refresh_promise)) [
          | inl flying ↦ settle_lowers i s.refresh_promise r s flying h
          | inr idle ↦ absurd (NoneWaits-get_elem i s.requests (attended idle) h)
        ]
    next_event_lowers s i (woken b) x r attended h live = rw h (resume_lowers i b s h)
    next_event_lowers s i (ended _) x r attended h live = absurd (ground (arith, live))

    -- After any events, a call that has not ended waits for an event that can happen, and whatever
    -- answer that event brings, it leaves less to do: no call waits for a refresh that nobody makes.
    pub next_event_progress :
        (u : State) (es : List (NetEvent A)) (i : ℕ) (p : Phase A) (x : Fetched A)
        (r : Option Tokens)
        → get_elem? (run_system texts now (new_system u) es).requests i ≡ some p
        → has_ended p ≡ false
        → left_to_do
            (next_state texts now (run_system texts now (new_system u) es) (next_event i x r p))
          < left_to_do (run_system texts now (new_system u) es)
    next_event_progress u es i p x r h live =
        next_event_lowers (run_system texts now (new_system u) es) i p x r
          (run_system-IsAttended texts now es (new_system u) (unfold new_system in λ idle. tt)) h
          live
