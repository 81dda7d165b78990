-- ===== src/Offline/Status.antt =====
-- frontend/src/hooks/useSyncStatus.ts: how often the queue is sent again, and when the cashier is told
-- that it is long. What `navigator.onLine`, `trySyncQueue` and `getSyncStats` give are arguments.
use Prim.Native.Nat.{min}
use blend_pos.Prelude.{
  ℕ, ◌*◌, ◌≡◌, refl, sym, ◌∙◌, ◌≤◌, List, [], ◌∷◌, ◌++◌, foldl, Bool, true, false, not, ◌&&◌, ltb,
  leb, if◌then◌else◌, arith, Bool-cases, inl, inr,
}
use mathlib.Core.List.{append_assoc, append-nil}

-- 'error' is in the type of the source, but nothing sets it
pub data SyncState : Type 0 where
  idle syncing : SyncState

pub record SyncStatus : Type 0 where
  pub pending : ℕ
  pub error : ℕ
  pub sync_state : SyncState
  -- `intervalRef` and `alertedRef`
  pub interval : ℕ
  pub alerted : Bool
  -- the counts that `notifications.show` has told of
  pub shown : List ℕ

pub data StatusOp : Type 0 where
  -- `attemptSync` when the browser is online or not, and whether `trySyncQueue` returns
  attempts : Bool → Bool → StatusOp
  -- the counts after an attempt of the loop
  refreshes : ℕ → ℕ → StatusOp
  -- the poll of the counts
  polls : ℕ → ℕ → StatusOp
  -- the event 'online', with the attempt that it makes
  goes_online : Bool → Bool → StatusOp

abbrev pub base_interval_ms : ℕ
base_interval_ms = 30_000

abbrev pub max_interval_ms : ℕ
max_interval_ms = 5 * 60_000

abbrev pub queue_alert_limit : ℕ
queue_alert_limit = 100

unfoldable pub first_status : SyncStatus
first_status = record {
  pending = 0;
  error = 0;
  sync_state = idle;
  interval = base_interval_ms;
  alerted = false;
  shown = [];
}

unfoldable pub attempt_sync : Bool → Bool → SyncStatus → SyncStatus
attempt_sync online returns s = if not online then record s { sync_state = idle } else record s {
  sync_state = idle;
  interval = if returns then base_interval_ms else min (s.interval * 2) max_interval_ms;
}

unfoldable pub poll_stats : ℕ → ℕ → SyncStatus → SyncStatus
poll_stats pending error s = record s {
  pending = pending;
  error = error;
  shown =
      if ltb queue_alert_limit pending && not s.alerted then s.shown ++ (pending ∷ []) else s.shown;
  alerted = if leb pending queue_alert_limit then false else true;
}

unfoldable pub status_step : SyncStatus → StatusOp → SyncStatus
unfolding attempt_sync poll_stats
status_step s (attempts online returns) = attempt_sync online returns s
status_step s (refreshes pending error) = record s { pending = pending; error = error }
status_step s (polls pending error) = poll_stats pending error s
status_step s (goes_online online returns) =
    attempt_sync online returns (record s { interval = base_interval_ms })

unfoldable pub run_status : SyncStatus → List StatusOp → SyncStatus
unfolding status_step
run_status = foldl status_step

-- the counts that the polls found
abbrev pub polled : List StatusOp → List ℕ
polled [] = []
polled (polls n _ ∷ ops) = n ∷ polled ops
polled (attempts _ _ ∷ ops) = polled ops
polled (refreshes _ _ ∷ ops) = polled ops
polled (goes_online _ _ ∷ ops) = polled ops

-- those above the limit that follow one that is not, or stand first
abbrev pub crossings : Bool → List ℕ → List ℕ
crossings above [] = []
crossings above (n ∷ ns) =
    let rest = crossings (ltb queue_alert_limit n) ns in
    if ltb queue_alert_limit n && not above then n ∷ rest else rest

abbrev IsPaced : SyncStatus → Type 0
IsPaced s = (base_interval_ms ≤ s.interval) × (s.interval ≤ max_interval_ms)

attempt_sync-IsPaced :
    (online returns : Bool) (s : SyncStatus) → IsPaced s → IsPaced (attempt_sync online returns s)
unfolding attempt_sync
attempt_sync-IsPaced false returns s h = h
attempt_sync-IsPaced true true s h = omega arith
attempt_sync-IsPaced true false s (low, high) = ground arith

status_step-IsPaced : (s : SyncStatus) (op : StatusOp) → IsPaced s → IsPaced (status_step s op)
unfolding status_step
status_step-IsPaced s (attempts online returns) h = attempt_sync-IsPaced online returns s h
status_step-IsPaced s (refreshes _ _) h = h
status_step-IsPaced s (polls _ _) h = unfold poll_stats in h
status_step-IsPaced s (goes_online online returns) h =
    attempt_sync-IsPaced online returns (record s { interval = base_interval_ms }) (omega arith)

run_status-IsPaced : (ops : List StatusOp) (s : SyncStatus) → IsPaced s → IsPaced (run_status s ops)
unfolding run_status
run_status-IsPaced [] s h = h
run_status-IsPaced (op ∷ ops) s h =
    run_status-IsPaced ops (status_step s op) (status_step-IsPaced s op h)

attempt_sync-shown :
    (online returns : Bool) (s : SyncStatus)
    → ((attempt_sync online returns s).shown ≡ s.shown)
      × ((attempt_sync online returns s).alerted ≡ s.alerted)
unfolding attempt_sync
attempt_sync-shown true returns s = (refl, refl)
attempt_sync-shown false returns s = (refl, refl)

above_limit : (n : ℕ) → (if leb n queue_alert_limit then false else true) ≡ ltb queue_alert_limit n
above_limit n = ground arith

run_status-shown :
    (ops : List StatusOp) (s : SyncStatus)
    → (run_status s ops).shown ≡ s.shown ++ crossings s.alerted (polled ops)
unfolding run_status status_step
run_status-shown [] s = sym (append-nil s.shown)
run_status-shown (attempts online returns ∷ ops) s =
    let (shown, alerted) = attempt_sync-shown online returns s in
    run_status-shown ops (attempt_sync online returns s) ∙ rw (shown, alerted) refl
run_status-shown (refreshes n e ∷ ops) s =
    run_status-shown ops (record s { pending = n; error = e })
run_status-shown (goes_online online returns ∷ ops) s =
    let (shown, alerted) =
      attempt_sync-shown online returns (record s { interval = base_interval_ms }) in
    run_status-shown ops (attempt_sync online returns (record s { interval = base_interval_ms }))
    ∙ rw (shown, alerted) refl
run_status-shown (polls n e ∷ ops) s =
    run_status-shown ops (poll_stats n e s)
    ∙ (unfold poll_stats in
        rw (above_limit n) (elim (Bool-cases (ltb queue_alert_limit n && not s.alerted)) [
          | inl told ↦
              rw told
                (append_assoc s.shown (n ∷ []) (crossings (ltb queue_alert_limit n) (polled ops)))
          | inr quiet ↦ rw quiet refl
        ]))

-- From the first state on, whatever happens, the interval after which the timer makes the next attempt
-- stays between 30 seconds and 5 minutes, and the cashier is told of exactly those polls that find more than 100 sales
-- waiting when the poll before them, if there was one, did not.
pub run_status_alerts :
    (ops : List StatusOp)
    → (base_interval_ms ≤ (run_status first_status ops).interval)
      × ((run_status first_status ops).interval ≤ max_interval_ms)
      × ((run_status first_status ops).shown ≡ crossings false (polled ops))
unfolding first_status
run_status_alerts ops =
    let (low, high) = run_status-IsPaced ops first_status (omega arith) in
    (low, high, run_status-shown ops first_status)
