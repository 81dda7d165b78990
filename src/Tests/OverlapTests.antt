-- ===== src/Tests/OverlapTests.antt =====
-- Two requests that overlap and share one refresh.
use blend_pos.Prelude.{
  ℕ, ◌+◌, ◌≡◌, ◌≤◌, ◌<◌, refl, none, some, List, [], ◌∷◌, ◌++◌, true, false, length, get_elem?,
}
use blend_pos.Session.{Texts, State, malformed, truthy, set_tokens, schedule_proactive_refresh}
use blend_pos.Session.Client.{answered, Tokens, json, read_response}
use blend_pos.Session.Overlap.{
  NetEvent, begins, answers, settles, resumes, waits, ended, next_state, run_system, new_system,
  wake_one,
}
use blend_pos.Session.Overlap.Progress.{left_to_do, next_event_progress}
use blend_pos.Session.Overlap.Calls.{allowed, run_system_calls}

abbrev texts : Texts
texts = record { payload_of = λ _. malformed; has_at = λ _. false; fake_token = λ _ _ _. "t" }

abbrev session : State
session = record {
  access_token = some "old";
  refresh_token = some "r1";
  refresh_timer = none;
  user = none;
  is_authenticated = true;
  must_change_password = false;
  at_login = false;
  calls = [];
}

abbrev both_refused : List (NetEvent ℕ)
both_refused = begins ∷ begins ∷ answers 0 (answered 401 0) ∷ answers 1 (answered 401 0) ∷ []

abbrev new_tokens : Tokens
new_tokens = record { access = "new"; refresh = "r2" }

abbrev to_the_end : List (NetEvent ℕ)
to_the_end =
    both_refused
    ++ (settles (some new_tokens)
        ∷ resumes 1
        ∷ resumes 0
        ∷ answers 0 (answered 200 7)
        ∷ answers 1 (answered 200 8)
        ∷ [])

first_waits :
    get_elem? (run_system texts 1000 (new_system session) both_refused).requests 0 ≡ some waits
unfolding run_system new_system truthy
first_waits = refl

both_end :
    (run_system texts 1000 (new_system session) to_the_end).requests
    ≡ ended (json 7) ∷ ended (json 8) ∷ []
unfolding run_system new_system truthy wake_one read_response schedule_proactive_refresh set_tokens
both_end = refl

five_calls : length (run_system texts 1000 (new_system session) to_the_end).session.calls ≡ 5
unfolding run_system new_system truthy wake_one read_response schedule_proactive_refresh set_tokens
five_calls = refl

next_event_progress_example :
    left_to_do (
      next_state texts 1000
        (run_system texts 1000 (new_system session) both_refused)
        (settles (some new_tokens)))
    < left_to_do (run_system texts 1000 (new_system session) both_refused)
next_event_progress_example =
    next_event_progress texts 1000 session both_refused 0 waits (answered 200 7) (some new_tokens)
      first_waits refl

run_system_calls_example :
    length (run_system texts 1000 (new_system session) to_the_end).session.calls
    ≤ length session.calls + allowed to_the_end
run_system_calls_example = run_system_calls texts 1000 session to_the_end
