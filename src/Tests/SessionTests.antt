-- ===== src/Tests/SessionTests.antt =====
-- The cash session and the signed-in session at concrete answers of the backend.
use mathlib.Core.Option.{some-injective}
use blend_pos.Prelude.{ℕ, ◌≡◌, refl, none, some, List, [], ◌∷◌, ◌++◌, true, false}
use blend_pos.Caja.{
  CajaState, Reporte, Reply, CajaEvent, started, opened, recargado, reloaded, fulfilled, rejected,
  an_error, abierta, cerrada, EstadoCaja, restaurar, get_caja_activa, restaurar_reporte,
  restaurar_activa, without_session,
}
use blend_pos.Session.{Texts, State, truthy, malformed, reload, fetched, User, cajero}
use blend_pos.Session.Client.{
  Network, answered, unauthorized, request, request_again, after_401, refresh_access_token,
}
use blend_pos.Session.Auth.{LoginResponse, init_auth, login_backend}
use blend_pos.Session.Expiry.{
  IsAfterRefresh, request_calls, IsGivenUp, GivesTokens, request-IsGivenUp,
}
use blend_pos.Session.SignedIn.{
  Op, mounts, requests, reloads, logs_out, run_ops, IsCoherent, run_ops-IsCoherent,
  expired_session_signed_out, password_change_skipped,
}

abbrev reporte : EstadoCaja → Reporte ℕ
reporte e = record {
  sesion_caja_id = 3;
  punto_de_venta = 1;
  usuario = "Ana";
  monto_inicial = 500;
  estado = e;
  opened_at = "08:00";
}

abbrev events : List (CajaEvent ℕ)
events =
    started
    ∷ opened (fulfilled (reporte abierta))
    ∷ started
    ∷ recargado (rejected (an_error "red"))
    ∷ reloaded
    ∷ []

abbrev stored : CajaState ℕ
stored = record {
  sesion_id = some 3;
  punto_de_venta = some 1;
  estado = some abierta;
  monto_inicial = some 500;
  abierta_en = some "08:00";
  usuario_nombre = some "Ana";
  loading = false;
  error = none;
}

abbrev closed_there : ℕ → Reply (Reporte ℕ)
closed_there _ = fulfilled (reporte cerrada)

abbrev no_other : Reply (Reporte ℕ)
no_other = rejected (an_error "404")

lost : (restaurar true closed_there no_other stored).sesion_id ≡ none
unfolding restaurar restaurar_reporte restaurar_activa get_caja_activa without_session
lost = refl

abbrev texts : Texts
texts = record { payload_of = λ _. malformed; has_at = λ _. false; fake_token = λ _ _ _. "t" }

-- a backend that refuses every request and grants one new token
abbrev refusing : Network ℕ
refusing = record {
  fetch = λ _ _. answered 401 0;
  refresh = λ _. some (record { access = "new"; refresh = "r2" });
  now = 1000;
}

abbrev ana : User
ana = record {
  id = "u3";
  nombre = "Ana";
  email = "";
  rol = cajero;
  activo = true;
  creado_en = 10;
  punto_de_venta = some 1;
}

abbrev signed_in_state : State
signed_in_state = record {
  access_token = some "old";
  refresh_token = some "r1";
  refresh_timer = none;
  user = some ana;
  is_authenticated = true;
  must_change_password = false;
  at_login = false;
  calls = [];
}

held : truthy signed_in_state.access_token ≡ some "old"
unfolding truthy
held = refl

gives : GivesTokens refusing
unfolding GivesTokens truthy
gives r t e = rw (← some-injective _ _ e) refl

refused : (request texts refusing signed_in_state).1 ≡ unauthorized
unfolding request request_again after_401 refresh_access_token truthy
refused = refl

request_calls_example :
    IsAfterRefresh texts refusing
      (record signed_in_state { calls = [] ++ (fetched (truthy (some "old")) ∷ []) })
      (request texts refusing signed_in_state).0.calls
request_calls_example = request_calls texts refusing signed_in_state

request-IsGivenUp_example : IsGivenUp (request texts refusing signed_in_state).0
request-IsGivenUp_example =
    request-IsGivenUp texts refusing signed_in_state "old" held gives refused

abbrev day : List (Op ℕ)
day = requests refusing ∷ reloads false ∷ mounts 2000 (λ _. none) ∷ logs_out refusing ∷ []

coherent : IsCoherent signed_in_state
unfolding IsCoherent
coherent = refl

run_ops-IsCoherent_example : IsCoherent (run_ops texts day signed_in_state)
run_ops-IsCoherent_example = run_ops-IsCoherent texts day signed_in_state coherent

expired_session_signed_out_example :
    (init_auth texts 2000
      (λ _. none)
      (reload false (request texts refusing signed_in_state).0)).is_authenticated
    ≡ false
expired_session_signed_out_example =
    expired_session_signed_out texts refusing signed_in_state "old" 2000 (λ _. none) false held
      gives refused

abbrev first_login : LoginResponse
first_login = record {
  access_token = "a1";
  refresh_token = "r1";
  user = record { id = "u3"; nombre = "Ana"; rol = "cajero"; punto_de_venta = some 1 };
  must_change_password = some true;
}

password_change_skipped_example :
    let logged_in = (login_backend texts 10 "ana" (some first_login) signed_in_state).0 in
    let after = init_auth texts 20 (λ _. some first_login) (reload false logged_in) in
    (logged_in.must_change_password ≡ true)
    × (after.is_authenticated ≡ true)
    × (after.must_change_password ≡ false)
password_change_skipped_example =
    password_change_skipped texts 10 20 "ana" first_login first_login signed_in_state false refl
      refl
