-- ===== src/Session/Auth.antt =====
-- frontend/src/store/useAuthStore.ts, with the answers of frontend/src/services/api/auth.ts.
use Prim.Native.String.{String}
use text.Mathlib.Text.{◌==◌ as str_eq}
use blend_pos.Prelude.{
  ℕ, ◌+◌, Option, none, some, List, Bool, true, false, ◌||◌, ◌&&◌, not, any, find, get_or, is_some,
  if◌then◌else◌,
}
use blend_pos.Session.{
  Texts, State, User, Rol, admin, supervisor, cajero, truthy, set_tokens, clear_tokens,
  schedule_proactive_refresh, cancel_proactive_refresh,
}
use blend_pos.Session.Client.{Network, request}

pub record UsuarioResponse : Type 0 where
  pub id : String
  pub nombre : String
  pub rol : String
  pub punto_de_venta : Option ℕ

pub record LoginResponse : Type 0 where
  pub access_token : String
  pub refresh_token : String
  pub user : UsuarioResponse
  pub must_change_password : Option Bool

pub record DemoUser : Type 0 where
  pub user : User
  pub username : String
  pub password : String

-- `mapRol`
unfoldable pub map_rol : String → Rol
map_rol r =
    if str_eq r "administrador" then admin else if str_eq r "supervisor" then supervisor else cajero

abbrev pub same_rol : Rol → Rol → Bool
same_rol admin admin = true
same_rol supervisor supervisor = true
same_rol cajero cajero = true
same_rol _ _ = false

unfoldable pub login_user : Texts → ℕ → String → UsuarioResponse → User
login_user texts now name u = record {
  id = u.id;
  nombre = u.nombre;
  email = if texts.has_at name then name else "";
  rol = map_rol u.rol;
  activo = true;
  creado_en = now;
  punto_de_venta = u.punto_de_venta;
}

unfoldable pub refresh_user : ℕ → UsuarioResponse → User
refresh_user now u = record {
  id = u.id;
  nombre = u.nombre;
  email = "";
  rol = map_rol u.rol;
  activo = true;
  creado_en = now;
  punto_de_venta = none;
}

abbrev pub signed_in : User → State → State
signed_in u s = record s { user = some u; is_authenticated = true }

abbrev pub signed_out : State → State
signed_out s = record s { user = none; is_authenticated = false }

abbrev pub is_demo : String → String → DemoUser → Bool
is_demo name password u =
    (str_eq u.user.email name || str_eq u.username name)
    && str_eq u.password password
    && u.user.activo

-- `login` with a backend. The answers of `loginApi` and `refreshApi` are arguments: what `request`
-- itself does on their way is in Session/Client. `none` is a request that failed.
unfoldable pub login_backend : Texts → ℕ → String → Option LoginResponse → State → State × Bool
login_backend texts now name none s = (s, false)
login_backend texts now name (some r) s =
    let held = set_tokens r.access_token r.refresh_token s in
    let timed = schedule_proactive_refresh texts now r.access_token held in
    (
      record (signed_in (login_user texts now name r.user) timed) {
        must_change_password = get_or r.must_change_password false;
      },
      true,
    )

-- `login` without one: `DEMO_USERS`, at development only
unfoldable pub login_demo :
    Texts → ℕ → Bool → List DemoUser → String → String → State → State × Bool
login_demo texts now dev demo name password s =
    if not dev then (s, false) else elim (find (is_demo name password) demo) [
      | none ↦ (s, false)
      | some u ↦
          let token = texts.fake_token u.user.id u.user.rol (now + 28_800_000) in
          (signed_in u.user (set_tokens token "" s), true)
    ]

-- The request of `logout` is made if there is a token, and its end is ignored.
unfoldable pub logout : {A : Type 0} → Texts → Network A → State → State
logout texts net s =
    let asked = if is_some (truthy s.access_token) then (request texts net s).0 else s in
    record (signed_out (clear_tokens (cancel_proactive_refresh asked))) {
      must_change_password = false;
    }

-- `refresh`, with what `refreshApi` answers (`none`: it throws)
unfoldable pub refresh : Texts → ℕ → (String → Option LoginResponse) → State → State × Bool
refresh texts now api s = elim (truthy s.refresh_token) [
  | none ↦ (s, false)
  | some t ↦ elim (api t) [
    | none ↦ (signed_out (clear_tokens (cancel_proactive_refresh s)), false)
    | some r ↦
        let held = set_tokens r.access_token r.refresh_token s in
        let timed = schedule_proactive_refresh texts now r.access_token held in
        (signed_in (refresh_user now r.user) timed, true)
  ]
]

unfoldable pub init_auth : Texts → ℕ → (String → Option LoginResponse) → State → State
init_auth texts now api s = if not s.is_authenticated then s else elim (truthy s.access_token) [
  | some _ ↦ s
  | none ↦
      let (after, ok) = refresh texts now api s in
      if ok then after else signed_out (clear_tokens after)
]

unfoldable pub has_role : List Rol → State → Bool
has_role roles s = elim s.user [ none ↦ false | some u ↦ any (same_rol u.rol) roles ]

unfoldable pub clear_must_change_password : State → State
clear_must_change_password s = record s { must_change_password = false }
