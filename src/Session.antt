-- ===== src/Session.antt =====
-- The signed-in session: frontend/src/store/tokenStore.ts, frontend/src/api/client.ts and
-- frontend/src/store/useAuthStore.ts, over one state. Each operation takes the answers of the
-- requests it makes and runs alone; Overlap has requests that run at once and share
-- `_refreshPromise`. What reads or writes texts outside these files is the record `Texts`.
pub mod Client
pub mod Auth
pub mod Expiry
pub mod SignedIn
pub mod Overlap
use Prim.Native.String.{String}
use text.Mathlib.Text.{◌==◌ as str_eq}
use blend_pos.Prelude.{
  ℕ, ◌+◌, ◌-◌, ◌*◌, Option, none, some, List, [], ◌∷◌, ◌++◌, Bool, true, false, ltb, if◌then◌else◌,
}

pub data Rol : Type 0 where
  admin supervisor cajero : Rol

pub record User : Type 0 where
  pub id : String
  pub nombre : String
  pub email : String
  pub rol : Rol
  pub activo : Bool
  pub creado_en : ℕ
  pub punto_de_venta : Option ℕ

-- `payload.exp` of a token: the token is malformed, has none, or expires at a second
pub data Payload : Type 0 where
  malformed : Payload
  without_exp : Payload
  expires : ℕ → Payload

-- the delay that `setTimeout` is given
pub data Delay : Type 0 where
  not_a_number : Delay
  ms : ℕ → Delay

-- a request that was made: with its `Authorization`, or for a new token
pub data Call : Type 0 where
  fetched : Option String → Call
  refresh_asked : String → Call

pub record Texts : Type 0 where
  -- `JSON.parse(atob(token.split('.')[1]))`
  pub payload_of : String → Payload
  -- `s.includes('@')`
  pub has_at : String → Bool
  -- `btoa(JSON.stringify({ sub, rol, exp }))`
  pub fake_token : String → Rol → ℕ → String

-- The variables of the three files, with the page that is shown and the requests made so far.
pub record State : Type 0 where
  pub access_token : Option String
  pub refresh_token : Option String
  pub refresh_timer : Option Delay
  pub user : Option User
  pub is_authenticated : Bool
  pub must_change_password : Bool
  pub at_login : Bool
  pub calls : List Call

-- a text that counts as present: not `null` and not empty
unfoldable pub truthy : Option String → Option String
truthy none = none
truthy (some t) = if str_eq t "" then none else some t

-- `tokenStore.setTokens`
unfoldable pub set_tokens : String → String → State → State
set_tokens access refresh s = record s {
  access_token = some access;
  refresh_token = if str_eq refresh "" then s.refresh_token else some refresh;
}

-- `tokenStore.clearTokens`
unfoldable pub clear_tokens : State → State
clear_tokens s = record s { access_token = none; refresh_token = none }

-- `scheduleProactiveRefresh`, at the time `now`
unfoldable pub delay_until : Payload → ℕ → Option Delay
delay_until malformed now = none
delay_until without_exp now = some not_a_number
delay_until (expires exp) now =
    if ltb (now + 60_000) (exp * 1000) then some (ms (exp * 1000 - now - 60_000)) else none

unfoldable pub schedule_proactive_refresh : Texts → ℕ → String → State → State
schedule_proactive_refresh texts now token s = record s {
  refresh_timer = delay_until (texts.payload_of token) now;
}

unfoldable pub cancel_proactive_refresh : State → State
cancel_proactive_refresh s = record s { refresh_timer = none }

-- What a reload of the page keeps: `sessionStorage`, and `partialize` of the auth store.
unfoldable pub reload : Bool → State → State
reload login_page s = record s {
  access_token = none;
  refresh_timer = none;
  must_change_password = false;
  at_login = login_page;
}
