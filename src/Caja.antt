-- ===== src/Caja.antt =====
-- frontend/src/store/useCajaStore.ts: the cash session that this terminal works in, with the calls of
-- frontend/src/services/api/caja.ts that it makes. A promise that an action waits for is a `Reply`;
-- each action is the part up to its first `await` (`start`) and what it does with the answer, so
-- that a list of events can interleave them. Identifiers are naturals, amounts of a type `W`.
pub mod Session
pub mod Restore
use Prim.Native.String.{String}
use blend_pos.Prelude.{
  ℕ, Option, none, some, List, [], ◌∷◌, Bool, true, false, not, ◌&&◌, if◌then◌else◌,
}

pub data EstadoCaja : Type 0 where
  abierta cerrada : EstadoCaja

-- the fields of `ReporteCajaResponse` that the store reads
pub record Reporte (W : Type 0) : Type 0 where
  pub sesion_caja_id : ℕ
  pub punto_de_venta : ℕ
  pub usuario : String
  pub monto_inicial : W
  pub estado : EstadoCaja
  pub opened_at : String

pub record CajaState (W : Type 0) : Type 0 where
  pub sesion_id : Option ℕ
  pub punto_de_venta : Option ℕ
  pub estado : Option EstadoCaja
  pub monto_inicial : Option W
  pub abierta_en : Option String
  pub usuario_nombre : Option String
  pub loading : Bool
  pub error : Option String

-- What is thrown: an `Error` with its message, or something else.
pub data Thrown : Type 0 where
  an_error : String → Thrown
  no_error : Thrown

pub data Reply {ℓ} (A : Type ℓ) : Type ℓ where
  fulfilled : A → Reply A
  rejected : Thrown → Reply A

-- `err instanceof Error ? err.message : …`
abbrev pub message_or : Thrown → String → String
message_or (an_error m) _ = m
message_or no_error m = m

-- the answer of `getCajaActiva`: every failure counts as the absence of a session
unfoldable pub get_caja_activa {ℓ} : {A : Type ℓ} → Reply A → Option A
get_caja_activa (fulfilled r) = some r
get_caja_activa (rejected _) = none

abbrev pub is_abierta : EstadoCaja → Bool
is_abierta abierta = true
is_abierta cerrada = false

module _ {W : Type 0} where
  unfoldable pub initial : CajaState W
  initial = record {
    sesion_id = none;
    punto_de_venta = none;
    estado = none;
    monto_inicial = none;
    abierta_en = none;
    usuario_nombre = none;
    loading = false;
    error = none;
  }

  -- `set({ loading: true, error: null })`, the start of most actions
  unfoldable pub start : CajaState W → CajaState W
  start s = record s { loading = true; error = none }

  unfoldable pub fail : String → Thrown → CajaState W → CajaState W
  fail text err s = record s { loading = false; error = some (message_or err text) }

  -- the fields of the session, from a report
  unfoldable pub with_session : Reporte W → CajaState W → CajaState W
  with_session r s = record s {
    sesion_id = some r.sesion_caja_id;
    punto_de_venta = some r.punto_de_venta;
    estado = some abierta;
    monto_inicial = some r.monto_inicial;
    abierta_en = some r.opened_at;
    usuario_nombre = some r.usuario;
  }

  unfoldable pub without_session : Option EstadoCaja → CajaState W → CajaState W
  without_session e s = record s {
    sesion_id = none;
    punto_de_venta = none;
    estado = e;
    monto_inicial = none;
    abierta_en = none;
    usuario_nombre = none;
  }

  unfoldable pub abrir : Reply (Reporte W) → CajaState W → CajaState W
  abrir (fulfilled r) s = record (with_session r s) { loading = false }
  abrir (rejected err) s = fail "Error al abrir la caja" err s

  unfoldable pub cerrar : Reply {0} Unit → CajaState W → CajaState W
  cerrar (fulfilled _) s = record (without_session (some cerrada) s) { loading = false }
  cerrar (rejected err) s = fail "Error al cerrar la caja" err s

  unfoldable pub movimiento : Reply {0} Unit → CajaState W → CajaState W
  movimiento (fulfilled _) s = record s { loading = false }
  movimiento (rejected err) s = fail "Error al registrar movimiento" err s

  -- Without a session nothing is asked: `start` is not taken either.
  unfoldable pub recargar_start : CajaState W → CajaState W
  recargar_start s = elim s.sesion_id [ none ↦ s | some _ ↦ start s ]

  unfoldable pub recargar_reporte : Reply (Reporte W) → CajaState W → CajaState W
  recargar_reporte (fulfilled r) s = record s { estado = some r.estado; loading = false }
  recargar_reporte (rejected err) s = fail "Error al recargar reporte" err s

  unfoldable pub limpiar : CajaState W → CajaState W
  limpiar s = record (without_session none s) { error = none }

  -- the end of `restaurar`, with the answer of `getCajaActiva`
  unfoldable pub restaurar_activa : Option (Reporte W) → CajaState W → CajaState W
  restaurar_activa (some r) s = record (with_session r s) { error = none }
  restaurar_activa none s = record (without_session none s) { error = none }

  -- The answer to the report of the stored session. `true`: `getCajaActiva` is asked next.
  unfoldable pub restaurar_reporte : Reply (Reporte W) → CajaState W → CajaState W × Bool
  restaurar_reporte (rejected _) s = (s, false)
  restaurar_reporte (fulfilled r) s =
      if is_abierta r.estado then (record (with_session r s) { error = none }, false) else (s, true)

  -- `restaurar`, when nothing else happens while it waits: `online` is `navigator.onLine`,
  -- `reporte` answers `getReporteCaja` and `activa` the request of `getCajaActiva`
  unfoldable pub restaurar :
      Bool → (ℕ → Reply (Reporte W)) → Reply (Reporte W) → CajaState W → CajaState W
  restaurar online reporte activa s = if not online then s else elim s.sesion_id [
    | none ↦ restaurar_activa (get_caja_activa activa) s
    | some id ↦
        let (after, more) = restaurar_reporte (reporte id) s in
        if more then restaurar_activa (get_caja_activa activa) after else after
  ]

  -- What a reload of the page keeps: `partialize`, merged into the initial state.
  unfoldable pub reload : CajaState W → CajaState W
  reload s = record s { loading = false; error = none }

-- one step of the store: an action starts, or an answer arrives
pub data CajaEvent (W : Type 0) : Type 0 where
  started : CajaEvent W
  opened : Reply (Reporte W) → CajaEvent W
  closed : Reply {0} Unit → CajaEvent W
  moved : Reply {0} Unit → CajaEvent W
  recarga_started : CajaEvent W
  recargado : Reply (Reporte W) → CajaEvent W
  cleared : CajaEvent W
  stored_checked : Reply (Reporte W) → CajaEvent W
  activa_checked : Reply (Reporte W) → CajaEvent W
  reloaded : CajaEvent W

module _ {W : Type 0} where
  unfoldable pub step : CajaEvent W → CajaState W → CajaState W
  step started s = start s
  step (opened r) s = abrir r s
  step (closed r) s = cerrar r s
  step (moved r) s = movimiento r s
  step recarga_started s = recargar_start s
  step (recargado r) s = recargar_reporte r s
  step cleared s = limpiar s
  step (stored_checked r) s = (restaurar_reporte r s).0
  step (activa_checked r) s = restaurar_activa (get_caja_activa r) s
  step reloaded s = reload s

  unfoldable pub run_events : List (CajaEvent W) → CajaState W → CajaState W
  run_events [] s = s
  run_events (e ∷ es) s = run_events es (step e s)
