-- ===== src/Caja/Restore.antt =====
-- `restaurar` of frontend/src/store/useCajaStore.ts against what the backend says of the sessions.
use blend_pos.Prelude.{
  ℕ, ◌≡◌, refl, inl, inr, Option, none, some, Bool, true, false, Bool-cases, Option-cases,
  if◌then◌else◌, arith,
}
use blend_pos.Caja.{
  CajaState, Reporte, Reply, Thrown, fulfilled, rejected, restaurar, restaurar_reporte,
  restaurar_activa, with_session, get_caja_activa, is_abierta, limpiar,
}

module _ {W : Type 0} where
  -- a specification: the session that the store should hold, as the backend knows it
  unfoldable pub session_of :
      (ℕ → Option (Reporte W)) → Option (Reporte W) → Option ℕ → Option (Reporte W)
  session_of known active none = active
  session_of known active (some id) = elim (known id) [
    | none ↦ active
    | some r ↦ if is_abierta r.estado then some r else active
  ]

  unfoldable pub put_session : Option (Reporte W) → CajaState W → CajaState W
  put_session none s = limpiar s
  put_session (some r) s = record (with_session r s) { error = none }

  -- The request for the active session answers with it, and is rejected when there is none.
  unfoldable pub Says : Option (Reporte W) → Reply (Reporte W) → Type 0
  Says (some r) activa = activa ≡ fulfilled r
  Says none activa = (err : Thrown) × (activa ≡ rejected err)

  -- what the backend answers: it knows each stored session
  unfoldable pub Answers :
      (ℕ → Option (Reporte W))
      → Option (Reporte W)
      → (ℕ → Reply (Reporte W))
      → Reply (Reporte W)
      → Type 0
  Answers known active reporte activa =
      ((id : ℕ) → (r : Reporte W) × (reporte id ≡ fulfilled r) × (known id ≡ some r))
      × Says active activa

  -- no session at the end: the stored one was closed, and no other found
  dropped :
      (a : Reply (Reporte W)) (o : Option (Reporte W)) (s : CajaState W) (id : ℕ)
      → s.sesion_id ≡ some id
      → (if (restaurar_reporte a s).1
          then restaurar_activa o (restaurar_reporte a s).0
          else (restaurar_reporte a s).0).sesion_id
        ≡ none
      → ((r : Reporte W) × (a ≡ fulfilled r) × (is_abierta r.estado ≡ false)) × (o ≡ none)
  unfolding restaurar_reporte restaurar_activa with_session
  dropped (rejected _) o s id stored lost = ground (arith, stored, lost)
  dropped (fulfilled r) o s id stored lost = elim (Bool-cases (is_abierta r.estado)) [
    | inl open_there ↦ let e = rw open_there at lost in ground (arith, e)
    | inr closed_there ↦ elim (Option-cases o) [
      | inl no_other ↦ ((r, refl, closed_there), no_other)
      | inr (other, found) ↦ let e = rw (closed_there, found) at lost in ground (arith, e)
    ]
  ]

  -- The stored session is lost only online, when the backend has answered that it is closed and
  -- `getCajaActiva` has returned no session.
  pub restaurar_drops :
      (online : Bool) (reporte : ℕ → Reply (Reporte W)) (activa : Reply (Reporte W))
      (s : CajaState W) (id : ℕ)
      → s.sesion_id ≡ some id
      → (restaurar online reporte activa s).sesion_id ≡ none
      → (online ≡ true)
        × ((r : Reporte W) × (reporte id ≡ fulfilled r) × (is_abierta r.estado ≡ false))
        × (get_caja_activa activa ≡ none)
  unfolding restaurar
  restaurar_drops false reporte activa s id stored lost = ground (arith, stored, lost)
  restaurar_drops true reporte activa s id stored lost =
      let e = rw stored at lost in
      let (why, none_active) = dropped (reporte id) (get_caja_activa activa) s id stored e in
      (refl, why, none_active)
