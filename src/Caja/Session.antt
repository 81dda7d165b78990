-- ===== src/Caja/Session.antt =====
-- The session fields of frontend/src/store/useCajaStore.ts stay together, in every interleaving.
use blend_pos.Prelude.{◌≡◌, ◌⊎◌, none, some, List, [], ◌∷◌, ◌++◌}
use blend_pos.Caja.{
  CajaState, Reporte, fulfilled, CajaEvent, opened, stored_checked, activa_checked,
}

module _ {W : Type 0} where
  -- no field of a session is left
  unfoldable pub HasNone : CajaState W → Type 0
  HasNone s =
      (s.sesion_id ≡ none)
      × (s.punto_de_venta ≡ none)
      × (s.monto_inicial ≡ none)
      × (s.abierta_en ≡ none)
      × (s.usuario_nombre ≡ none)

  -- The fields are those of one report.
  unfoldable pub HasAll : Reporte W → CajaState W → Type 0
  HasAll r s =
      (s.sesion_id ≡ some r.sesion_caja_id)
      × (s.punto_de_venta ≡ some r.punto_de_venta)
      × (s.monto_inicial ≡ some r.monto_inicial)
      × (s.abierta_en ≡ some r.opened_at)
      × (s.usuario_nombre ≡ some r.usuario)

  -- the reports of sessions that an event brings
  unfoldable pub reports_of : CajaEvent W → List (Reporte W)
  reports_of (opened (fulfilled r)) = r ∷ []
  reports_of (stored_checked (fulfilled r)) = r ∷ []
  reports_of (activa_checked (fulfilled r)) = r ∷ []
  reports_of _ = []

  unfoldable pub all_reports : List (CajaEvent W) → List (Reporte W)
  unfolding reports_of
  all_reports [] = []
  all_reports (e ∷ es) = reports_of e ++ all_reports es

  abbrev pub Among : Reporte W → List (Reporte W) → Type 0
  Among r [] = ⊥
  Among r (q ∷ qs) = (r ≡ q) ⊎ Among r qs

  -- no session, or that of one report that satisfies `P`
  unfoldable pub IsWhole : (Reporte W → Type 0) → CajaState W → Type 0
  IsWhole P s = HasNone s ⊎ ((r : Reporte W) × P r × HasAll r s)
