-- ===== src/Offline/JsMap.antt =====
-- A JavaScript `Map` with numbers for keys: entries in the order of first insertion.
use mathlib.Core.Path.{subst₂}
use mathlib.Core.Option.{some-injective}
use blend_pos.Prelude.{
  ℕ, ◌≡◌, Option, none, some, List, [], ◌∷◌, arith, ◌==◌, if◌then◌else◌, All, includes, ==_iff,
  Bool-cases, inl, inr, sym, ◌||◌,
}

abbrev pub JsMap {ℓ} : Type ℓ → Type ℓ
JsMap V = List (ℕ × V)

module _ {ℓ} {V : Type ℓ} where
  unfoldable pub put : ℕ → V → JsMap V → JsMap V
  put k v [] = (k, v) ∷ []
  put k v (e ∷ m) = if k == e.0 then (k, v) ∷ m else e ∷ put k v m

  unfoldable pub get : ℕ → JsMap V → Option V
  get k [] = none
  get k (e ∷ m) = if k == e.0 then some e.1 else get k m

  unfoldable pub keys : JsMap V → List ℕ
  keys [] = []
  keys (e ∷ m) = e.0 ∷ keys m

  pub includes-keys-put :
      (j k : ℕ) (v : V) (m : JsMap V)
      → includes j (keys (put k v m)) ≡ ((k == j) || includes j (keys m))
  unfolding keys put
  includes-keys-put j k v [] = ground arith
  includes-keys-put j k v (e ∷ m) = ground (arith, includes-keys-put j k v m)

  module _ {κ} (P : ℕ → V → Type κ) where
    abbrev pub Entries : JsMap V → Type κ
    Entries = All λ e. P e.0 e.1

    pub put-Entries : (k : ℕ) (v : V) (m : JsMap V) → P k v → Entries m → Entries (put k v m)
    unfolding put
    put-Entries k v [] p h = (p, tt)
    put-Entries k v (e ∷ m) p (h, hs) = let rest = put-Entries k v m p hs in ground arith

    pub get-Entries : (k : ℕ) (m : JsMap V) {v : V} → Entries m → get k m ≡ some v → P k v
    unfolding get
    get-Entries k [] h e = cc
    get-Entries k (x ∷ m) {v = v} (h, hs) e = elim (Bool-cases (k == x.0)) [
      | inl same ↦
          let found : some x.1 ≡ some v = rw same at e in
          subst₂ P (sym ((==_iff k x.0).0 same)) (some-injective _ _ found) h
      | inr other ↦ get-Entries k m hs (rw other at e)
    ]
