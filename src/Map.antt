-- ===== src/Map.antt =====
-- `std::map<int, V>` as the list of its entries in the order of the keys.
pub mod Laws
pub mod Order
use two_phase_commit_protoco.Base.{
  Bool, true, false, Option, none, some, List, [], ◌∷◌, if◌then◌else◌,
}
use two_phase_commit_protoco.Base.Int.{ℤ, eqb_ℤ, ltb_ℤ}

abbrev pub Map {ℓ} : Type ℓ → Type ℓ
Map V = List (ℤ × V)

module _ {ℓ} {V : Type ℓ} where
  -- `m.find(k)`; `none` is `m.end()`.
  unfoldable pub find : ℤ → Map V → Option V
  find k [] = none
  find k ((j, v) ∷ m) = if eqb_ℤ j k then some v else find k m

  -- `m[k] = v`.
  unfoldable pub put : ℤ → V → Map V → Map V
  put k v [] = (k, v) ∷ []
  put k v ((j, w) ∷ m) =
      if eqb_ℤ j k
      then (k, v) ∷ m
      else if ltb_ℤ k j
      then (k, v) ∷ (j, w) ∷ m
      else (j, w) ∷ put k v m

  -- `m.insert({k, v})`, which leaves an entry that is there.
  unfoldable pub insert : ℤ → V → Map V → Map V
  unfolding find put
  insert k v m = elim (find k m) [ none ↦ put k v m | some _ ↦ m ]
