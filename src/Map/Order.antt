-- ===== src/Map/Order.antt =====
-- The order of the keys in a `std::map`.
use two_phase_commit_protoco.Base.{
  ◌≡◌, refl, inl, inr, true, false, none, [], ◌∷◌, ◌++◌, arith, All, Bool-cases,
}
use two_phase_commit_protoco.Base.Int.{ℤ, pos, negsuc, eqb_ℤ, eqb_ℤ_iff, ltb_ℤ, ◌<ℤ◌}
use two_phase_commit_protoco.Map.{Map, find, put}

lt_of_test : (k i : ℤ) → ltb_ℤ k i ≡ true → k <ℤ i
lt_of_test k i h = ground arith

eq_of_tests : (i k : ℤ) → eqb_ℤ i k ≡ false → ltb_ℤ k i ≡ false → i <ℤ k
eq_of_tests (pos i) (pos k) h g = ground arith
eq_of_tests (pos i) (negsuc k) h g = ground arith
eq_of_tests (negsuc i) (pos k) h g = ground arith
eq_of_tests (negsuc i) (negsuc k) h g = ground arith

not_eq_of_lt : (i k : ℤ) → i <ℤ k → eqb_ℤ i k ≡ false
not_eq_of_lt (pos i) (pos k) h = ground arith
not_eq_of_lt (pos i) (negsuc k) h = refl
not_eq_of_lt (negsuc i) (pos k) h = refl
not_eq_of_lt (negsuc i) (negsuc k) h = ground arith

not_lt_of_lt : (i k : ℤ) → i <ℤ k → ltb_ℤ k i ≡ false
not_lt_of_lt i k h = ground arith

module _ {ℓ} {V : Type ℓ} where
  -- All keys are above `k`; the keys rise.
  abbrev pub Above : ℤ → Map V → Type 0
  Above k [] = Unit
  Above k (e ∷ m) = (k <ℤ e.0) × Above k m

  abbrev pub IsSorted : Map V → Type 0
  IsSorted [] = Unit
  IsSorted (e ∷ m) = Above e.0 m × IsSorted m

  Above-put : (j k : ℤ) (v : V) (m : Map V) → j <ℤ k → Above j m → Above j (put k v m)
  unfolding put
  Above-put j k v [] lt h = (lt, tt)
  Above-put j k v (e ∷ m) lt (h, hs) = ground (arith, Above-put j k v m lt hs)

  Above-trans : (j k : ℤ) (m : Map V) → j <ℤ k → Above k m → Above j m
  Above-trans j k [] lt h = tt
  Above-trans j k (e ∷ m) lt (h, hs) = (omega arith, Above-trans j k m lt hs)

  -- `m[k] = v` keeps the order.
  pub put-IsSorted : (k : ℤ) (v : V) (m : Map V) → IsSorted m → IsSorted (put k v m)
  unfolding put
  put-IsSorted k v [] h = (tt, tt)
  put-IsSorted k v ((i, w) ∷ m) (h, hs) = elim (Bool-cases (eqb_ℤ i k)) [
    | inl e ↦ rw e (rw ((eqb_ℤ_iff i k).0 e) at h, hs)
    | inr e ↦ elim (Bool-cases (ltb_ℤ k i)) [
      | inl lt ↦
          rw (e, lt)
            (let below = lt_of_test k i lt in ((below, Above-trans k i m below h), (h, hs)))
      | inr ge ↦ rw (e, ge) (Above-put i k v m (eq_of_tests i k e ge) h, put-IsSorted k v m hs)
    ]
  ]

  -- A key above all others goes to the end, and is not found before.
  pub put_last :
      (k : ℤ) (v : V) (m : Map V)
      → All (λ e. e.0 <ℤ k) m
      → (put k v m ≡ m ++ (k, v) ∷ []) × (find k m ≡ none)
  unfolding put find
  put_last k v [] h = (refl, refl)
  put_last k v ((i, w) ∷ m) (lt, h) =
      let ne = not_eq_of_lt i k lt in
      let ge = not_lt_of_lt i k lt in
      let (last, absent) = put_last k v m h in (rw (ne, ge, last), rw (ne, absent))
