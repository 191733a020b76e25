-- ===== src/Base/Lists.antt =====
-- Lists measured and indexed by native numbers, under the library's names.
use Prim.Native.Nat.{◌<◌, ℕ, zero, suc, ◌+◌, ◌-◌, ◌≤◌}
use mathlib.Core.Path.{◌≡◌, refl, ap, ◌∙◌}
use mathlib.Core.Logic.{◌⊎◌, inl, inr}
use mathlib.Core.List.{List, [], ◌∷◌, ◌++◌, map}
use mathlib.Core.Option.{Option, none, some}
use native.Mathlib.Omega.{arith}

sub_zero : (n : ℕ) → n - 0 ≡ n
sub_zero n = omega arith

sub_suc : (n k : ℕ) → suc n - suc k ≡ n - k
sub_suc n k = omega arith

module _ {ℓ} {A : Type ℓ} where
  abbrev pub length : List A → ℕ
  length [] = 0
  length (x ∷ xs) = suc (length xs)

  abbrev pub get_elem? : List A → ℕ → Option A
  get_elem? [] i = none
  get_elem? (x ∷ xs) zero = some x
  get_elem? (x ∷ xs) (suc i) = get_elem? xs i

  abbrev pub take : ℕ → List A → List A
  take zero xs = []
  take (suc n) [] = []
  take (suc n) (x ∷ xs) = x ∷ take n xs

  abbrev pub drop : ℕ → List A → List A
  drop zero xs = xs
  drop (suc n) [] = []
  drop (suc n) (x ∷ xs) = drop n xs

  pub take-drop : (n : ℕ) (xs : List A) → take n xs ++ drop n xs ≡ xs
  take-drop zero xs = refl
  take-drop (suc n) [] = refl
  take-drop (suc n) (x ∷ xs) = ap (λ l. x ∷ l) (take-drop n xs)

  pub length-drop : (n : ℕ) (xs : List A) → length (drop n xs) ≡ length xs - n
  length-drop zero xs = omega arith
  length-drop (suc n) [] = omega arith
  length-drop (suc n) (x ∷ xs) = omega (arith, length-drop n xs)

  pub take_nil : (n : ℕ) → ◌≡◌ {A = List A} (take n []) []
  take_nil zero = refl
  take_nil (suc n) = refl

  drop_nil : (n : ℕ) → ◌≡◌ {A = List A} (drop n []) []
  drop_nil zero = refl
  drop_nil (suc n) = refl

  -- The first `n` entries, in two parts; and what follows them.
  pub take-split :
      (k n : ℕ) (xs : List A) → k ≤ n → take k xs ++ take (n - k) (drop k xs) ≡ take n xs
  take-split zero n xs h = ap (λ j. take j xs) (sub_zero n)
  take-split (suc k) zero xs h = absurd (omega arith)
  take-split (suc k) (suc n) [] h = take_nil (suc n - suc k)
  take-split (suc k) (suc n) (x ∷ xs) h =
      ap (λ j. x ∷ (take k xs ++ take j (drop k xs))) (sub_suc n k)
      ∙ ap (λ l. x ∷ l) (take-split k n xs (omega arith))

  pub drop-split : (k n : ℕ) (xs : List A) → k ≤ n → drop (n - k) (drop k xs) ≡ drop n xs
  drop-split zero n xs h = ap (λ j. drop j xs) (sub_zero n)
  drop-split (suc k) zero xs h = absurd (omega arith)
  drop-split (suc k) (suc n) [] h = drop_nil (suc n - suc k)
  drop-split (suc k) (suc n) (x ∷ xs) h =
      ap (λ j. drop j (drop k xs)) (sub_suc n k) ∙ drop-split k n xs (omega arith)

  -- The front of two lists ends in the first one, or goes on into the second.
  pub take-append-cases :
      (k : ℕ) (xs ys : List A)
      → (take k (xs ++ ys) ≡ take k xs) ⊎ ((j : ℕ) × (take k (xs ++ ys) ≡ xs ++ take j ys))
  take-append-cases zero xs ys = inl refl
  take-append-cases (suc k) [] ys = inr (suc k, refl)
  take-append-cases (suc k) (x ∷ xs) ys = elim (take-append-cases k xs ys) [
    | inl e ↦ inl (ap (λ l. x ∷ l) e)
    | inr (j, e) ↦ inr (j, ap (λ l. x ∷ l) e)
  ]

  -- The same with where the cut is.
  pub take-append-split :
      (k : ℕ) (xs ys : List A)
      → ((k < length xs) × (take k (xs ++ ys) ≡ take k xs))
        ⊎ ((j : ℕ) × (k ≡ length xs + j) × (take k (xs ++ ys) ≡ xs ++ take j ys))
  take-append-split k [] ys = inr (k, omega arith, refl)
  take-append-split zero (x ∷ xs) ys = inl (omega arith, refl)
  take-append-split (suc k) (x ∷ xs) ys = elim (take-append-split k xs ys) [
    | inl (short, e) ↦ inl (omega (arith, short), ap (λ l. x ∷ l) e)
    | inr (j, at_end, e) ↦ inr (j, omega (arith, at_end), ap (λ l. x ∷ l) e)
  ]

  pub take-append : (xs ys : List A) → take (length xs) (xs ++ ys) ≡ xs
  take-append [] ys = refl
  take-append (x ∷ xs) ys = ap (λ l. x ∷ l) (take-append xs ys)

  pub drop-append : (xs ys : List A) → drop (length xs) (xs ++ ys) ≡ ys
  drop-append [] ys = refl
  drop-append (x ∷ xs) ys = drop-append xs ys

  pub length-append : (xs ys : List A) → length (xs ++ ys) ≡ length xs + length ys
  length-append [] ys = omega arith
  length-append (x ∷ xs) ys = omega (arith, length-append xs ys)

module _ {ℓ κ} {A : Type ℓ} {B : Type κ} where
  pub length-map : (xs : List A) (f : A → B) → length (map f xs) ≡ length xs
  length-map [] f = refl
  length-map (x ∷ xs) f = ap suc (length-map xs f)

  pub map-append : (f : A → B) (xs ys : List A) → map f (xs ++ ys) ≡ map f xs ++ map f ys
  map-append f [] ys = refl
  map-append f (x ∷ xs) ys = ap (λ l. f x ∷ l) (map-append f xs ys)

abbrev pub All {ℓ κ} : {A : Type ℓ} → (A → Type κ) → List A → Type κ
All P [] = Unit
All P (x ∷ xs) = P x × All P xs

pub take-All {ℓ κ} :
    {A : Type ℓ} (P : A → Type κ) (k : ℕ) (xs : List A) → All P xs → All P (take k xs)
take-All P zero xs h = tt
take-All P (suc k) [] h = tt
take-All P (suc k) (x ∷ xs) (h, hs) = (h, take-All P k xs hs)
