-- ===== src/Stream/Rows/Ends.antt =====
-- The loop over the rows of a file ends, whatever the file holds.
use two_phase_commit_protoco.Base.{
  ℕ, zero, suc, ◌+◌, ◌-◌, ◌*◌, ◌^◌, ltb, leb, ◌==◌, Bool-cases, subst, ◌≤◌, ◌<◌, ◌≡◌, sym, ◌∙◌, inl,
  inr, Option, none, some, List, [], ◌∷◌, ◌>>=◌, length, arith, Option-cases,
}
use two_phase_commit_protoco.Base.Int.{ℤ}
use two_phase_commit_protoco.Base.Text.{Text}
use two_phase_commit_protoco.Stream.{
  skip_space, is_digit, scan, number, signed, positive, negative, read_int,
}
use two_phase_commit_protoco.Stream.Rows.{read_row, while_rows}
use two_phase_commit_protoco.Stream.Rows.RoundTrip.{while_rows_end, while_rows_step}

-- What is left of a text, if something has been read, is shorter by a character.
abbrev Shorter : {A : Type 0} → Text → Option (A × Text) → Type 0
Shorter t none = Unit
Shorter t (some (_, u)) = length u < length t

length-skip_space : (t : Text) → length (skip_space t) ≤ length t
unfolding skip_space
length-skip_space [] = omega arith
length-skip_space (c ∷ t) = ground (arith, length-skip_space t)

length-scan : (n : ℕ) (t : Text) → length (scan n t).1 ≤ length t
unfolding scan
length-scan n [] = omega arith
length-scan n (c ∷ t) = ground (arith, length-scan (n * 10 + (c - 48)) t)

number-Shorter : (t : Text) → Shorter t (number t)
unfolding number
number-Shorter [] = tt
number-Shorter (c ∷ t) = elim (Bool-cases (is_digit c)) [
  | inl e ↦ rw e (omega (arith, length-scan (0 + (c - 48)) t))
  | inr e ↦ rw e tt
]

bind-Shorter :
    {A B : Type 0} (t : Text) (m : Option (A × Text)) (k : A × Text → Option (B × Text))
    → Shorter t m
    → ((a : A) (u : Text) → length u < length t → Shorter t (k (a, u)))
    → Shorter t (m >>= k)
bind-Shorter t none k h f = tt
bind-Shorter t (some (n, u)) k h f = f n u h

positive-Shorter : (t : Text) (n : ℕ) (u : Text) → length u < length t → Shorter t (positive (n, u))
positive-Shorter t n u h = elim (Bool-cases (ltb n (2 ^ 31))) [ inl e ↦ rw e h | inr e ↦ rw e tt ]

negative-Shorter : (t : Text) (n : ℕ) (u : Text) → length u < length t → Shorter t (negative (n, u))
negative-Shorter t n u h = elim (Bool-cases (leb n (2 ^ 31))) [ inl e ↦ rw e h | inr e ↦ rw e tt ]

longer-Shorter :
    {A : Type 0} (t t' : Text) (m : Option (A × Text))
    → length t ≤ length t'
    → Shorter t m
    → Shorter t' m
longer-Shorter t t' none le h = tt
longer-Shorter t t' (some (a, u)) le h = omega arith

signed-Shorter : (t : Text) → Shorter t (signed t)
unfolding signed
signed-Shorter [] = tt
signed-Shorter (c ∷ t) =
    let below : length t ≤ length (c ∷ t) = omega arith in
    elim (Bool-cases (c == 45)) [
      | inl minus ↦ rw minus (
          longer-Shorter t (c ∷ t) _ below
            (bind-Shorter t (number t) negative (number-Shorter t) (negative-Shorter t)))
      | inr other ↦ elim (Bool-cases (c == 43)) [
        | inl plus ↦
            rw (other, plus)
              (longer-Shorter t (c ∷ t) _ below
                (bind-Shorter t (number t) positive (number-Shorter t) (positive-Shorter t)))
        | inr plain ↦
            rw (other, plain)
              (bind-Shorter (c ∷ t) (number (c ∷ t)) positive (number-Shorter (c ∷ t))
                (positive-Shorter (c ∷ t)))
      ]
    ]

read_int-Shorter : (t : Text) → Shorter t (read_int t)
unfolding read_int
read_int-Shorter t =
    longer-Shorter (skip_space t) t (signed (skip_space t)) (length-skip_space t)
      (signed-Shorter (skip_space t))

read_row_step :
    (w : ℕ) (t : Text)
    → ((u : Text) → Shorter (0 ∷ u) (read_row w u))
    → Shorter t (read_row (suc w) t)
unfolding read_row
read_row_step w t rest = bind-Shorter t (read_int t) _ (read_int-Shorter t) λ a u less.
    bind-Shorter t (read_row w u) _ (longer-Shorter (0 ∷ u) t (read_row w u) (omega arith) (rest u))
      λ row v shorter. shorter

read_row_front : (w : ℕ) (t : Text) → Shorter (0 ∷ t) (read_row w t)
unfolding read_row
read_row_front zero t = omega arith
read_row_front (suc w) t =
    longer-Shorter t (0 ∷ t) (read_row (suc w) t) (omega arith)
      (read_row_step w t (read_row_front w))

read_row-Shorter : (w : ℕ) (t : Text) → Shorter t (read_row (suc w) t)
read_row-Shorter w t = read_row_step w t (read_row_front w)

module _ {S : Type 0} (w : ℕ) (each : List ℤ → S → S) where
  -- One round more than there are characters is enough.
  pub while_rows_ends :
      (n : ℕ) (t : Text) (s : S)
      → length t < n
      → (s' : S) × (while_rows n (suc w) each t s ≡ some s')
  while_rows_ends zero t s h = absurd (omega arith)
  while_rows_ends (suc n) t s h = elim (Option-cases (read_row (suc w) t)) [
    | inl e ↦ (s, while_rows_end w each n t s e)
    | inr ((row, u), e) ↦
        let less : length u < length t = subst (Shorter t) e (read_row-Shorter w t) in
        let (s', runs) = while_rows_ends n u (each row s) (omega arith) in
        (s', while_rows_step w each n t u row s e ∙ runs)
  ]

  -- Any amount of fuel above the number of characters gives the same run.
  pub while_rows_fuel :
      (n m : ℕ) (t : Text) (s : S)
      → length t < n
      → length t < m
      → while_rows n (suc w) each t s ≡ while_rows m (suc w) each t s
  while_rows_fuel zero m t s h h' = absurd (omega arith)
  while_rows_fuel (suc n) zero t s h h' = absurd (omega arith)
  while_rows_fuel (suc n) (suc m) t s h h' = elim (Option-cases (read_row (suc w) t)) [
    | inl e ↦ while_rows_end w each n t s e ∙ sym (while_rows_end w each m t s e)
    | inr ((row, u), e) ↦
        let less : length u < length t = subst (Shorter t) e (read_row-Shorter w t) in
        while_rows_step w each n t u row s e
        ∙ while_rows_fuel n m u (each row s) (omega arith) (omega arith)
        ∙ sym (while_rows_step w each m t u row s e)
  ]
