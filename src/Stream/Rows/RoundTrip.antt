-- ===== src/Stream/Rows/RoundTrip.antt =====
-- A table that is printed is read back row by row.
use two_phase_commit_protoco.Base.{
  ℕ, zero, suc, ◌≤◌, ◌<◌, ◌≡◌, refl, sym, ap, ◌∙◌, none, some, List, [], ◌∷◌, ◌++◌, length, All,
  arith, append_assoc, length-append,
}
use two_phase_commit_protoco.Base.Int.{ℤ, IsInt32}
use two_phase_commit_protoco.Base.Text.{Text}
use two_phase_commit_protoco.Stream.{signed, skip_space, print_int, read_int}
use two_phase_commit_protoco.Stream.RoundTrip.{read_int-print_int, read_int-space, read_int-newline}
use two_phase_commit_protoco.Stream.Rows.{print_row, print_table, read_row, while_rows, each_row}

-- A row of so many `int`s.
abbrev pub IsRow : ℕ → List ℤ → Type 0
IsRow w row = (length row ≡ w) × All IsInt32 row

pub read_row-space : (w : ℕ) (t : Text) → read_row (suc w) (32 ∷ t) ≡ read_row (suc w) t
unfolding read_row
read_row-space w t = rw (read_int-space t) refl

pub read_row-newline : (w : ℕ) (t : Text) → read_row (suc w) (10 ∷ t) ≡ read_row (suc w) t
unfolding read_row
read_row-newline w t = rw (read_int-newline t) refl

pub read_row_step :
    (w : ℕ) (t u v : Text) (a : ℤ) (bs : List ℤ)
    → read_int t ≡ some (a, u)
    → read_row w u ≡ some (bs, v)
    → read_row (suc w) t ≡ some (a ∷ bs, v)
unfolding read_row
read_row_step w t u v a bs e r = rw (e, r) refl

read_row_cons :
    (a : ℤ) (bs : List ℤ) (rest : Text)
    → All IsInt32 (a ∷ bs)
    → read_row (suc (length bs)) (print_row (a ∷ bs) ++ rest) ≡ some (a ∷ bs, 10 ∷ rest)
unfolding print_row
read_row_cons a [] rest (h, _) =
    read_row_step 0 _ (10 ∷ rest) (10 ∷ rest) a []
      (ap read_int (append_assoc (print_int a) (10 ∷ []) rest)
        ∙ read_int-print_int a (10 ∷ rest) h refl)
      (unfold read_row in refl)
read_row_cons a (b ∷ bs) rest (h, hs) =
    read_row_step (suc (length bs)) _ (32 ∷ (print_row (b ∷ bs) ++ rest)) (10 ∷ rest) a (b ∷ bs)
      (ap read_int (append_assoc (print_int a) (32 ∷ print_row (b ∷ bs)) rest)
        ∙ read_int-print_int a (32 ∷ (print_row (b ∷ bs) ++ rest)) h refl)
      (read_row-space (length bs) _ ∙ read_row_cons b bs rest hs)

pub read_row-print_row :
    (w : ℕ) (row : List ℤ) (rest : Text)
    → IsRow (suc w) row
    → read_row (suc w) (print_row row ++ rest) ≡ some (row, 10 ∷ rest)
read_row-print_row w [] rest (e, _) = cc
read_row-print_row w (a ∷ bs) rest (e, h) =
    ap (λ n. read_row n (print_row (a ∷ bs) ++ rest)) (sym e) ∙ read_row_cons a bs rest h

length-print_row : (row : List ℤ) → 1 ≤ length (print_row row)
unfolding print_row
length-print_row [] = omega arith
length-print_row (a ∷ []) = omega (arith, length-append (print_int a) (10 ∷ []))
length-print_row (a ∷ b ∷ bs) = omega (arith, length-append (print_int a) (32 ∷ print_row (b ∷ bs)))

pub read_row_nil : (w : ℕ) → read_row (suc w) [] ≡ none
unfolding read_row read_int skip_space signed
read_row_nil w = refl

length-print_table : (table : List (List ℤ)) → length table ≤ length (print_table table)
unfolding print_table
length-print_table [] = omega arith
length-print_table (row ∷ table) = omega (
  arith,
  length-print_table table,
  length-print_row row,
  length-append (print_row row) (print_table table),
)

module _ {S : Type 0} (w : ℕ) (each : List ℤ → S → S) where
  pub while_rows-newline :
      (n : ℕ) (t : Text) (s : S)
      → while_rows n (suc w) each (10 ∷ t) s ≡ while_rows n (suc w) each t s
  unfolding while_rows
  while_rows-newline zero t s = refl
  while_rows-newline (suc n) t s = rw (read_row-newline w t, while_rows) refl

  pub while_rows_end :
      (n : ℕ) (t : Text) (s : S)
      → read_row (suc w) t ≡ none
      → while_rows (suc n) (suc w) each t s ≡ some s
  unfolding while_rows
  while_rows_end n t s e = rw (e, while_rows) refl

  pub while_rows_step :
      (n : ℕ) (t u : Text) (row : List ℤ) (s : S)
      → read_row (suc w) t ≡ some (row, u)
      → while_rows (suc n) (suc w) each t s ≡ while_rows n (suc w) each u (each row s)
  unfolding while_rows
  while_rows_step n t u row s e = rw (e, while_rows) refl

  while_rows-table :
      (n : ℕ) (table : List (List ℤ)) (s : S)
      → All (IsRow (suc w)) table
      → length table < n
      → while_rows n (suc w) each (print_table table) s ≡ some (each_row each table s)
  unfolding print_table each_row
  while_rows-table zero table s h room = absurd (omega arith)
  while_rows-table (suc n) [] s h room = while_rows_end n [] s (read_row_nil w)
  while_rows-table (suc n) (row ∷ table) s (h, hs) room =
      while_rows_step n _ (10 ∷ print_table table) row s
        (read_row-print_row w row (print_table table) h)
      ∙ while_rows-newline n (print_table table) (each row s)
      ∙ while_rows-table n table (each row s) hs (omega arith)

  -- A table that is printed is read back, row by row.
  pub while_rows-print_table :
      (table : List (List ℤ)) (s : S)
      → All (IsRow (suc w)) table
      → while_rows (suc (length (print_table table))) (suc w) each (print_table table) s
        ≡ some (each_row each table s)
  while_rows-print_table table s h =
      while_rows-table (suc (length (print_table table))) table s h
        (omega (arith, length-print_table table))
