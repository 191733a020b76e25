-- ===== src/Stream/Rows/Cut.antt =====
-- A table of which only the front has been written, as a crash leaves it.
use two_phase_commit_protoco.Base.{
  ℕ, zero, suc, ◌+◌, ◌<◌, ◌≡◌, refl, sym, ap, ◌∙◌, ◌⊎◌, inl, inr, Option, none, some, List, [], ◌∷◌,
  ◌++◌, ◌>>=◌, length, take, All, arith, Option-cases, take_nil, take-append-cases,
  take-append-split, ◌-◌, ◌≤◌, ltb, if◌then◌else◌, subst,
}
use two_phase_commit_protoco.Base.Int.{ℤ, IsInt32}
use two_phase_commit_protoco.Base.Text.{Text}
use two_phase_commit_protoco.Stream.{print_int, read_int}
use two_phase_commit_protoco.Stream.Cut.{Spent, read_int-Spent}
use two_phase_commit_protoco.Stream.RoundTrip.{read_int-print_int, EndsNumber}
use two_phase_commit_protoco.Stream.Rows.{print_row, print_table, read_row, while_rows, each_row}
use two_phase_commit_protoco.Stream.Rows.Ends.{while_rows_fuel}
use two_phase_commit_protoco.Stream.Rows.RoundTrip.{
  IsRow, while_rows-newline, while_rows_end, while_rows_step, read_row-print_row, read_row_nil,
  read_row-space, read_row-newline,
}

-- Two rows that differ in the last field at most.
abbrev pub SameButLast : List ℤ → List ℤ → Type 0
SameButLast [] s = ⊥
SameButLast (a ∷ []) [] = ⊥
SameButLast (a ∷ []) (b ∷ []) = Unit
SameButLast (a ∷ []) (b ∷ c ∷ s) = ⊥
SameButLast (a ∷ c ∷ r) [] = ⊥
SameButLast (a ∷ c ∷ r) (b ∷ s) = (a ≡ b) × SameButLast (c ∷ r) s

-- What is left of a row that has been cut off.
abbrev Over : Text → Type 0
Over u = (u ≡ []) ⊎ (u ≡ 10 ∷ [])

abbrev OverNumber : Option (ℤ × Text) → Type 0
OverNumber none = Unit
OverNumber (some (_, u)) = Over u

abbrev CutRow : List ℤ → Option (List ℤ × Text) → Type 0
CutRow row none = Unit
CutRow row (some (got, u)) = SameButLast row got × Over u

Spent-OverNumber : (m : Option (ℤ × Text)) → Spent m → OverNumber m
Spent-OverNumber none h = tt
Spent-OverNumber (some (b, u)) h = inl h

take_newline : (j : ℕ) → Over (take j (10 ∷ []))
take_newline zero = inl refl
take_newline (suc zero) = inr refl
take_newline (suc (suc j)) = inr refl

end_newline : (j : ℕ) → EndsNumber (take j (10 ∷ []))
end_newline zero = tt
end_newline (suc j) = refl

end_space : (j : ℕ) (t : Text) → EndsNumber (take j (32 ∷ t))
end_space zero t = tt
end_space (suc j) t = refl

last_number :
    (a : ℤ) (m : Option (ℤ × Text))
    → OverNumber m
    → CutRow (a ∷ []) (m >>= λ x. some (x.0 ∷ [], x.1))
last_number a none h = tt
last_number a (some (b, u)) h = (tt, h)

last-CutRow : (a : ℤ) (t : Text) → OverNumber (read_int t) → CutRow (a ∷ []) (read_row 1 t)
unfolding read_row
last-CutRow a t h = last_number a (read_int t) h

first_missing : (w : ℕ) (t : Text) → read_int t ≡ none → read_row (suc w) t ≡ none
unfolding read_row
first_missing w t e = rw e refl

rest_missing :
    (w : ℕ) (t u : Text) (a : ℤ)
    → read_int t ≡ some (a, u)
    → read_row w u ≡ none
    → read_row (suc w) t ≡ none
unfolding read_row
rest_missing w t u a e r = rw (e, r) refl

-- With nothing behind its first number a row of several is not read.
first-Spent : (w : ℕ) (t : Text) → Spent (read_int t) → read_row (suc (suc w)) t ≡ none
first-Spent w t h = elim (Option-cases (read_int t)) [
  | inl e ↦ first_missing (suc w) t e
  | inr ((b, u), e) ↦
      let nothing : u ≡ [] = subst Spent e h in
      rest_missing (suc w) t u b e (ap (read_row (suc w)) nothing ∙ read_row_nil w)
]

row_goes_on :
    (a c : ℤ) (r : List ℤ) (m : Option (List ℤ × Text))
    → CutRow (c ∷ r) m
    → CutRow (a ∷ c ∷ r) (m >>= λ y. some (a ∷ y.0, y.1))
row_goes_on a c r none h = tt
row_goes_on a c r (some (got, u)) (same, over) = ((refl, same), over)

next-CutRow :
    (a c : ℤ) (r : List ℤ) (w : ℕ) (t u : Text)
    → read_int t ≡ some (a, u)
    → CutRow (c ∷ r) (read_row w u)
    → CutRow (a ∷ c ∷ r) (read_row (suc w) t)
unfolding read_row
next-CutRow a c r w t u e h = rw e (row_goes_on a c r (read_row w u) h)

cut-CutRow :
    (a : ℤ) (bs : List ℤ) (k : ℕ)
    → All IsInt32 (a ∷ bs)
    → CutRow (a ∷ bs) (read_row (suc (length bs)) (take k (print_row (a ∷ bs))))
unfolding print_row
cut-CutRow a [] k (h, _) =
    let t = take k (print_int a ++ 10 ∷ []) in
    last-CutRow a t (elim (take-append-cases k (print_int a) (10 ∷ [])) [
      | inl e ↦
          subst (λ u. OverNumber (read_int u)) (sym e)
            (Spent-OverNumber (read_int (take k (print_int a))) (read_int-Spent k a))
      | inr (j, e) ↦
          subst OverNumber
            (sym (ap read_int e ∙ read_int-print_int a (take j (10 ∷ [])) h (end_newline j)))
            (take_newline j)
    ])
cut-CutRow a (c ∷ cs) k (h, hs) =
    let row = a ∷ c ∷ cs in
    let behind = print_row (c ∷ cs) in
    let t = take k (print_int a ++ 32 ∷ behind) in
    let not_read : Spent (read_int t) → CutRow row (read_row (suc (suc (length cs))) t) =
      λ over. subst (CutRow row) (sym (first-Spent (length cs) t over)) tt in
    elim (take-append-cases k (print_int a) (32 ∷ behind)) [
      | inl e ↦ not_read (subst (λ u. Spent (read_int u)) (sym e) (read_int-Spent k a))
      | inr (zero, e) ↦
          not_read (subst Spent (sym (ap read_int e ∙ read_int-print_int a [] h tt)) refl)
      | inr (suc j, e) ↦
          next-CutRow a c cs (suc (length cs)) t (32 ∷ take j behind)
            (ap read_int e ∙ read_int-print_int a (32 ∷ take j behind) h refl)
            (subst (CutRow (c ∷ cs)) (sym (read_row-space (length cs) (take j behind)))
              (cut-CutRow c cs j hs))
    ]

row-CutRow :
    (w : ℕ) (row : List ℤ) (k : ℕ)
    → IsRow (suc w) row
    → CutRow row (read_row (suc w) (take k (print_row row)))
row-CutRow w [] k (e, _) = cc
row-CutRow w (a ∷ bs) k (e, h) =
    subst (λ n. CutRow (a ∷ bs) (read_row n (take k (print_row (a ∷ bs))))) e (cut-CutRow a bs k h)

-- The rows that are read of a table that has been cut off: those of the table from the front, of
-- which the last one may have another number in its last field.
abbrev pub IsFront : List (List ℤ) → List (List ℤ) → Type 0
IsFront table [] = Unit
IsFront [] (got ∷ more) = ⊥
IsFront (row ∷ table) (got ∷ more) =
    ((got ≡ row) × IsFront table more) ⊎ (SameButLast row got × (more ≡ []))

-- How many rows of the table lie in its first `k` characters as a whole.
abbrev pub whole_rows : ℕ → List (List ℤ) → ℕ
whole_rows k [] = 0
whole_rows k (row ∷ table) =
    let more = whole_rows (k - length (print_row row)) table in
    if ltb k (length (print_row row)) then 0 else suc more

module _ {S : Type 0} (w : ℕ) (each : List ℤ → S → S) where
  -- What is read of a table that has been cut off behind `m` rows or more.
  unfoldable ReadsFront : ℕ → List (List ℤ) → S → Option S → Type 0
  ReadsFront m table s r =
      (got : List (List ℤ)) × (r ≡ some (each_row each got s))
      × (m ≤ length got)
      × IsFront table got

  ends_here :
      (table : List (List ℤ)) (n : ℕ) (t : Text) (s : S)
      → read_row (suc w) t ≡ none
      → ReadsFront 0 table s (while_rows (suc n) (suc w) each t s)
  unfolding each_row ReadsFront
  ends_here table n t s e = ([], while_rows_end w each n t s e, omega arith, tt)

  read_row-Over : (u : Text) → Over u → read_row (suc w) u ≡ none
  read_row-Over u (inl e) = ap (read_row (suc w)) e ∙ read_row_nil w
  read_row-Over u (inr e) = ap (read_row (suc w)) e ∙ read_row-newline w [] ∙ read_row_nil w

  cut_in_row :
      (row : List ℤ) (table : List (List ℤ)) (n : ℕ) (t : Text) (s : S)
      → CutRow row (read_row (suc w) t)
      → ReadsFront 0 (row ∷ table) s (while_rows (suc (suc n)) (suc w) each t s)
  unfolding each_row ReadsFront
  cut_in_row row table n t s h = elim (Option-cases (read_row (suc w) t)) [
    | inl e ↦ ends_here (row ∷ table) (suc n) t s e
    | inr ((got, u), e) ↦
        let (same, over) = subst (CutRow row) e h in
        (
          got ∷ [],
          while_rows_step w each (suc n) t u got s e
              ∙ while_rows_end w each n u (each got s) (read_row-Over u over),
          omega arith,
          inr (same, refl),
        )
  ]

  row_whole :
      (m : ℕ) (row : List ℤ) (table : List (List ℤ)) (n : ℕ) (t u : Text) (s : S)
      → read_row (suc w) t ≡ some (row, 10 ∷ u)
      → ReadsFront m table (each row s) (while_rows n (suc w) each u (each row s))
      → ReadsFront (suc m) (row ∷ table) s (while_rows (suc n) (suc w) each t s)
  unfolding each_row ReadsFront
  row_whole m row table n t u s e (got, runs, many, front) = (
    row ∷ got,
    while_rows_step w each n t (10 ∷ u) row s e ∙ while_rows-newline w each n u (each row s) ∙ runs,
    omega (arith, many),
    inl (refl, front),
  )

  first_whole :
      (k : ℕ) (row : List ℤ) (table : List (List ℤ))
      → length (print_row row) ≤ k
      → whole_rows k (row ∷ table) ≡ suc (whole_rows (k - length (print_row row)) table)
  first_whole k row table h = ground arith

  cut_table :
      (table : List (List ℤ)) (n k : ℕ) (s : S)
      → All (IsRow (suc w)) table
      → length table < n
      → ReadsFront
          (whole_rows k table)
          table
          s
          (while_rows (suc n) (suc w) each (take k (print_table table)) s)
  unfolding print_table
  cut_table table zero k s h room = absurd (omega arith)
  cut_table [] (suc n) k s h room =
      ends_here [] (suc n) (take k []) s (ap (read_row (suc w)) (take_nil k) ∙ read_row_nil w)
  cut_table (row ∷ table) (suc n) k s (h, hs) room =
      let t = take k (print_row row ++ print_table table) in
      let Reads : ℕ → Type 0 =
        λ m. ReadsFront m (row ∷ table) s (while_rows (suc (suc n)) (suc w) each t s) in
      let width = length (print_row row) in
      elim (take-append-split k (print_row row) (print_table table)) [
        | inl (short, e) ↦
            let none_whole : whole_rows k (row ∷ table) ≡ 0 = ground (arith, short) in
            subst Reads (sym none_whole) (
              cut_in_row row table n t s
                (subst (λ u. CutRow row (read_row (suc w) u)) (sym e) (row-CutRow w row k h)))
        | inr (j, at_end, e) ↦
            let behind : k - width ≡ j = omega (arith, at_end) in
            let one_whole : whole_rows k (row ∷ table) ≡ suc (whole_rows j table) =
              first_whole k row table (omega (arith, at_end))
              ∙ ap (λ i. suc (whole_rows i table)) behind in
            subst Reads (sym one_whole) (
              row_whole (whole_rows j table) row table (suc n) t (take j (print_table table)) s
                (ap (read_row (suc w)) e ∙ read_row-print_row w row (take j (print_table table)) h)
                (cut_table table n j (each row s) hs (omega arith)))
      ]

  -- The loop over a table of which only the front has been written ends, and has read the rows of
  -- the table from the front, at least those that have been written as a whole, of which the last one may have another number in its last field.
  pub while_rows-take :
      (table : List (List ℤ)) (k : ℕ) (s : S)
      → All (IsRow (suc w)) table
      → (got : List (List ℤ)) × (while_rows
            (suc (length (take k (print_table table))))
            (suc w)
            each
            (take k (print_table table))
            s
          ≡ some (each_row each got s))
        × (whole_rows k table ≤ length got)
        × IsFront table got
  unfolding ReadsFront
  while_rows-take table k s h =
      let t = take k (print_table table) in
      let n = suc (length table + length t) in
      let (got, runs, many, front) = cut_table table n k s h (omega arith) in
      (
        got,
        while_rows_fuel w each (suc (length t)) (suc n) t s (omega arith) (omega arith) ∙ runs,
        many,
        front,
      )
