-- ===== src/Stream/Rows.antt =====
-- Files with a row of `int`s in each line: `file << a << ' ' << b << "\n"` and
-- `while (fin >> a >> b)` (ServerThread.cpp: `store_cust_record_txn`, `store_txn_log_record`,
-- `recovery_txn_log`, `recovery_cust_rec`).
pub mod RoundTrip
pub mod Ends
pub mod Cut
use two_phase_commit_protoco.Base.{ℕ, zero, suc, Option, none, some, List, [], ◌∷◌, ◌++◌, ◌>>=◌}
use two_phase_commit_protoco.Base.Int.{ℤ}
use two_phase_commit_protoco.Base.Text.{Text}
use two_phase_commit_protoco.Stream.{print_int, read_int}

unfoldable pub print_row : List ℤ → Text
print_row [] = 10 ∷ []
print_row (a ∷ []) = print_int a ++ 10 ∷ []
print_row (a ∷ b ∷ bs) = print_int a ++ 32 ∷ print_row (b ∷ bs)

unfoldable pub print_table : List (List ℤ) → Text
print_table [] = []
print_table (row ∷ table) = print_row row ++ print_table table

-- `fin >> a >> b`, for as many numbers bs are asked for.
unfoldable pub read_row : ℕ → Text → Option (List ℤ × Text)
read_row zero t = some ([], t)
read_row (suc w) t = do (a, u) ← read_int t; (bs, v) ← read_row w u; some (a ∷ bs, v)

-- The loop over the rows, with fuel: `none` is that it has run out.
unfoldable pub while_rows : {S : Type 0} → ℕ → ℕ → (List ℤ → S → S) → Text → S → Option S
while_rows zero w each t s = none
while_rows (suc n) w each t s = elim (read_row w t) [
  | none ↦ some s
  | some (row, u) ↦ while_rows n w each u (each row s)
]

-- The rows one after another.
unfoldable pub each_row : {S : Type 0} → (List ℤ → S → S) → List (List ℤ) → S → S
each_row each [] s = s
each_row each (row ∷ table) s = each_row each table (each row s)
