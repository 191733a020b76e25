-- ===== src/Factory/Files/Torn.antt =====
-- Recovery from files of which only the front has been written, as a crash in the middle of
-- `store_cust_record_txn` or `store_txn_log_record` leaves them (ServerThread.cpp:
-- `recovery_txn_log`, `recovery_cust_rec`).
use two_phase_commit_protoco.Base.{
  ℕ, ◌≡◌, refl, sym, ap, ◌∙◌, ◌⊎◌, inl, inr, some, List, [], ◌∷◌, ◌≤◌, length, length-map, arith,
  map, take, All,
}
use two_phase_commit_protoco.Base.Int.{ℤ}
use two_phase_commit_protoco.Factory.State.{TxnLogRequest}
use two_phase_commit_protoco.Factory.Persistence.{replay_log, replay_customers}
use two_phase_commit_protoco.Stream.Rows.{each_row}
use two_phase_commit_protoco.Stream.Rows.Cut.{whole_rows, SameButLast, IsFront, while_rows-take}
use two_phase_commit_protoco.Factory.Files.{
  Files, customer_fields, log_fields, insert_fields, update_fields, read_customers, read_log,
  recover_files,
}
use two_phase_commit_protoco.Factory.Files.Refines.{
  each_row-replay_customers, each_row-replay_log, IsCustomer, IsEntry, customers-IsRow, log-IsRow,
  customers_text, log_text_of,
}

-- The entries `got` are those of the list from the front; the last one may be another one that is
-- the same as far as `Same` goes.
abbrev pub Front : {A : Type 0} → (A → A → Type 0) → List A → List A → Type 0
Front Same l [] = Unit
Front Same [] (g ∷ got) = ⊥
Front Same (e ∷ l) (g ∷ got) = ((g ≡ e) × Front Same l got) ⊎ (Same e g × (got ≡ []))

module _ {A : Type 0} (fields : A → List ℤ) (Same : A → A → Type 0)
    (back : (e : A) (row : List ℤ)
      → SameButLast (fields e) row
      → (g : A) × (row ≡ fields g) × Same e g) where
  IsFront-Front :
      (l : List A) (rows : List (List ℤ))
      → IsFront (map fields l) rows
      → (got : List A) × (rows ≡ map fields got) × Front Same l got
  IsFront-Front l [] h = ([], refl, tt)
  IsFront-Front [] (row ∷ rows) h = absurd h
  IsFront-Front (e ∷ l) (row ∷ rows) (inl (same, h)) =
      let (got, path, front) = IsFront-Front l rows h in
      (e ∷ got, ap (λ r. r ∷ rows) same ∙ ap (λ t. fields e ∷ t) path, inl (refl, front))
  IsFront-Front (e ∷ l) (row ∷ rows) (inr (same, last)) =
      let (g, path, alike) = back e row same in
      (g ∷ [], ap (λ r. r ∷ rows) path ∙ ap (λ t. fields g ∷ t) last, inr (alike, refl))

abbrev pub SameCustomer : ℤ × ℤ → ℤ × ℤ → Type 0
SameCustomer e g = g.0 ≡ e.0

customer_back :
    (e : ℤ × ℤ) (row : List ℤ)
    → SameButLast (customer_fields e) row
    → (g : ℤ × ℤ) × (row ≡ customer_fields g) × SameCustomer e g
customer_back (k, v) [] h = absurd h
customer_back (k, v) (a ∷ []) (e, h) = absurd h
customer_back (k, v) (a ∷ b ∷ []) (e, h) = ((a, b), refl, sym e)
customer_back (k, v) (a ∷ b ∷ c ∷ r) (e, h) = absurd h

abbrev pub SameEntry : TxnLogRequest → TxnLogRequest → Type 0
SameEntry e g =
    (g.txn_id ≡ e.txn_id)
    × (g.txn_operation ≡ e.txn_operation)
    × (g.customer_id ≡ e.customer_id)
    × (g.last_order_num ≡ e.last_order_num)

entry_back :
    (e : TxnLogRequest) (row : List ℤ)
    → SameButLast (log_fields e) row
    → (g : TxnLogRequest) × (row ≡ log_fields g) × SameEntry e g
entry_back e [] h = absurd h
entry_back e (a ∷ []) (_, h) = absurd h
entry_back e (a ∷ b ∷ []) (_, (_, h)) = absurd h
entry_back e (a ∷ b ∷ c ∷ []) (_, (_, (_, h))) = absurd h
entry_back e (a ∷ b ∷ c ∷ d ∷ []) (_, (_, (_, (_, h)))) = absurd h
entry_back e (a ∷ b ∷ c ∷ d ∷ o ∷ []) (h1, (h2, (h3, (h4, _)))) = (
  record { txn_id = a; txn_operation = b; customer_id = c; last_order_num = d; customer_opr = o },
  refl,
  (sym h1, sym h2, sym h3, sym h4),
)
entry_back e (a ∷ b ∷ c ∷ d ∷ o ∷ p ∷ r) (_, (_, (_, (_, h)))) = absurd h

read_torn_customers :
    (r : List (ℤ × ℤ)) (k : ℕ)
    → All IsCustomer r
    → (got : List (ℤ × ℤ)) × (read_customers (some (take k (customers_text r))) []
        ≡ some (replay_customers got []))
      × (whole_rows k (map customer_fields r) ≤ length got)
      × Front SameCustomer r got
unfolding read_customers
read_torn_customers r k v =
    let (rows, runs, many, front) =
      while_rows-take 1 insert_fields (map customer_fields r) k [] (customers-IsRow r v) in
    let (got, path, same) = IsFront-Front customer_fields SameCustomer customer_back r rows front in
    (
      got,
      runs
          ∙ ap (λ t. some (each_row insert_fields t [])) path
          ∙ ap some (each_row-replay_customers got []),
      omega (arith, many, ap length path, length-map got customer_fields),
      same,
    )

read_torn_log :
    (l : List TxnLogRequest) (k : ℕ)
    → All IsEntry l
    → (got : List TxnLogRequest) × (read_log (some (take k (log_text_of l))) []
        ≡ some (replay_log got []))
      × (whole_rows k (map log_fields l) ≤ length got)
      × Front SameEntry l got
unfolding read_log
read_torn_log l k v =
    let (rows, runs, many, front) =
      while_rows-take 4 update_fields (map log_fields l) k [] (log-IsRow l v) in
    let (got, path, same) = IsFront-Front log_fields SameEntry entry_back l rows front in
    (
      got,
      runs
          ∙ ap (λ t. some (each_row update_fields t [])) path
          ∙ ap some (each_row-replay_log got []),
      omega (arith, many, ap length path, length-map got log_fields),
      same,
    )

-- Recovery from files of which a crash has left only the front, of any length, ends. It has replayed
-- the customers and the entries of the log from the front, at least all those whose rows were written
-- as a whole; of these the last customer may have another last order, and the last
-- entry another operation of its customer.
pub recover_torn_files :
    (r : List (ℤ × ℤ)) (l : List TxnLogRequest) (j k : ℕ) (files : Files)
    → All IsCustomer r
    → All IsEntry l
    → files.cust_rec_text ≡ some (take j (customers_text r))
    → files.log_text ≡ some (take k (log_text_of l))
    → (customers : List (ℤ × ℤ)) × (log : List TxnLogRequest) × (recover_files files
        ≡ some (replay_customers customers [], replay_log log []))
      × (whole_rows j (map customer_fields r) ≤ length customers)
      × Front SameCustomer r customers
      × (whole_rows k (map log_fields l) ≤ length log)
      × Front SameEntry l log
unfolding recover_files
recover_torn_files r l j k files v v' e e' =
    let (customers, runs, many, front) = read_torn_customers r j v in
    let (log, runs', many', front') = read_torn_log l k v' in
    (customers, log, rw (e, e', runs, runs') refl, many, front, many', front')
