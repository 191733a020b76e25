-- ===== src/Factory/Files/Refines.antt =====
-- The files as text against the files as rows (ServerThread.cpp: `store_cust_record_txn`,
-- `store_txn_log_record`, `recovery_txn_log`, `recovery_cust_rec`).
use two_phase_commit_protoco.Base.{
  ◌≡◌, refl, sym, ap, ◌∙◌, Option, none, some, List, [], ◌∷◌, ◌++◌, map, length, suc, All,
  map-append, append_assoc, Bool-cases, inl, inr, arith,
}
use two_phase_commit_protoco.Base.Int.{ℤ, IsInt32}
use two_phase_commit_protoco.Base.Text.{Text}
use two_phase_commit_protoco.Map.{Map, insert}
use two_phase_commit_protoco.Messages.Replication.{PeerServersInfo}
use two_phase_commit_protoco.Factory.State.{TxnLogRequest, Disk, Factory}
use two_phase_commit_protoco.Factory.Persistence.{
  recovery_cust_rec, recovery_txn_log, update_value, rows, store_txn_log_record,
  store_cust_record_txn, replay_log, replay_customers,
}
use two_phase_commit_protoco.Factory.Start.{make_factory}
use two_phase_commit_protoco.Stream.Rows.{print_row, print_table, while_rows, each_row}
use two_phase_commit_protoco.Stream.Rows.RoundTrip.{IsRow, while_rows-print_table}
use two_phase_commit_protoco.Stream.Rows.Ends.{while_rows_ends}
use two_phase_commit_protoco.Factory.Files.{
  Files, customer_fields, log_fields, text_of, write_customers, append_log, insert_fields,
  update_fields, read_customers, read_log, recover_files,
}

print_table-append : (a b : List (List ℤ)) → print_table (a ++ b) ≡ print_table a ++ print_table b
unfolding print_table
print_table-append [] b = refl
print_table-append (r ∷ a) b =
    ap (λ u. print_row r ++ u) (print_table-append a b)
    ∙ sym (append_assoc (print_row r) (print_table a) (print_table b))

pub each_row-replay_customers :
    (r : List (ℤ × ℤ)) (d : Map ℤ)
    → each_row insert_fields (map customer_fields r) d ≡ replay_customers r d
unfolding each_row insert_fields replay_customers
each_row-replay_customers [] d = refl
each_row-replay_customers ((k, v) ∷ r) d = each_row-replay_customers r (insert k v d)

pub each_row-replay_log :
    (l : List TxnLogRequest) (d : Map (List TxnLogRequest))
    → each_row update_fields (map log_fields l) d ≡ replay_log l d
unfolding each_row update_fields replay_log
each_row-replay_log [] d = refl
each_row-replay_log (r ∷ l) d = each_row-replay_log l (update_value d r.txn_id r).1

-- Every field is an `int`.
abbrev pub IsCustomer : ℤ × ℤ → Type 0
IsCustomer e = All IsInt32 (customer_fields e)

abbrev pub IsEntry : TxnLogRequest → Type 0
IsEntry rec = All IsInt32 (log_fields rec)

pub customers-IsRow : (r : List (ℤ × ℤ)) → All IsCustomer r → All (IsRow 2) (map customer_fields r)
customers-IsRow [] h = tt
customers-IsRow (e ∷ r) (h, hs) = ((refl, h), customers-IsRow r hs)

pub log-IsRow : (l : List TxnLogRequest) → All IsEntry l → All (IsRow 5) (map log_fields l)
log-IsRow [] h = tt
log-IsRow (e ∷ l) (h, hs) = ((refl, h), log-IsRow l hs)

abbrev pub customers_text : List (ℤ × ℤ) → Text
customers_text r = print_table (map customer_fields r)

abbrev pub log_text_of : List TxnLogRequest → Text
log_text_of l = print_table (map log_fields l)

-- The file holds the text of these rows.
abbrev pub Prints : {A : Type 0} → (List A → Text) → Option (List A) → Option Text → Type 0
Prints print none none = Unit
Prints print (some l) (some t) = t ≡ print l
Prints print none (some t) = ⊥
Prints print (some l) none = ⊥

pub record Shows (d : Disk) (files : Files) : Type 0 where
  pub log : Prints log_text_of d.log_file files.log_text
  pub customers : Prints customers_text d.cust_rec_file files.cust_rec_text
  pub may_write : files.writable ≡ d.writable

-- Both have ended the process, or both go on, with the same files.
abbrev pub ShowsAfter : Option Factory → Option Files → Type 0
ShowsAfter none none = Unit
ShowsAfter (some g) (some files) = Shows g.disk files
ShowsAfter none (some files) = ⊥
ShowsAfter (some g) none = ⊥

text-append :
    (l : Option (List TxnLogRequest)) (t : Option Text) (recs : List TxnLogRequest)
    → Prints log_text_of l t
    → text_of t ++ log_text_of recs ≡ log_text_of (rows l ++ recs)
text-append none none recs h = refl
text-append (some l) (some t) recs h =
    ap (λ u. u ++ log_text_of recs) h
    ∙ sym (print_table-append (map log_fields l) (map log_fields recs))
    ∙ ap print_table (sym (map-append log_fields l recs))
text-append none (some t) recs h = absurd h
text-append (some l) none recs h = absurd h

-- Writing the files as text does what writing them row by row does: either both end the process, or
-- the text that is then in the files is that of the rows.
stores_refine :
    (f : Factory) (files : Files) (recs : List TxnLogRequest)
    → Shows f.disk files
    → ShowsAfter (store_txn_log_record recs f) (append_log recs files)
      × ShowsAfter (store_cust_record_txn f) (write_customers f.customer_record files)
unfolding store_txn_log_record append_log store_cust_record_txn write_customers
stores_refine f files recs h = elim (Bool-cases f.disk.writable) [
  | inl e ↦
      rw (h.may_write, e)
        (
          record {
            log = text-append f.disk.log_file files.log_text recs h.log;
            customers = h.customers;
            may_write = refl;
          },
          record { log = h.log; customers = refl; may_write = refl },
        )
  | inr e ↦ rw (h.may_write, e) (tt, tt)
]

abbrev rows_of : {A : Type 0} → Option (List A) → List A
rows_of none = []
rows_of (some l) = l

-- Every field in the rows of a file is an `int`.
abbrev AllRows : {A : Type 0} → (A → Type 0) → Option (List A) → Type 0
AllRows P none = Unit
AllRows P (some l) = All P l

read_customers-Prints :
    (r : Option (List (ℤ × ℤ))) (t : Option Text)
    → Prints customers_text r t
    → AllRows IsCustomer r
    → read_customers t [] ≡ some (replay_customers (rows_of r) [])
unfolding read_customers
read_customers-Prints none none h v = unfold replay_customers in refl
read_customers-Prints (some r) (some t) h v =
    ap (λ u. while_rows (suc (length u)) 2 insert_fields u []) h
    ∙ while_rows-print_table 1 insert_fields (map customer_fields r) [] (customers-IsRow r v)
    ∙ ap some (each_row-replay_customers r [])
read_customers-Prints none (some t) h v = absurd h
read_customers-Prints (some r) none h v = absurd h

read_log-Prints :
    (l : Option (List TxnLogRequest)) (t : Option Text)
    → Prints log_text_of l t
    → AllRows IsEntry l
    → read_log t [] ≡ some (replay_log (rows_of l) [])
unfolding read_log
read_log-Prints none none h v = unfold replay_log in refl
read_log-Prints (some l) (some t) h v =
    ap (λ u. while_rows (suc (length u)) 5 update_fields u []) h
    ∙ while_rows-print_table 4 update_fields (map log_fields l) [] (log-IsRow l v)
    ∙ ap some (each_row-replay_log l [])
read_log-Prints none (some t) h v = absurd h
read_log-Prints (some l) none h v = absurd h

make_factory_rows :
    (peers : List PeerServersInfo) (d : Disk)
    → ((make_factory peers d).customer_record ≡ replay_customers (rows_of d.cust_rec_file) [])
      × ((make_factory peers d).txn_log ≡ replay_log (rows_of d.log_file) [])
unfolding make_factory recovery_txn_log recovery_cust_rec replay_log replay_customers
make_factory_rows peers d = (ground arith, ground arith)

-- A resource manager that is started on files that hold the text of some rows of `int`s has what it
-- has if it is started on these rows.
pub recover_files-Shows :
    (peers : List PeerServersInfo) (d : Disk) (files : Files)
    → Shows d files
    → AllRows IsCustomer d.cust_rec_file
    → AllRows IsEntry d.log_file
    → recover_files files
      ≡ some ((make_factory peers d).customer_record, (make_factory peers d).txn_log)
unfolding recover_files
recover_files-Shows peers d files h v v' =
    let (c, l) = make_factory_rows peers d in
    rw
      (
        read_customers-Prints d.cust_rec_file files.cust_rec_text h.customers v,
        read_log-Prints d.log_file files.log_text h.log v',
        c,
        l,
      )
      refl

read_customers_ends : (t : Option Text) (d : Map ℤ) → (c : Map ℤ) × (read_customers t d ≡ some c)
unfolding read_customers
read_customers_ends none d = (d, refl)
read_customers_ends (some t) d = while_rows_ends 1 insert_fields (suc (length t)) t d (omega arith)

read_log_ends :
    (t : Option Text) (d : Map (List TxnLogRequest))
    → (l : Map (List TxnLogRequest)) × (read_log t d ≡ some l)
unfolding read_log
read_log_ends none d = (d, refl)
read_log_ends (some t) d = while_rows_ends 4 update_fields (suc (length t)) t d (omega arith)

-- Recovery ends, whatever text the files hold.
pub recover_files_ends :
    (files : Files)
    → (c : Map ℤ) × (l : Map (List TxnLogRequest)) × (recover_files files ≡ some (c, l))
unfolding recover_files
recover_files_ends files =
    let (c, e) = read_customers_ends files.cust_rec_text [] in
    let (l, e') = read_log_ends files.log_text [] in (c, l, rw (e, e') refl)
