-- ===== src/Factory/Files.antt =====
-- The two files of a resource manager as text (ServerThread.cpp: `store_cust_record_txn`,
-- `store_txn_log_record`, `recovery_txn_log`, `recovery_cust_rec`).
pub mod Refines
pub mod Torn
use two_phase_commit_protoco.Base.{
  Bool, Option, none, some, List, [], ◌∷◌, ◌++◌, map, length, suc, ◌>>=◌, if◌then◌else◌,
}
use two_phase_commit_protoco.Base.Int.{ℤ}
use two_phase_commit_protoco.Base.Text.{Text}
use two_phase_commit_protoco.Map.{Map, insert}
use two_phase_commit_protoco.Factory.State.{TxnLogRequest}
use two_phase_commit_protoco.Factory.Persistence.{update_value}
use two_phase_commit_protoco.Stream.Rows.{print_table, while_rows}

-- logFile.txt and custRecFile.txt; `none` is a file that is not there.
pub record Files : Type 0 where
  pub log_text : Option Text
  pub cust_rec_text : Option Text
  pub writable : Bool

-- What is written of an entry, from left to right.
abbrev pub customer_fields : ℤ × ℤ → List ℤ
customer_fields (cust_id, last) = cust_id ∷ last ∷ []

abbrev pub log_fields : TxnLogRequest → List ℤ
log_fields rec =
    rec.txn_id ∷ rec.txn_operation ∷ rec.customer_id ∷ rec.last_order_num ∷ rec.customer_opr ∷ []

abbrev pub text_of : Option Text → Text
text_of none = []
text_of (some t) = t

-- `none` is `exit(1)`.
unfoldable pub write_customers : Map ℤ → Files → Option Files
write_customers customers files =
    if files.writable
    then some (record files { cust_rec_text = some (print_table (map customer_fields customers)) })
    else none

unfoldable pub append_log : List TxnLogRequest → Files → Option Files
append_log recs files =
    if files.writable
    then some (record files {
      log_text = some (text_of files.log_text ++ print_table (map log_fields recs));
    })
    else none

-- What a round of the loops does with the numbers that it has read.
unfoldable pub insert_fields : List ℤ → Map ℤ → Map ℤ
insert_fields (cust_id ∷ last_index ∷ []) d = insert cust_id last_index d
insert_fields _ d = d

unfoldable pub update_fields : List ℤ → Map (List TxnLogRequest) → Map (List TxnLogRequest)
update_fields (txn_id ∷ operation ∷ cust_id ∷ last_index ∷ customer_opr ∷ []) d =
    let rec : TxnLogRequest = record {
      txn_id = txn_id;
      txn_operation = operation;
      customer_id = cust_id;
      last_order_num = last_index;
      customer_opr = customer_opr;
    } in
    (update_value d rec.txn_id rec).1
update_fields _ d = d

-- The loops over the files; `none` is that their fuel, a round for each character, has run out.
unfoldable pub read_customers : Option Text → Map ℤ → Option (Map ℤ)
read_customers none d = some d
read_customers (some t) d = while_rows (suc (length t)) 2 insert_fields t d

unfoldable pub read_log : Option Text → Map (List TxnLogRequest) → Option (Map (List TxnLogRequest))
read_log none d = some d
read_log (some t) d = while_rows (suc (length t)) 5 update_fields t d

-- What the constructor of `LaptopFactory` takes from the files.
unfoldable pub recover_files : Files → Option (Map ℤ × Map (List TxnLogRequest))
recover_files files = do
  customers ← read_customers files.cust_rec_text []
  txn_log ← read_log files.log_text []
  some (customers, txn_log)
