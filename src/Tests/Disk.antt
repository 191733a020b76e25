-- ===== src/Tests/Disk.antt =====
-- The files of a resource manager as text, at concrete inputs.
use two_phase_commit_protoco.Base.{◌≡◌, refl, true, none, some, List, [], ◌∷◌, arith}
use two_phase_commit_protoco.Base.Int.{ℤ, pos, negsuc}
use two_phase_commit_protoco.Base.Text.{codes}
use two_phase_commit_protoco.Map.{Map, insert}
use two_phase_commit_protoco.Factory.State.{TxnLogRequest, Disk, Factory}
use two_phase_commit_protoco.Factory.Persistence.{replay_log, replay_customers}
use two_phase_commit_protoco.Factory.Start.{make_factory}
use two_phase_commit_protoco.Stream.{emit, print_int, read_int}
use two_phase_commit_protoco.Stream.Rows.{print_row, print_table, read_row, while_rows}
use two_phase_commit_protoco.Factory.Files.{
  Files, insert_fields, read_customers, read_log, recover_files,
}
use two_phase_commit_protoco.Factory.Files.Refines.{Shows, recover_files-Shows, recover_files_ends}
use two_phase_commit_protoco.Stream.Rows.Cut.{whole_rows}
use two_phase_commit_protoco.Base.{map, length, ◌≤◌}
use two_phase_commit_protoco.Factory.Files.{customer_fields, log_fields}
use two_phase_commit_protoco.Factory.Files.Torn.{Front, SameCustomer, SameEntry, recover_torn_files}
use two_phase_commit_protoco.Tests.Data.{manager}

abbrev entry : TxnLogRequest
entry = record {
  txn_id = pos 4;
  txn_operation = pos 1;
  customer_id = pos 0;
  last_order_num = pos 11;
  customer_opr = pos 1;
}

abbrev two_customers : List (ℤ × ℤ)
two_customers = (pos 0, pos 10) ∷ (pos 3, negsuc 11) ∷ []

abbrev disk_rows : Disk
disk_rows = record {
  log_file = some (entry ∷ []);
  cust_rec_file = some two_customers;
  writable = true;
}

abbrev disk_text : Files
disk_text = record {
  log_text = some (codes "4 1 0 11 1\n");
  cust_rec_text = some (codes "0 10\n3 -12\n");
  writable = true;
}

-- What the text of the rows is.
disk_text-Shows : Shows disk_rows disk_text
unfolding print_table print_row print_int emit
disk_text-Shows = record { log = refl; customers = refl; may_write = refl }

spaces_and_signs :
    (read_int (codes "  +07\n") ≡ some (pos 7, codes "\n"))
    × (read_int (codes "2147483648") ≡ none)
    × (read_int (codes "- 1") ≡ none)
unfolding read_int
spaces_and_signs = (refl, refl, refl)

abbrev on_disk : Factory
on_disk = record manager { disk = disk_rows }

recover_files-Shows_example :
    recover_files disk_text
    ≡ some ((make_factory [] disk_rows).customer_record, (make_factory [] disk_rows).txn_log)
recover_files-Shows_example =
    recover_files-Shows [] disk_rows disk_text disk_text-Shows (omega arith) (omega arith)

recover_files_ends_example :
    (c : Map ℤ) × (l : Map (List TxnLogRequest)) × (recover_files disk_text ≡ some (c, l))
recover_files_ends_example = recover_files_ends disk_text

-- The last order of customer 3 is cut off after its first digit, and the log in its last row.
abbrev torn : Files
torn = record {
  log_text = some (codes "4 1 0 11");
  cust_rec_text = some (codes "0 10\n3 -1");
  writable = true;
}

torn_last_order : recover_files torn ≡ some ((pos 0, pos 10) ∷ (pos 3, negsuc 0) ∷ [], [])
unfolding recover_files read_customers read_log while_rows read_row read_int insert_fields insert
torn_last_order = refl

recover_torn_files_example :
    (customers : List (ℤ × ℤ)) × (log : List TxnLogRequest) × (recover_files torn
      ≡ some (replay_customers customers [], replay_log log []))
    × (whole_rows 9 (map customer_fields two_customers) ≤ length customers)
    × Front SameCustomer two_customers customers
    × (whole_rows 8 (map log_fields (entry ∷ [])) ≤ length log)
    × Front SameEntry (entry ∷ []) log
unfolding print_table print_row print_int emit
recover_torn_files_example =
    recover_torn_files two_customers (entry ∷ []) 9 8 torn (omega arith) (omega arith) refl refl
