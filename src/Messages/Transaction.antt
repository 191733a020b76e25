-- ===== src/Messages/Transaction.antt =====
-- `class Transaction` (Messages.h, Messages.cpp).
pub mod RoundTrip
pub mod Wire
use two_phase_commit_protoco.Base.{
  ◌^◌, ◌%◌, ℕ, zero, suc, ◌+◌, ◌*◌, Option, some, List, [], ◌∷◌, ◌++◌, ◌>>=◌,
}
use two_phase_commit_protoco.Base.Int.{to_word, of_word, ℤ, pos_part}
use two_phase_commit_protoco.Word.{htonl, ntohl, store_int, load_int}
use two_phase_commit_protoco.Messages.Order.{CustomerOrder, new_order, set_order}
use two_phase_commit_protoco.Messages.Record.{CustomerRecord, make_record}

pub record Transaction : Type 0 where
  pub txn_id : ℤ
  pub len_read_records : ℤ
  pub len_write_records : ℤ
  pub read_records : List CustomerRecord
  pub write_records : List CustomerOrder

-- The constructors leave the three numbers as they find them: `g` is what they hold.
abbrev pub new_transaction : Transaction → Transaction
new_transaction g = record g { read_records = []; write_records = [] }

abbrev pub make_transaction : Transaction → List CustomerRecord → List CustomerOrder → Transaction
make_transaction g a b = record g { read_records = a; write_records = b }

abbrev pub set_txn_id : Transaction → ℤ → Transaction
set_txn_id this id = record this { txn_id = id }

abbrev pub set_len_read_records : Transaction → ℤ → Transaction
set_len_read_records this len = record this { len_read_records = len }

abbrev pub set_len_write_records : Transaction → ℤ → Transaction
set_len_write_records this len = record this { len_write_records = len }

-- `Size` counts by the two length fields, not by the vectors. The source multiplies in size_t: a
-- negative length is out of what is modelled, and counts as 0.
-- The sum is taken in a `size_t` and returned as an `int`.
unfoldable pub size : Transaction → ℤ
size this =
    of_word (
      (4 + 4 + 4 + 8 * to_word this.len_read_records + 12 * to_word this.len_write_records)
      % 2 ^ 32)

marshal_reads : List CustomerRecord → List ℕ
marshal_reads [] = []
marshal_reads (r ∷ rs) =
    store_int (htonl r.customer_id) ++ (store_int (htonl r.last_order) ++ marshal_reads rs)

marshal_writes : List CustomerOrder → List ℕ
marshal_writes [] = []
marshal_writes (o ∷ os) =
    store_int (htonl o.customer_id)
    ++ (store_int (htonl o.order_number) ++ (store_int (htonl o.request_type) ++ marshal_writes os))

-- The bytes that `Marshal` writes at the front of the buffer.
pub marshal : Transaction → List ℕ
marshal this =
    store_int (htonl this.txn_id)
    ++ (store_int (htonl this.len_read_records)
        ++ (store_int (htonl this.len_write_records)
            ++ (marshal_reads this.read_records ++ marshal_writes this.write_records)))

-- The two loops of `Unmarshal`, with the rounds that are left and the buffer from `offset` on.
unmarshal_reads : ℕ → List CustomerRecord → List ℕ → Option (List CustomerRecord × List ℕ)
unmarshal_reads zero records buffer = some (records, buffer)
unmarshal_reads (suc n) records buffer = do
  (net_customer_id, buffer) ← load_int buffer
  (net_last_order, buffer) ← load_int buffer
  unmarshal_reads n (records ++ make_record (ntohl net_customer_id) (ntohl net_last_order) ∷ [])
      buffer

unmarshal_writes : ℕ → List CustomerOrder → List ℕ → Option (List CustomerOrder × List ℕ)
unmarshal_writes zero records buffer = some (records, buffer)
unmarshal_writes (suc n) records buffer = do
  (net_customer_id, buffer) ← load_int buffer
  (net_order_number, buffer) ← load_int buffer
  (net_request_type, buffer) ← load_int buffer
  let order =
      set_order new_order (ntohl net_customer_id) (ntohl net_order_number) (ntohl net_request_type)
  unmarshal_writes n (records ++ order ∷ []) buffer

-- `none`: the buffer is shorter than what is read. The records are added to those already there.
pub unmarshal : Transaction → List ℕ → Option Transaction
unmarshal this buffer = do
  (net_txn_id, buffer) ← load_int buffer
  (net_len_read_records, buffer) ← load_int buffer
  (net_len_write_records, buffer) ← load_int buffer
  let len_read_records = ntohl net_len_read_records
  let len_write_records = ntohl net_len_write_records
  (reads, buffer) ← unmarshal_reads (pos_part len_read_records) this.read_records buffer
  (writes, buffer) ← unmarshal_writes (pos_part len_write_records) this.write_records buffer
  some (record {
    txn_id = ntohl net_txn_id;
    len_read_records = len_read_records;
    len_write_records = len_write_records;
    read_records = reads;
    write_records = writes;
  })
