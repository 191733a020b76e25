-- ===== src/Messages/Transaction/Wire.antt =====
-- What a transaction looks like on the wire (Messages.cpp: `Transaction::Marshal`).
use two_phase_commit_protoco.Base.{
  ℕ, ◌/◌, ◌%◌, ◌^◌, ◌≡◌, refl, ap, List, [], ◌∷◌, ◌++◌, append_assoc,
}
use two_phase_commit_protoco.Base.Int.{ℤ, to_word}
use two_phase_commit_protoco.Word.{htonl, store_int, store-htonl}
use two_phase_commit_protoco.Messages.Order.{CustomerOrder}
use two_phase_commit_protoco.Messages.Record.{CustomerRecord}
use two_phase_commit_protoco.Messages.Transaction.{
  Transaction, marshal, marshal_reads, marshal_writes,
}

-- The bytes of words in two's complement, the most significant byte of each first.
abbrev pub network_bytes : List ℤ → List ℕ
network_bytes [] = []
network_bytes (a ∷ bs) =
    let w = to_word a in
    w / 2 ^ 24 % 256 ∷ w / 2 ^ 16 % 256 ∷ w / 2 ^ 8 % 256 ∷ w % 256 ∷ network_bytes bs

abbrev pub fields_of_reads : List CustomerRecord → List ℤ
fields_of_reads [] = []
fields_of_reads (r ∷ rs) = r.customer_id ∷ r.last_order ∷ fields_of_reads rs

abbrev pub fields_of_writes : List CustomerOrder → List ℤ
fields_of_writes [] = []
fields_of_writes (o ∷ os) = o.customer_id ∷ o.order_number ∷ o.request_type ∷ fields_of_writes os

-- All fields of a transaction, the numbers before the records.
abbrev pub fields_of : Transaction → List ℤ
fields_of t =
    t.txn_id
    ∷ t.len_read_records
    ∷ t.len_write_records
    ∷ (fields_of_reads t.read_records ++ fields_of_writes t.write_records)

store_first :
    (a : ℤ) (bs : List ℤ) → store_int (htonl a) ++ network_bytes bs ≡ network_bytes (a ∷ bs)
store_first a bs = ap (λ (l : List ℕ). l ++ network_bytes bs) (store-htonl a)

writes_bytes : (os : List CustomerOrder) → marshal_writes os ≡ network_bytes (fields_of_writes os)
unfolding marshal_writes
writes_bytes [] = refl
writes_bytes (o ∷ os) = simp (writes_bytes os, store_first)

reads_bytes :
    (rs : List CustomerRecord) (os : List CustomerOrder)
    → marshal_reads rs ++ marshal_writes os
      ≡ network_bytes (fields_of_reads rs ++ fields_of_writes os)
unfolding marshal_reads
reads_bytes [] os = writes_bytes os
reads_bytes (r ∷ rs) os = simp (append_assoc, reads_bytes rs os, store_first)

-- `Marshal` writes the fields of a transaction one after another, the id and the two lengths, then
-- the reads and then the writes, each one as a word of four bytes in network order.
pub marshal-fields : (t : Transaction) → marshal t ≡ network_bytes (fields_of t)
unfolding marshal
marshal-fields t = simp (reads_bytes t.read_records t.write_records, store_first)
