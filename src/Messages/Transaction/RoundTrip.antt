-- ===== src/Messages/Transaction/RoundTrip.antt =====
-- `Transaction::Unmarshal` after `Transaction::Marshal` (Messages.cpp), and the length of both.
use two_phase_commit_protoco.Base.{
  ℕ, ◌+◌, ◌%◌, ap, ◌*◌, ◌^◌, ◌<◌, ◌≡◌, refl, ◌∙◌, some, List, [], ◌∷◌, ◌++◌, append-nil,
  append_assoc, arith, length, length-append, All,
}
use two_phase_commit_protoco.Base.Int.{ℤ, pos, IsInt32, of_word}
use two_phase_commit_protoco.Word.{store_int, wire_laws, ntohl-htonl}
use two_phase_commit_protoco.Messages.Order.{CustomerOrder}
use two_phase_commit_protoco.Messages.Record.{CustomerRecord}
use two_phase_commit_protoco.Messages.Transaction.{
  Transaction, new_transaction, size, marshal, marshal_reads, marshal_writes, unmarshal,
  unmarshal_reads, unmarshal_writes,
}

abbrev pub RecordInRange : CustomerRecord → Type 0
RecordInRange r = IsInt32 r.customer_id × IsInt32 r.last_order

abbrev pub OrderInRange : CustomerOrder → Type 0
OrderInRange o = IsInt32 o.customer_id × IsInt32 o.order_number × IsInt32 o.request_type

-- The fields are `int`s, and the length fields count the records, as the clients set them.
pub record IsConsistent (t : Transaction) : Type 0 where
  pub id_range : IsInt32 t.txn_id
  pub len_reads : t.len_read_records ≡ pos (length t.read_records)
  pub len_writes : t.len_write_records ≡ pos (length t.write_records)
  pub few_reads : length t.read_records < 2 ^ 31
  pub few_writes : length t.write_records < 2 ^ 31
  pub reads_range : All RecordInRange t.read_records
  pub writes_range : All OrderInRange t.write_records

unmarshal_reads-marshal_reads :
    (rs done : List CustomerRecord) (rest : List ℕ)
    → All RecordInRange rs
    → unmarshal_reads (length rs) done (marshal_reads rs ++ rest) ≡ some (done ++ rs, rest)
unfolding unmarshal_reads marshal_reads
unmarshal_reads-marshal_reads [] done rest h = simp append-nil
unmarshal_reads-marshal_reads (r ∷ rs) done rest (h, hs) =
    simp (wire_laws, ntohl-htonl r.customer_id h.0, ntohl-htonl r.last_order h.1)
      (unmarshal_reads-marshal_reads rs (done ++ r ∷ []) rest hs ∙ simp append_assoc)

unmarshal_writes-marshal_writes :
    (os done : List CustomerOrder) (rest : List ℕ)
    → All OrderInRange os
    → unmarshal_writes (length os) done (marshal_writes os ++ rest) ≡ some (done ++ os, rest)
unfolding unmarshal_writes marshal_writes
unmarshal_writes-marshal_writes [] done rest h = simp append-nil
unmarshal_writes-marshal_writes (o ∷ os) done rest (h, hs) =
    simp
      (
        wire_laws,
        ntohl-htonl o.customer_id h.0,
        ntohl-htonl o.order_number h.1,
        ntohl-htonl o.request_type h.2,
      )
      (unmarshal_writes-marshal_writes os (done ++ o ∷ []) rest hs ∙ simp append_assoc)

unmarshal_records :
    (rs : List CustomerRecord) (os : List CustomerOrder) (rest : List ℕ)
    → All RecordInRange rs
    → unmarshal_reads (length rs) [] (marshal_reads rs ++ (marshal_writes os ++ rest))
      ≡ some (rs, marshal_writes os ++ rest)
unmarshal_records rs os rest h = unmarshal_reads-marshal_reads rs [] (marshal_writes os ++ rest) h

length-int : (a : ℕ) → a < 2 ^ 31 → IsInt32 (pos a)
length-int a h = omega arith

-- Reading back, into an empty transaction, what a consistent transaction was written as gives that
-- transaction, whatever bytes follow it in the buffer.
pub unmarshal-marshal :
    (g t : Transaction) (rest : List ℕ)
    → IsConsistent t
    → unmarshal (new_transaction g) (marshal t ++ rest) ≡ some t
unfolding unmarshal marshal
unmarshal-marshal g t rest c =
    simp
      (
        wire_laws,
        ntohl-htonl t.txn_id c.id_range,
        c.len_reads,
        c.len_writes,
        ntohl-htonl (pos (length t.read_records)) (length-int _ c.few_reads),
        ntohl-htonl (pos (length t.write_records)) (length-int _ c.few_writes),
        unmarshal_reads-marshal_reads t.read_records [] (marshal_writes t.write_records ++ rest)
            c.reads_range,
        unmarshal_writes-marshal_writes t.write_records [] rest c.writes_range,
      )
      (rw (← c.len_reads, ← c.len_writes))

length-store_int : (a : ℤ) → length (store_int a) ≡ 4
unfolding store_int
length-store_int a = refl

ruleset sizes = (length-append, length-store_int)

length-marshal_reads : (rs : List CustomerRecord) → length (marshal_reads rs) ≡ 8 * length rs
unfolding marshal_reads
length-marshal_reads [] = omega arith
length-marshal_reads (r ∷ rs) = simp sizes (omega (arith, length-marshal_reads rs))

length-marshal_writes : (os : List CustomerOrder) → length (marshal_writes os) ≡ 12 * length os
unfolding marshal_writes
length-marshal_writes [] = omega arith
length-marshal_writes (o ∷ os) = simp sizes (omega (arith, length-marshal_writes os))

-- `Marshal` writes 12 bytes, 8 for each read and 12 for each write, where the length fields count the
-- records, and `Size` is the `int` that this number wraps round to: the number itself below 2^31.
pub length-marshal :
    (t : Transaction)
    → IsConsistent t
    → let n = length (marshal t) in
      (n ≡ 12 + 8 * length t.read_records + 12 * length t.write_records)
      × (size t ≡ of_word (n % 2 ^ 32))
unfolding marshal size
length-marshal t c =
    let bytes : length (marshal t) ≡ 12 + 8 * length t.read_records + 12 * length t.write_records =
      simp (sizes, length-marshal_reads, length-marshal_writes) (omega arith) in
    (
      bytes,
      rw (bytes, c.len_reads, c.len_writes) (ap of_word (omega (arith, c.few_reads, c.few_writes))),
    )
