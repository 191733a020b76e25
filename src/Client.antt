-- ===== src/Client.antt =====
-- ClientThread.cpp and ClientMain.cpp: the reads of a client, its orders and its transaction. The
-- timers are left out. The threads of one stage run one after another.
pub mod Orders
pub mod Commit
pub mod Threads
use two_phase_commit_protoco.Base.{
  ℕ, zero, suc, ◌+◌, ◌%◌, ◌^◌, String, Bool, true, false, ◌&&◌, Option, none, some, List, [], ◌∷◌,
  ◌++◌, length, get_elem?, ltb, if◌then◌else◌,
}
use two_phase_commit_protoco.Base.Int.{
  ℤ, pos, negsuc, pos_part, minus_one, eqb_ℤ, ltb_ℤ, to_word, of_word,
}
use two_phase_commit_protoco.Base.Text.{Text, codes}
use two_phase_commit_protoco.Messages.Order.{CustomerOrder, new_order, set_order}
use two_phase_commit_protoco.Messages.Record.{CustomerRecord}
use two_phase_commit_protoco.Messages.Transaction.{
  Transaction, make_transaction, set_len_read_records, set_len_write_records,
}
use two_phase_commit_protoco.Net.{Net}
use two_phase_commit_protoco.ClientStub.{
  ClientStub, new_stub, init, send_id_msg, read_record, send_txn_prepare_request,
}

-- One line of `main`'s input: `request_type ip port num_customers num_orders`.
pub record Request : Type 0 where
  pub request_type : ℤ
  pub ip : String
  pub port : ℤ
  pub num_customers : ℤ
  pub num_orders : ℤ

-- `i + a` on `int`, with the wrap-around of two's complement.
abbrev pub add_int : ℕ → ℤ → ℤ
add_int i a = of_word ((i + to_word a) % 2 ^ 32)

-- The last order of a customer as the client has read it, by the customer's place among the reads;
-- the comparison with `size()` is unsigned, so that a negative id is out of range.
unfoldable pub last_read : ℤ → List CustomerRecord → Option CustomerRecord
last_read (pos n) reads = get_elem? reads n
last_read (negsuc n) reads = none

-- `setLastOrder`.
unfoldable pub set_last_order_of : ℤ → List CustomerRecord → ℤ
unfolding last_read
set_last_order_of customer_id reads = elim (last_read customer_id reads) [
  | none ↦ pos 0
  | some r ↦ if ltb_ℤ (pos 0) r.last_order then r.last_order else pos 0
]

-- The loop of `ThreadBodyWriteRequest`, with `i` and the rounds that are left.
unfoldable pub write_loop : ℕ → ℕ → ℤ → ℤ → ℤ → List CustomerOrder → List CustomerOrder
write_loop zero i customer_id last type writes = writes
write_loop (suc n) i customer_id last type writes =
    write_loop n (suc i) customer_id last type
      (writes ++ set_order new_order customer_id (add_int i last) type ∷ [])

unfoldable pub thread_body_write_request :
    ℤ → ℤ → ℤ → List CustomerRecord → List CustomerOrder → List CustomerOrder
unfolding set_last_order_of write_loop
thread_body_write_request id orders type reads writes =
    write_loop (pos_part orders) 1 id (set_last_order_of id reads) type writes

-- The write stage of `main`: the threads of the customers from `i` on.
unfoldable pub write_stage :
    ℕ → ℕ → Request → List CustomerRecord → List CustomerOrder → List CustomerOrder
unfolding thread_body_write_request
write_stage zero i req reads writes = writes
write_stage (suc n) i req reads writes =
    write_stage n (suc i) req reads
      (thread_body_write_request (pos i) req.num_orders req.request_type reads writes)

-- The transaction that `main` sends; `g` is what memory holds before.
unfoldable pub client_transaction :
    Transaction → List CustomerRecord → List CustomerOrder → Transaction
client_transaction g reads writes =
    set_len_write_records
      (set_len_read_records (make_transaction g reads writes) (pos (length reads)))
      (pos (length writes))

module _ (net : Net) where
  -- The loop of `ThreadBody`, with `i` and the rounds that are left: it ends after the record of a
  -- customer that is not known, which is kept too.
  unfoldable pub client_read_loop :
      ℕ → ℕ → ℤ → ClientStub → List CustomerRecord → ClientStub × List CustomerRecord
  unfolding read_record
  client_read_loop zero i type stub reads = (stub, reads)
  client_read_loop (suc n) i type stub reads =
      let (r, s) = read_record net (set_order new_order (pos i) minus_one (pos 2)) stub in
      let more = client_read_loop n (suc i) type s (reads ++ r ∷ []) in
      if eqb_ℤ type (pos 3)
      then (if eqb_ℤ r.customer_id minus_one then (s, reads ++ r ∷ []) else more)
      else (stub, reads)

  unfoldable pub thread_body :
      String → ℤ → ℤ → ℤ → List CustomerRecord → ClientStub × List CustomerRecord
  unfolding init send_id_msg client_read_loop
  thread_body ip port orders type reads =
      let (r, s) = init net ip port new_stub in
      let (sent, s1) = send_id_msg net (codes "CLIENT") s in
      if eqb_ℤ r (pos 0)
      then (s, reads)
      else if sent
      then client_read_loop (pos_part orders) 0 type s1 reads
      else (s1, reads)

  -- The single read of `ThreadBodyReadRequestSingle`: the customer's id is `orders`.
  unfoldable pub thread_body_read_request_single :
      String → ℤ → ℤ → ℤ → List CustomerRecord → ClientStub × List CustomerRecord
  unfolding init send_id_msg read_record
  thread_body_read_request_single ip port orders type reads =
      let (r, s) = init net ip port new_stub in
      let (sent, s1) = send_id_msg net (codes "CLIENT") s in
      let (customer, s2) = read_record net (set_order new_order orders minus_one (pos 2)) s1 in
      if eqb_ℤ r (pos 0)
      then (s, reads)
      else if sent
      then (if eqb_ℤ type (pos 3) then (s2, reads ++ customer ∷ []) else (s1, reads))
      else (s1, reads)

  -- The read stage of `main`, thread after thread.
  unfoldable pub read_stage : ℕ → Request → List CustomerRecord → List CustomerRecord
  unfolding thread_body
  read_stage zero req reads = reads
  read_stage (suc n) req reads =
      read_stage n req (thread_body req.ip req.port req.num_orders req.request_type reads).1

  -- `main`: the reads, the orders, and the transaction. The answer is only printed.
  unfoldable pub client_main : Transaction → Request → Request → Text × ClientStub
  unfolding init send_txn_prepare_request read_stage write_stage client_transaction
  client_main g reading writing =
      let reads = read_stage (pos_part reading.num_customers) reading [] in
      let writes = write_stage (pos_part writing.num_customers) 0 writing reads [] in
      send_txn_prepare_request net (client_transaction g reads writes)
        (init net writing.ip writing.port new_stub).1
