-- ===== src/Factory/Serve/Reads.antt =====
-- The reads of a client (ServerThread.cpp: `ReadEngineerFlow`), and the vote on them (`TMPrepare`).
use two_phase_commit_protoco.Base.{
  ℕ, zero, suc, ◌<◌, ◌≡◌, refl, ap, ◌∙◌, inl, inr, true, none, some, List, [], ◌∷◌, ◌++◌, map,
  length, length-map, append-nil, append_assoc, arith, All, Option-cases,
}
use two_phase_commit_protoco.Base.Int.{ℤ, pos, minus_one}
use two_phase_commit_protoco.Map.{Map, find}
use two_phase_commit_protoco.Messages.Order.{CustomerOrder, is_valid}
use two_phase_commit_protoco.Messages.Transaction.{Transaction}
use two_phase_commit_protoco.Net
use two_phase_commit_protoco.Net.{Net, Message, Answer, failed, closed, got}
use two_phase_commit_protoco.ServerStub.{ServerStub, send_response, return_record}
use two_phase_commit_protoco.Factory.State.{Factory}
use two_phase_commit_protoco.Factory.Manager.{tm_prepare}
use two_phase_commit_protoco.Factory.Manager.Vote.{Current, prepared, tm_prepare_ok}
use two_phase_commit_protoco.Factory.Serve.{
  customer_answer, serve_read, read_loop, read_engineer_flow,
}

-- A read request that does not stand for the end of the connection.
abbrev pub IsRead : CustomerOrder → Type 0
IsRead o = (is_valid o ≡ true) × (o.request_type ≡ pos 2)

abbrev pub answers : Map ℤ → List CustomerOrder → List Message
answers customers os = map (λ o. Net.customer (customer_answer customers o)) os

read_step :
    (n : ℕ) (customers : Map ℤ) (s : ServerStub) (o : CustomerOrder) (ms : List Message)
    → s.input ≡ Net.order o ∷ ms
    → IsRead o
    → read_loop (suc n) customers s
      ≡ read_loop n customers
          (return_record (customer_answer customers o) (record s { input = ms }))
unfolding read_loop serve_read
read_step n customers s o ms e (valid, type) = ground arith

read_end :
    (n : ℕ) (customers : Map ℤ) (s : ServerStub)
    → s.input ≡ []
    → read_loop (suc n) customers s ≡ some s
unfolding read_loop
read_end n customers s e = ground arith

read_loop-answers :
    (os : List CustomerOrder) (n : ℕ) (customers : Map ℤ) (s : ServerStub)
    → s.input ≡ map Net.order os
    → All IsRead os
    → length os < n
    → read_loop n customers s
      ≡ some (record s { input = []; replies = s.replies ++ answers customers os })
read_loop-answers os zero customers s e h lt = absurd (omega arith)
read_loop-answers [] (suc n) customers s e h lt =
    read_end n customers s e
    ∙ ap (λ (l : List Message). some (record s { input = l })) e
    ∙ rw append-nil refl
read_loop-answers (o ∷ os) (suc n) customers s e (h, hs) lt =
    read_step n customers s o (map Net.order os) e h
    ∙ read_loop-answers os n customers
        (return_record (customer_answer customers o) (record s { input = map Net.order os })) refl
        hs (omega arith)
    ∙ ap (λ (l : List Message). some (record s { input = []; replies = l }))
        (append_assoc s.replies (Net.customer (customer_answer customers o) ∷ [])
          (answers customers os))

-- The read flow on a stream of read requests ends and answers each one in order.
pub read_engineer_flow-answers :
    (os : List CustomerOrder) (customers : Map ℤ) (s : ServerStub)
    → s.input ≡ map Net.order os
    → All IsRead os
    → read_engineer_flow customers s
      ≡ some (record s { input = []; replies = s.replies ++ answers customers os })
unfolding read_engineer_flow
read_engineer_flow-answers os customers s e h =
    read_loop-answers os (suc (length s.input)) customers s e h
      (omega (arith, ap length e, length-map os Net.order))

answer-Current :
    (customers : Map ℤ) (o : CustomerOrder)
    → find minus_one customers ≡ none
    → Current customers (customer_answer customers o)
unfolding customer_answer
answer-Current customers o h = elim (Option-cases (find o.customer_id customers)) [
  | inl e ↦ rw (e, customer_answer) (inl h)
  | inr (last, e) ↦ rw (e, customer_answer) (inr e)
]

answers-Current :
    (customers : Map ℤ) (os : List CustomerOrder)
    → find minus_one customers ≡ none
    → All (Current customers) (map (customer_answer customers) os)
answers-Current customers [] h = tt
answers-Current customers (o ∷ os) h =
    (answer-Current customers o h, answers-Current customers os h)

-- A client that reads and then sends a transaction with the answers, with no write in between, is
-- voted "Ok", where no customer has the id -1, the log file can be opened and there is memory to
-- receive the transaction: the read flow over the connection `s` ends with the answers, and the
-- prepare over `u` with the vote.
pub read_then_prepare :
    (net : Net) (f : Factory) (s u : ServerStub) (os : List CustomerOrder) (t : Transaction)
    (ms : List Message)
    → find minus_one f.customer_record ≡ none
    → f.disk.writable ≡ true
    → s.input ≡ map Net.order os
    → All IsRead os
    → u.input ≡ Net.txn t ∷ ms
    → u.mallocs ≡ true
    → t.read_records ≡ map (customer_answer f.customer_record) os
    → (read_engineer_flow f.customer_record s
        ≡ some (record s { input = []; replies = s.replies ++ answers f.customer_record os }))
      × (tm_prepare net u f ≡ some (send_response "Ok" (record u { input = ms }), prepared net t f))
read_then_prepare net f s u os t ms no_one w e reads e1 m same = (
  read_engineer_flow-answers os f.customer_record s e reads,
  tm_prepare_ok net u f t ms e1 m w (rw same (answers-Current f.customer_record os no_one)),
)
