-- ===== src/Client/Orders.antt =====
-- The orders of a client (ClientThread.cpp: `ThreadBodyWriteRequest`), from what it has read to what
-- a commit of them leaves, and its transaction on the wire (ClientMain.cpp, Messages.cpp).
use two_phase_commit_protoco.Base.{
  ◌≤◌, ℕ, zero, suc, ◌+◌, ◌^◌, ◌<◌, ◌≡◌, sym, ap, ◌∙◌, true, some, List, [], ◌∷◌, ◌++◌, append-nil,
  append_assoc, arith,
}
use two_phase_commit_protoco.Base.Int.{ℤ, pos}
use two_phase_commit_protoco.Map.{Map, find, put}
use two_phase_commit_protoco.Map.Laws.{find-put_self}
use two_phase_commit_protoco.Messages.Order.{CustomerOrder, is_valid}
use two_phase_commit_protoco.Messages.Record.{CustomerRecord}
use two_phase_commit_protoco.Factory.Persistence.{prepare_records}
use two_phase_commit_protoco.Factory.Manager.Commit.{place}
use two_phase_commit_protoco.Client.{
  add_int, last_read, set_last_order_of, write_loop, thread_body_write_request,
}

-- `n` orders of a customer, numbered from `m` + `i` on.
abbrev pub numbered : ℕ → ℕ → ℤ → ℤ → ℕ → List CustomerOrder
numbered zero i c type m = []
numbered (suc n) i c type m =
    record { customer_id = c; order_number = pos (i + m); request_type = type }
    ∷ numbered n (suc i) c type m

add_int-pos : (i m : ℕ) → i + m < 2 ^ 31 → add_int i (pos m) ≡ pos (i + m)
add_int-pos i m h = ground arith

write_loop-numbered :
    (n i m : ℕ) (c type : ℤ) (writes : List CustomerOrder)
    → i + n + m ≤ 2 ^ 31
    → write_loop n i c (pos m) type writes ≡ writes ++ numbered n i c type m
unfolding write_loop
write_loop-numbered zero i m c type writes h = sym (append-nil writes)
write_loop-numbered (suc n) i m c type writes h =
    rw (add_int-pos i m (omega arith))
      (write_loop-numbered n (suc i) m c type _ (omega arith) ∙ append_assoc writes _ _)

last-pos :
    (c : ℤ) (reads : List CustomerRecord) (r : CustomerRecord) (m : ℕ)
    → last_read c reads ≡ some r
    → r.last_order ≡ pos m
    → set_last_order_of c reads ≡ pos m
unfolding set_last_order_of
last-pos c reads r m e h = ground arith

-- A client that has read the last order `m` of a customer and makes `n` orders numbers them from
-- `m` + 1 to `m` + `n`, as long as these are `int`s.
thread_body_write_request-numbered :
    (c type : ℤ) (n m : ℕ) (reads : List CustomerRecord) (writes : List CustomerOrder)
    (r : CustomerRecord)
    → last_read c reads ≡ some r
    → r.last_order ≡ pos m
    → 1 + n + m ≤ 2 ^ 31
    → thread_body_write_request c (pos n) type reads writes ≡ writes ++ numbered n 1 c type m
unfolding thread_body_write_request
thread_body_write_request-numbered c type n m reads writes r e h room =
    rw (last-pos c reads r m e h) (write_loop-numbered n 1 m c type writes room)

find-place-numbered :
    (id c type : ℤ) (n i m k : ℕ) (customers : Map ℤ)
    → is_valid (record { customer_id = c; order_number = pos 0; request_type = type }) ≡ true
    → n + i + m ≡ k
    → find c
        (place (prepare_records id (numbered n (suc i) c type m)) (put c (pos (i + m)) customers))
      ≡ some (pos k)
unfolding prepare_records
find-place-numbered id c type zero i m k customers valid e =
    let same : i + m ≡ k = omega arith in
    find-put_self c (pos (i + m)) customers ∙ ap (λ (j : ℕ). some (pos j)) same
find-place-numbered id c type (suc n) i m k customers valid e = rw valid (
    find-place-numbered id c type n (suc i) m k (put c (pos (i + m)) customers) valid (omega arith))

-- A client that has read the last order `m` of a customer and makes `n` + 1 orders, which are all
-- that its transaction writes: once they have been prepared and applied, the customer's last order
-- is `m` + `n` + 1, as long as that is an `int` and the customer's id is not -1.
pub orders_reach :
    (id c type : ℤ) (n m : ℕ) (reads : List CustomerRecord) (r : CustomerRecord) (customers : Map ℤ)
    → last_read c reads ≡ some r
    → r.last_order ≡ pos m
    → is_valid (record { customer_id = c; order_number = pos 0; request_type = type }) ≡ true
    → 1 + suc n + m ≤ 2 ^ 31
    → let writes = thread_body_write_request c (pos (suc n)) type reads [] in
      find c (place (prepare_records id writes) customers) ≡ some (pos (m + n + 1))
unfolding prepare_records
orders_reach id c type n m reads r customers e h valid room =
    rw (thread_body_write_request-numbered c type (suc n) m reads [] r e h room)
      (rw valid (find-place-numbered id c type n 1 m (m + n + 1) customers valid (omega arith)))
