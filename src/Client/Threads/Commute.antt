-- ===== src/Client/Threads/Commute.antt =====
-- What the client's transaction does to the customers, whatever the order in which its threads take
-- the lock (ClientMain.cpp: the write stage of `main`; ClientThread.cpp: `ThreadBodyWriteRequest`).
use two_phase_commit_protoco.Base.{
  ℕ, zero, suc, ◌≡◌, ◌≢◌, refl, sym, ap, ◌∙◌, inl, inr, true, List, [], ◌∷◌, ◌++◌, All, arith,
  append-nil, append_assoc, subst, Bool-cases,
}
use two_phase_commit_protoco.Base.Int.{ℤ, pos, pos_part, eqb_ℤ, eqb_ℤ_iff}
use two_phase_commit_protoco.Map.{Map, find, put}
use two_phase_commit_protoco.Map.Laws.{find-put_self, find-put_ne}
use two_phase_commit_protoco.Messages.Order.{CustomerOrder, new_order, set_order, is_valid}
use two_phase_commit_protoco.Messages.Record.{CustomerRecord}
use two_phase_commit_protoco.Factory.Persistence.{prepare_records}
use two_phase_commit_protoco.Factory.Manager.Commit.{place}
use two_phase_commit_protoco.Client.{
  Request, set_last_order_of, add_int, write_loop, thread_body_write_request, write_stage,
}
use two_phase_commit_protoco.Client.Threads.{write_threads, push_next, run_schedule}
use two_phase_commit_protoco.Client.Threads.Order.{
  only, all_of, Owned, IsFrom, push_next-append, push_next-IsFrom, push_next-Owned,
  only-run_schedule, none_left,
}

-- Every order is valid.
abbrev AllValid : List CustomerOrder → Type 0
AllValid os = All (λ o. is_valid o ≡ true) os

find-step :
    (c k v : ℤ) (m m' : Map ℤ) → find c m ≡ find c m' → find c (put k v m) ≡ find c (put k v m')
find-step c k v m m' e = elim (Bool-cases (eqb_ℤ k c)) [
  | inl same ↦
      let k_is_c : k ≡ c = (eqb_ℤ_iff k c).0 same in
      ap (λ j. find j (put k v m)) (sym k_is_c)
      ∙ find-put_self k v m
      ∙ sym (find-put_self k v m')
      ∙ ap (λ j. find j (put k v m')) k_is_c
  | inr other ↦
      let ne : k ≢ c = λ q. cc ((eqb_ℤ_iff k c).1 q, other) in
      find-put_ne c k v m ne ∙ e ∙ sym (find-put_ne c k v m' ne)
]

-- The last order of a customer depends on the orders for it, in their order, and no others.
find-only :
    (c id : ℤ) (os : List CustomerOrder) (m m' : Map ℤ)
    → AllValid os
    → find c m ≡ find c m'
    → find c (place (prepare_records id os) m) ≡ find c (place (prepare_records id (only c os)) m')
unfolding prepare_records
find-only c id [] m m' h e = e
find-only c id (o ∷ os) m m' (h, hs) e = elim (Bool-cases (eqb_ℤ o.customer_id c)) [
  | inl mine ↦
      rw (mine, h)
        (find-only c id os (put o.customer_id o.order_number m)
          (put o.customer_id o.order_number m') hs
          (find-step c o.customer_id o.order_number m m' e))
  | inr other ↦
      let ne : o.customer_id ≢ c = λ q. cc ((eqb_ℤ_iff o.customer_id c).1 q, other) in
      rw (other, h)
        (find-only c id os (put o.customer_id o.order_number m) m' hs
          (find-put_ne c o.customer_id o.order_number m ne ∙ e))
]

All-append : {A : Type 0} (P : A → Type 0) (xs ys : List A) → All P xs → All P ys → All P (xs ++ ys)
All-append P [] ys h h' = h'
All-append P (x ∷ xs) ys (h, hs) h' = (h, All-append P xs ys hs h')

run_schedule-IsFrom :
    (schedule : List ℕ) (b : ℕ) (ts : List (List CustomerOrder)) (w : List CustomerOrder)
    → Owned b ts
    → All (IsFrom b) w
    → All (IsFrom b) (run_schedule schedule ts w).1
unfolding run_schedule
run_schedule-IsFrom [] b ts w h v = v
run_schedule-IsFrom (i ∷ schedule) b ts w h v =
    let left = (push_next i ts []).0 in
    let p = (push_next i ts []).1 in
    subst
      (λ (q : List (List CustomerOrder) × List CustomerOrder).
        All (IsFrom b) (run_schedule schedule q.0 q.1).1)
      (sym (push_next-append i ts w))
      (run_schedule-IsFrom schedule b left (w ++ p) (push_next-Owned i b ts h)
        (All-append (IsFrom b) w p v (push_next-IsFrom i b ts h)))

IsFrom-AllValid : (b : ℕ) (os : List CustomerOrder) → All (IsFrom b) os → AllValid os
IsFrom-AllValid b [] h = tt
IsFrom-AllValid b (o ∷ os) ((k, _, e), hs) = (rw e refl, IsFrom-AllValid b os hs)

write_loop-append :
    (n i : ℕ) (c last type : ℤ) (w : List CustomerOrder)
    → write_loop n i c last type w ≡ w ++ write_loop n i c last type []
unfolding write_loop
write_loop-append zero i c last type w = sym (append-nil w)
write_loop-append (suc n) i c last type w =
    let o = set_order new_order c (add_int i last) type in
    write_loop-append n (suc i) c last type (w ++ o ∷ [])
    ∙ append_assoc w (o ∷ []) (write_loop n (suc i) c last type [])
    ∙ ap (λ l. w ++ l) (sym (write_loop-append n (suc i) c last type (o ∷ [])))

write_loop-own :
    (n i : ℕ) (c last type : ℤ) (w : List CustomerOrder)
    → All (λ (o : CustomerOrder). o.customer_id ≡ c) w
    → All (λ (o : CustomerOrder). o.customer_id ≡ c) (write_loop n i c last type w)
unfolding write_loop
write_loop-own zero i c last type w h = h
write_loop-own (suc n) i c last type w h =
    let o = set_order new_order c (add_int i last) type in
    write_loop-own n (suc i) c last type (w ++ o ∷ [])
      (All-append (λ (o : CustomerOrder). o.customer_id ≡ c) w (o ∷ []) h (refl, tt))

write_threads-Owned :
    (n i : ℕ) (req : Request) (reads : List CustomerRecord) → Owned i (write_threads n i req reads)
unfolding write_threads thread_body_write_request
write_threads-Owned zero i req reads = tt
write_threads-Owned (suc n) i req reads = (
  write_loop-own (pos_part req.num_orders) 1 (pos i) _ req.request_type [] tt,
  write_threads-Owned n (suc i) req reads,
)

write_stage-threads :
    (n i : ℕ) (req : Request) (reads : List CustomerRecord) (w : List CustomerOrder)
    → write_stage n i req reads w ≡ w ++ all_of (write_threads n i req reads)
unfolding write_stage write_threads thread_body_write_request
write_stage-threads zero i req reads w = sym (append-nil w)
write_stage-threads (suc n) i req reads w =
    let os = thread_body_write_request (pos i) req.num_orders req.request_type reads [] in
    ap (write_stage n (suc i) req reads) (
      write_loop-append (pos_part req.num_orders) 1 (pos i) (set_last_order_of (pos i) reads)
        req.request_type w)
    ∙ write_stage-threads n (suc i) req reads (w ++ os)
    ∙ append_assoc w os (all_of (write_threads n (suc i) req reads))

Owned-IsFrom : (b : ℕ) (ts : List (List CustomerOrder)) → Owned b ts → All (IsFrom 0) (all_of ts)
Owned-IsFrom b [] h = tt
Owned-IsFrom b (t ∷ ts) (h, hs) =
    All-append (IsFrom 0) t (all_of ts) (own t h) (Owned-IsFrom (suc b) ts hs)
  where
    own :
        (xs : List CustomerOrder)
        → All (λ (o : CustomerOrder). o.customer_id ≡ pos b) xs
        → All (IsFrom 0) xs
    own [] h = tt
    own (o ∷ xs) (h, hs) = ((b, omega arith, h), own xs hs)

-- The threads of the write stage push their orders under a lock, and whoever takes it next, once all
-- of them are done: the transaction, prepared and applied, leaves every customer with the last order
-- that it has if the threads run one after another.
pub run_schedule-any_order :
    (schedule : List ℕ) (n : ℕ) (req : Request) (reads : List CustomerRecord) (c id : ℤ)
    (customers : Map ℤ)
    → All (λ t. t ≡ []) (run_schedule schedule (write_threads n 0 req reads) []).0
    → let writes = (run_schedule schedule (write_threads n 0 req reads) []).1 in
      find c (place (prepare_records id writes) customers)
      ≡ find c (place (prepare_records id (write_stage n 0 req reads [])) customers)
run_schedule-any_order schedule n req reads c id customers done =
    let ts = write_threads n 0 req reads in
    let (left, writes) = run_schedule schedule ts [] in
    let owned = write_threads-Owned n 0 req reads in
    let in_order = write_stage n 0 req reads [] in
    let same_orders : only c writes ≡ only c in_order =
      sym (append-nil (only c writes))
      ∙ ap (λ l. only c writes ++ only c l) (sym (none_left left done))
      ∙ only-run_schedule c schedule 0 ts [] owned
      ∙ ap (only c) (sym (write_stage-threads n 0 req reads [])) in
    let in_order-from : All (IsFrom 0) in_order =
      subst (All (IsFrom 0)) (sym (write_stage-threads n 0 req reads []))
        (Owned-IsFrom 0 ts owned) in
    find-only c id writes customers customers
      (IsFrom-AllValid 0 writes (run_schedule-IsFrom schedule 0 ts [] owned tt)) refl
    ∙ ap (λ l. find c (place (prepare_records id l) customers)) same_orders
    ∙ sym (
        find-only c id in_order customers customers (IsFrom-AllValid 0 in_order in_order-from) refl)
