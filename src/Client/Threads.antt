-- ===== src/Client/Threads.antt =====
-- The write stage of the client with its threads at work at the same time (ClientMain.cpp: the loop
-- over the threads; ClientThread.cpp: `ThreadBodyWriteRequest`): each one takes the lock for each of
-- its orders, and a schedule says who takes it next.
pub mod Order
pub mod Commute
use two_phase_commit_protoco.Base.{ℕ, zero, suc, List, [], ◌∷◌, ◌++◌}
use two_phase_commit_protoco.Base.Int.{ℤ, pos}
use two_phase_commit_protoco.Messages.Order.{CustomerOrder}
use two_phase_commit_protoco.Messages.Record.{CustomerRecord}
use two_phase_commit_protoco.Client.{Request, thread_body_write_request}

-- What each thread, from thread `i` on, will push.
unfoldable pub write_threads : ℕ → ℕ → Request → List CustomerRecord → List (List CustomerOrder)
write_threads zero i req reads = []
write_threads (suc n) i req reads =
    thread_body_write_request (pos i) req.num_orders req.request_type reads []
    ∷ write_threads n (suc i) req reads

-- Thread `i` has the lock: it pushes its next order, if it has one left.
unfoldable pub push_next :
    ℕ
    → List (List CustomerOrder)
    → List CustomerOrder
    → List (List CustomerOrder) × List CustomerOrder
push_next i [] writes = ([], writes)
push_next zero ([] ∷ threads) writes = ([] ∷ threads, writes)
push_next zero ((order ∷ orders) ∷ threads) writes = (orders ∷ threads, writes ++ order ∷ [])
push_next (suc i) (thread ∷ threads) writes =
    let (left, pushed) = push_next i threads writes in (thread ∷ left, pushed)

unfoldable pub run_schedule :
    List ℕ
    → List (List CustomerOrder)
    → List CustomerOrder
    → List (List CustomerOrder) × List CustomerOrder
run_schedule [] threads writes = (threads, writes)
run_schedule (i ∷ schedule) threads writes =
    let (left, pushed) = push_next i threads writes in run_schedule schedule left pushed
