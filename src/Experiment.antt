-- ===== src/Experiment.antt =====
-- Experimental.cpp: the program that measures how many transactions are aborted. Each client reads
-- one customer, makes its orders and sends its transaction; the threads of a round run one after
-- another here.
pub mod Aborts
pub mod Orders
use two_phase_commit_protoco.Base.{
  ℕ, zero, suc, ◌+◌, ◌%◌, String, Option, none, some, List, [], ◌∷◌, ◌++◌, ◌>>=◌, if◌then◌else◌,
}
use two_phase_commit_protoco.Base.Int.{ℤ, pos, negsuc, eqb_ℤ}
use two_phase_commit_protoco.Base.Text.{codes, eqb_text}
use two_phase_commit_protoco.Messages.Transaction.{Transaction}
use two_phase_commit_protoco.Net.{Net}
use two_phase_commit_protoco.ClientStub.{new_stub, init, send_txn_prepare_request}
use two_phase_commit_protoco.Client.{
  thread_body_write_request, thread_body_read_request_single, client_transaction,
}

-- Where the two servers are: `tmip`, `tmport`, `rmip`, `rmport`.
pub record Servers : Type 0 where
  pub tmip : String
  pub tmport : ℤ
  pub rmip : String
  pub rmport : ℤ

-- `experiment`: what it sets `output` to, 0 for a transaction that has failed and 1 otherwise; `g`
-- is what memory holds where the transaction is.
unfoldable pub experiment : Net → Transaction → Servers → ℤ → ℤ → ℤ
experiment net g at num_orders curr_customer =
    let reads =
      (thread_body_read_request_single net at.rmip at.rmport curr_customer (pos 3) []).1 in
    let writes = thread_body_write_request curr_customer num_orders (pos 1) reads [] in
    let (result, stub) =
      send_txn_prepare_request net (client_transaction g reads writes)
        (init net at.tmip at.tmport new_stub).1 in
    if eqb_text result (codes "Failed") then pos 0 else pos 1

-- What a thread of a round meets: its network, its memory, and what `rand` returns for it.
pub record Draw : Type 0 where
  pub net : Net
  pub garbage : Transaction
  pub rand : ℕ

-- The loop over the threads, from thread `i` on, with `num_orders` 1 and `num_customers` 5.
unfoldable pub thread_results : Servers → (ℕ → Draw) → ℕ → ℕ → List ℤ
unfolding experiment
thread_results at draws zero i = []
thread_results at draws (suc n) i =
    let d = draws i in
    experiment d.net d.garbage at (pos 1) (pos (d.rand % 5)) ∷ thread_results at draws n (suc i)

-- The loop over `results_vector`; the `int` that it counts in is taken to be large enough.
unfoldable pub count_aborts : List ℤ → ℕ → ℕ
count_aborts [] aborts = aborts
count_aborts (result ∷ results) aborts =
    let rest = count_aborts results (aborts + 1) in
    let same = count_aborts results aborts in if eqb_ℤ result (pos 0) then rest else same

-- The loop over the rounds, from round `i` on.
unfoldable pub rounds : Servers → (ℕ → ℕ → Draw) → ℕ → ℕ → ℕ → ℕ → ℕ
unfolding thread_results count_aborts
rounds at draws threads zero i aborts = aborts
rounds at draws threads (suc n) i aborts =
    rounds at draws threads n (suc i) (count_aborts (thread_results at (draws i) threads 0) aborts)

-- `main` on `argv` after the name of the program: the number of aborts in ten rounds, of which the
-- rate is printed. `none` is a read past the end of `argv`, or a vector of negative length.
unfoldable pub experiment_main : (String → ℤ) → List String → (ℕ → ℕ → Draw) → Option ℕ
unfolding rounds
experiment_main atoi (tmip ∷ tmport ∷ rmip ∷ rmport ∷ num_threads ∷ args) draws =
    let at : Servers = record {
      tmip = tmip;
      tmport = atoi tmport;
      rmip = rmip;
      rmport = atoi rmport;
    } in
    elim (atoi num_threads) [
      | pos threads ↦ some (rounds at draws threads 10 0 0)
      | negsuc n ↦ none
    ]
experiment_main atoi _ draws = none
