-- ===== src/Experiment/Aborts.antt =====
-- What the experiment counts as aborts (Experimental.cpp: `experiment`, `main`).
use two_phase_commit_protoco.Base.{
  ℕ, zero, suc, ◌+◌, ◌*◌, ◌%◌, ◌≤◌, ◌≡◌, refl, ap, ◌∙◌, ◌⊎◌, inl, inr, String, Bool, true, false,
  some, List, ◌∷◌, arith, if◌then◌else◌, Bool-cases,
}
use two_phase_commit_protoco.Base.Int.{ℤ, pos}
use two_phase_commit_protoco.Base.Text.{Text, codes, eqb_text}
use two_phase_commit_protoco.Messages.Transaction.{Transaction}
use two_phase_commit_protoco.Net.{Net, got}
use two_phase_commit_protoco.ClientStub.{new_stub, init, receive, send_txn_prepare_request}
use two_phase_commit_protoco.Experiment.{
  Servers, Draw, experiment, thread_results, count_aborts, rounds, experiment_main,
}

-- What becomes of a client: it does not reach the transaction manager, or it reaches it, there is
-- memory for the transaction, the transaction goes out and an answer comes back. `aborted` says
-- whether the answer is "Failed".
abbrev pub Outcome : Servers → Net → Bool → Type 0
Outcome at net aborted =
    (((net.connect at.tmip at.tmport 0).1 ≡ false) × (aborted ≡ false))
    ⊎ ((fd : ℤ) × (reply : Text) × (net.connect at.tmip at.tmport 0 ≡ (fd, true))
        × (net.mallocs 1 ≡ true)
        × (net.sends fd 1 ≡ true)
        × (net.texts fd 2 ≡ got reply)
        × (aborted ≡ eqb_text reply (codes "Failed")))

abbrev of_abort : Bool → ℤ
of_abort aborted = if aborted then pos 0 else pos 1

unreached_reply :
    (at : Servers) (net : Net) (t : Transaction)
    → (net.connect at.tmip at.tmport 0).1 ≡ false
    → eqb_text
        (send_txn_prepare_request net t (init net at.tmip at.tmport new_stub).1).0
        (codes "Failed")
      ≡ false
unfolding send_txn_prepare_request init
unreached_reply at net t h = elim (Bool-cases (net.mallocs 1)) [
  | inl e ↦ rw (h, e) (unfold eqb_text in refl)
  | inr e ↦ rw (h, e) (unfold eqb_text in refl)
]

reached_reply :
    (at : Servers) (net : Net) (t : Transaction) (fd : ℤ) (reply : Text)
    → net.connect at.tmip at.tmport 0 ≡ (fd, true)
    → net.mallocs 1 ≡ true
    → net.sends fd 1 ≡ true
    → net.texts fd 2 ≡ got reply
    → (send_txn_prepare_request net t (init net at.tmip at.tmport new_stub).1).0 ≡ reply
unfolding send_txn_prepare_request init receive
reached_reply at net t fd reply c m s r = rw (c, m, s, r, receive) refl

experiment-Outcome :
    (at : Servers) (net : Net) (g : Transaction) (orders customer : ℤ) (aborted : Bool)
    → Outcome at net aborted
    → experiment net g at orders customer ≡ of_abort aborted
unfolding experiment
experiment-Outcome at net g orders customer aborted (inl (h, e)) =
    rw (unreached_reply at net _ h, e) refl
experiment-Outcome at net g orders customer aborted (inr (fd, reply, c, m, s, r, e)) =
    rw (reached_reply at net _ fd reply c m s r, e) refl

-- The clients of a round, and of all rounds, that are told "Failed".
abbrev pub aborts_in : (ℕ → Bool) → ℕ → ℕ → ℕ
aborts_in aborted zero j = 0
aborts_in aborted (suc n) j = (if aborted j then 1 else 0) + aborts_in aborted n (suc j)

abbrev pub aborts_over : (ℕ → ℕ → Bool) → ℕ → ℕ → ℕ → ℕ
aborts_over aborted threads zero i = 0
aborts_over aborted threads (suc n) i =
    aborts_in (aborted i) threads 0 + aborts_over aborted threads n (suc i)

module _ (at : Servers) (draws : ℕ → ℕ → Draw) (aborted : ℕ → ℕ → Bool)
    (outcomes : (i j : ℕ) → Outcome at (draws i j).net (aborted i j)) where
  count_round :
      (i n j aborts : ℕ)
      → count_aborts (thread_results at (draws i) n j) aborts ≡ aborts + aborts_in (aborted i) n j
  unfolding thread_results count_aborts
  count_round i zero j aborts = omega arith
  count_round i (suc n) j aborts =
      let d = draws i j in
      let this =
        experiment-Outcome at d.net d.garbage (pos 1) (pos (d.rand % 5)) (aborted i j)
          (outcomes i j) in
      elim (Bool-cases (aborted i j)) [
        | inl e ↦ rw (this, e) (count_round i n (suc j) (aborts + 1) ∙ omega arith)
        | inr e ↦ rw (this, e) (count_round i n (suc j) aborts ∙ omega arith)
      ]

  count_rounds :
      (threads n i aborts : ℕ)
      → rounds at draws threads n i aborts ≡ aborts + aborts_over aborted threads n i
  unfolding rounds
  count_rounds threads zero i aborts = omega arith
  count_rounds threads (suc n) i aborts =
      count_rounds threads n (suc i) (count_aborts (thread_results at (draws i) threads 0) aborts)
      ∙ omega (arith, count_round i threads 0 aborts)

le-aborts_in : (aborted : ℕ → Bool) (n j : ℕ) → aborts_in aborted n j ≤ n
le-aborts_in aborted zero j = omega arith
le-aborts_in aborted (suc n) j = elim (Bool-cases (aborted j)) [
  | inl e ↦ rw e (omega (arith, le-aborts_in aborted n (suc j)))
  | inr e ↦ rw e (omega (arith, le-aborts_in aborted n (suc j)))
]

le-aborts_over :
    (aborted : ℕ → ℕ → Bool) (threads n i : ℕ) → aborts_over aborted threads n i ≤ n * threads
le-aborts_over aborted threads zero i = omega arith
le-aborts_over aborted threads (suc n) i =
    omega (arith, le-aborts_in (aborted i) threads 0, le-aborts_over aborted threads n (suc i))

-- The experiment, with five arguments or more of which the fifth is a natural number of threads,
-- where every client either does not reach the transaction manager or gets an answer from it: it
-- returns the number of clients that were told "Failed", in ten rounds, at most ten times the
-- number of threads. A client that does not reach the transaction manager is not counted as an
-- abort.
pub experiment_main-counts :
    (atoi : String → ℤ) (tmip tmport rmip rmport num_threads : String) (args : List String)
    (draws : ℕ → ℕ → Draw) (aborted : ℕ → ℕ → Bool) (threads : ℕ)
    → atoi num_threads ≡ pos threads
    → let at : Servers = record {
      tmip = tmip;
      tmport = atoi tmport;
      rmip = rmip;
      rmport = atoi rmport;
    } in
      ((i j : ℕ) → Outcome at (draws i j).net (aborted i j))
      → (experiment_main atoi (tmip ∷ tmport ∷ rmip ∷ rmport ∷ num_threads ∷ args) draws
          ≡ some (aborts_over aborted threads 10 0))
        × (aborts_over aborted threads 10 0 ≤ 10 * threads)
unfolding experiment_main
experiment_main-counts atoi tmip tmport rmip rmport num_threads args draws aborted threads e h =
    let total = aborts_over aborted threads 10 0 in
    let from_zero : 0 + total ≡ total = omega arith in
    (
      rw (experiment_main, e) (ap some (count_rounds _ draws aborted h threads 10 0 0 ∙ from_zero)),
      le-aborts_over aborted threads 10 0,
    )
