-- ===== src/System/Refines.antt =====
-- The whole system answers its clients as the database that it stands for (TransactionManager.cpp:
-- the loop of `main`; ServerThread.cpp: `EngineerIFAThread`).
use two_phase_commit_protoco.Base.{
  suc, ◌+◌, ◌^◌, ◌<◌, arith, length, ℕ, ◌≡◌, refl, sym, ap, ◌∙◌, ◌⊎◌, inl, inr, some, List, [], ◌∷◌,
  All, subst,
}
use two_phase_commit_protoco.Base.Int.{pos, inc-pos, inc}
use two_phase_commit_protoco.Messages.Replication.{PeerServersInfo}
use two_phase_commit_protoco.Messages.Transaction.{set_txn_id}
use two_phase_commit_protoco.ClientStub.{ClientStub}
use two_phase_commit_protoco.ServerStub.{ServerStub, send_response}
use two_phase_commit_protoco.Factory.State.{Factory}
use two_phase_commit_protoco.TransactionManager.{transaction_manager}
use two_phase_commit_protoco.Factory.Persistence.{prepare_records}
use two_phase_commit_protoco.System.{IsApplied, IsUnchanged}
use two_phase_commit_protoco.System.Atomic.{two_phase_commit-IsAtomic}
use two_phase_commit_protoco.System.Database.{
  order_total, IsOpen, Session, sites, advance, system_run, database_of, AllCurrent, apply_txn,
  Serial, IsSession, AreSessions,
}
use two_phase_commit_protoco.System.Moves.{
  managers_of, advance-Everywhere, applied_database, unchanged_database, sites-AllCurrent,
  AllCurrent-sites, applied-IsOpen, unchanged-IsOpen, Pairs-IsOpen, IsOpen-CanTake,
}

module _ (rms : List PeerServersInfo) where
  -- What one session comes to.
  abbrev StepsTo : Session → ℕ → ℕ → List Factory → Type 0
  StepsTo k id room fs =
      let d = database_of fs in
      let served = record k.stub { input = k.rest } in
      (u : ServerStub) × (told : List ClientStub) × (gs : List Factory) × (transaction_manager k.net
          rms k.stub (pos id)
        ≡ some (u, inc (pos id), told))
      × (advance (sites k fs) told ≡ some gs)
      × All (IsOpen (suc id) room) gs
      × ((AllCurrent k.txn d
            × (u ≡ send_response "Success" served)
            × (database_of gs ≡ apply_txn (pos id) k.txn d))
          ⊎ ((¬ AllCurrent k.txn d) × (u ≡ send_response "Failed" served) × (database_of gs ≡ d)))

  session-StepsTo :
      (k : Session) (id room : ℕ) (fs : List Factory)
      → IsSession rms k (pos id) fs
      → All (IsOpen id (length (prepare_records (pos id) k.txn.write_records) + room)) fs
      → StepsTo k id room fs
  session-StepsTo k id room fs h v =
      let t = set_txn_id k.txn (pos id) in
      let used = length (prepare_records (pos id) k.txn.write_records) in
      let cs = sites k fs in
      let open_managers = subst (All (IsOpen id (used + room))) (sym h.everyone) v in
      let (u, told, runs, atomic) =
        two_phase_commit-IsAtomic k.net rms k.stub (pos id) k.txn k.rest cs h.arrives h.mallocs
          h.connected h.linked (IsOpen-CanTake id room k.txn cs open_managers) in
      elim atomic [
        | inl (cur, answer, everywhere) ↦
            let (gs, moves, pairs) = advance-Everywhere (IsApplied t) cs told everywhere in
            (
              u,
              told,
              gs,
              runs,
              moves,
              Pairs-IsOpen (IsApplied t) id (used + room) (suc id) room (managers_of cs) gs
                  (λ f g. applied-IsOpen id room k.txn f g) open_managers pairs,
              inl (
                subst (λ ms. AllCurrent k.txn (database_of ms)) h.everyone
                    (sites-AllCurrent t cs cur),
                answer,
                applied_database t (managers_of cs) gs pairs
                    ∙ ap (λ ms. apply_txn (pos id) k.txn (database_of ms)) h.everyone,
              ),
            )
        | inr (stale, answer, everywhere) ↦
            let (gs, moves, pairs) = advance-Everywhere (IsUnchanged t) cs told everywhere in
            (
              u,
              told,
              gs,
              runs,
              moves,
              Pairs-IsOpen (IsUnchanged t) id (used + room) (suc id) room (managers_of cs) gs
                  (λ f g. unchanged-IsOpen id room used k.txn f g) open_managers pairs,
              inr (
                λ cur. stale (
                    AllCurrent-sites t cs
                      (subst (λ ms. AllCurrent k.txn (database_of ms)) (sym h.everyone) cur)),
                answer,
                unchanged_database t (managers_of cs) gs pairs ∙ ap database_of h.everyone,
              ),
            )
      ]

  -- The transaction manager with its resource managers, over any number of clients, one after
  -- another, whose transactions arrive and find every resource manager reached, over connections that
  -- hand over what is sent. Let nothing be pending at the resource managers at first, let them have
  -- seen no id from the first one on, and have room in their logs for all orders, and let the ids be
  -- `int`s. Then the system serves all clients, and its answers and the customers at its resource
  -- managers are those of a database that takes one whole transaction at a time, with the answer
  -- "Success", if all that it has read is current at every resource manager, and leaves it out, with
  -- the answer "Failed", if not.
  pub system_run-Serial :
      (ks : List Session) (id : ℕ) (fs : List Factory)
      → id + length ks < 2 ^ 31
      → All (IsOpen id (order_total ks (pos id))) fs
      → AreSessions rms ks (pos id) fs
      → (us : List ServerStub) × (last : List Factory) × (system_run rms ks (pos id) fs
          ≡ some (us, last))
        × Serial ks (pos id) (database_of fs) us (database_of last)
  unfolding system_run
  system_run-Serial [] id fs ints v h = ([], fs, refl, (refl, refl))
  system_run-Serial (k ∷ ks) id fs ints v (h, after) =
      let next : inc (pos id) ≡ pos (suc id) = inc-pos id (omega arith) ∙ ap pos (omega arith) in
      let (u, told, gs, runs, moves, open_next, outcome) =
        session-StepsTo k id (order_total ks (inc (pos id))) fs h v in
      let sessions = subst (λ n. AreSessions rms ks n gs) next (after u _ told gs runs moves) in
      let open_managers = subst (λ n. All (IsOpen (suc id) (order_total ks n)) gs) next open_next in
      let (us, last, rest, serial) =
        system_run-Serial ks (suc id) gs (omega arith) open_managers sessions in
      let from_here =
        subst (λ n. Serial ks n (database_of gs) us (database_of last)) (sym next) serial in
      let ends = subst (λ n. system_run rms ks n gs ≡ some (us, last)) (sym next) rest in
      (
        u ∷ us,
        last,
        rw (runs, moves, ends) refl,
        elim outcome [
          | inl (cur, answer, d) ↦ inl (
            cur,
            answer,
            subst (λ x. Serial ks (inc (pos id)) x us (database_of last)) d from_here,
          )
          | inr (stale, answer, d) ↦ inr (
            stale,
            answer,
            subst (λ x. Serial ks (inc (pos id)) x us (database_of last)) d from_here,
          )
        ],
      )
