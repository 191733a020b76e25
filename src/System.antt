-- ===== src/System.antt =====
-- The transaction manager and the resource managers that it talks to, taken together
-- (TransactionManager.cpp: `transaction_manager`; ServerThread.cpp: `EngineerIFAThread`): what a
-- node sends is what the manager at the other end of its connection reads, and what this one
-- replies is what the node reads.
pub mod Runs
pub mod Voting
pub mod Atomic
pub mod Database
pub mod Moves
pub mod Refines
use two_phase_commit_protoco.Base.{
  ℕ, ◌+◌, ◌^◌, ◌≤◌, ◌≡◌, ◌≢◌, ◌⊎◌, true, Option, none, some, List, [], ◌∷◌, ◌++◌, length,
}
use two_phase_commit_protoco.Base.Int.{ℤ}
use two_phase_commit_protoco.Base.Text.{Text, codes}
use two_phase_commit_protoco.Map.{find}
use two_phase_commit_protoco.Messages.Transaction.{Transaction}
use two_phase_commit_protoco.Net
use two_phase_commit_protoco.Net.{Net, Message, Answer, failed, closed, got}
use two_phase_commit_protoco.ClientStub.{ClientStub}
use two_phase_commit_protoco.ServerStub.{ServerStub}
use two_phase_commit_protoco.Factory.State.{Factory}
use two_phase_commit_protoco.Factory.Persistence.{prepare_records}
use two_phase_commit_protoco.Factory.Manager.Commit.{place}
use two_phase_commit_protoco.Factory.Ready.{IsReady}
use two_phase_commit_protoco.TransactionManager.Told.{KeepsOpen}
use two_phase_commit_protoco.Factory.Serve.{Role, unknown, role_of, engineer_ifa_thread}

-- A node of the transaction manager, the resource manager that it is connected to, the network of
-- that one, the number of its thread, and its end of the connection.
pub record Site : Type 0 where
  pub node : ClientStub
  pub manager : Factory
  pub world : Net
  pub thread : ℤ
  pub link : ServerStub

-- The manager's end of the connection, with the messages that arrive over it.
abbrev pub arriving : List Message → ServerStub → ServerStub
arriving ms link = record link { input = ms; replies = [] }

-- The manager after these messages.
abbrev pub run_site : Site → List Message → Option (ServerStub × Factory)
run_site c ms = engineer_ifa_thread c.world c.thread (arriving ms c.link) c.manager

-- The connection is open and hands over what is sent, and there is memory for a transaction at both
-- ends; the manager does not close it before its answers. The first text that the node reads is the one that the manager replies to the request to
-- prepare `txn`. At the end of the connection no command is left in the manager's buffer.
pub record IsLinked (net : Net) (txn : Transaction) (c : Site) : Type 0 where
  pub reply : Text
  pub last : ServerStub
  pub left : Factory
  pub open_socket : c.node.is_initialized ≡ true
  pub unused : c.node.sent ≡ []
  pub sends : (k : ℕ) → net.sends c.node.fd k ≡ true
  pub mallocs : (k : ℕ) → net.mallocs k ≡ true
  pub keeps_open : KeepsOpen net c.node
  pub link_mallocs : c.link.mallocs ≡ true
  pub no_command : role_of c.link.stray_text ≡ unknown
  pub replies : run_site c (Net.text (codes "TMPrepare") ∷ Net.txn txn ∷ []) ≡ some (last, left)
  pub one_reply : last.replies ≡ Net.text reply ∷ []
  pub reads : net.texts c.node.fd (c.node.calls + 1 + 1) ≡ got reply

-- The manager has not seen the transaction, and its log has room for the orders.
pub record CanTake (txn : Transaction) (f : Factory) : Type 0 where
  pub ready : IsReady f
  pub fresh : find txn.txn_id f.txn_log ≡ none
  pub room : length f.smr_log + length (prepare_records txn.txn_id txn.write_records) ≤ 2 ^ 31

-- After a transaction a manager is ready again, and has seen no other id in between.
pub record Kept (id : ℤ) (f g : Factory) : Type 0 where
  pub ready : IsReady g
  pub unseen : (j : ℤ) → id ≢ j → find j f.txn_log ≡ none → find j g.txn_log ≡ none

-- The two results that a transaction may have at a manager.
abbrev pub IsApplied : Transaction → Factory → Factory → Type 0
IsApplied txn f g =
    let recs = prepare_records txn.txn_id txn.write_records in
    let customers = place recs f.customer_record in
    (g.customer_record ≡ customers)
    × (g.disk.cust_rec_file ≡ some customers)
    × (length g.smr_log ≡ length f.smr_log + length recs)
    × Kept txn.txn_id f g

abbrev pub IsUnchanged : Transaction → Factory → Factory → Type 0
IsUnchanged txn f g =
    (g.customer_record ≡ f.customer_record)
    × (g.disk.cust_rec_file ≡ f.disk.cust_rec_file)
    × (g.smr_log ≡ f.smr_log)
    × Kept txn.txn_id f g

-- Each manager, having read what its node has sent, has come to the result `P`.
abbrev pub Everywhere : (Factory → Factory → Type 0) → List Site → List ClientStub → Type 0
Everywhere P [] [] = Unit
Everywhere P [] (n ∷ ns) = ⊥
Everywhere P (c ∷ cs) [] = ⊥
Everywhere P (c ∷ cs) (n ∷ ns) =
    ((last : ServerStub) × (g : Factory) × (run_site c n.sent ≡ some (last, g)) × P c.manager g)
    × Everywhere P cs ns
