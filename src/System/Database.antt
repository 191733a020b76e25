-- ===== src/System/Database.antt =====
-- The whole system over its run (TransactionManager.cpp: the loop of `main`; ServerThread.cpp:
-- `EngineerIFAThread`), and the database that it stands for, which takes whole transactions, one at
-- a time.
use two_phase_commit_protoco.Base.{
  ℕ, ◌+◌, ◌^◌, ◌≤◌, length, ◌≡◌, ◌⊎◌, true, Option, none, some, List, [], ◌∷◌, map, All, ◌>>=◌,
}
use two_phase_commit_protoco.Base.Int.{ℤ, pos, inc}
use two_phase_commit_protoco.Map.{Map, find}
use two_phase_commit_protoco.Messages.Replication.{PeerServersInfo}
use two_phase_commit_protoco.Messages.Transaction.{Transaction, set_txn_id}
use two_phase_commit_protoco.Net
use two_phase_commit_protoco.Net.{Net, Message, Answer, failed, closed, got}
use two_phase_commit_protoco.ClientStub.{ClientStub}
use two_phase_commit_protoco.ServerStub.{ServerStub, send_response}
use two_phase_commit_protoco.Factory.State.{Factory}
use two_phase_commit_protoco.Factory.Persistence.{prepare_records}
use two_phase_commit_protoco.Factory.Ready.{IsReady}
use two_phase_commit_protoco.Factory.Manager.Commit.{place}
use two_phase_commit_protoco.Factory.Manager.Vote.{Current}
use two_phase_commit_protoco.TransactionManager.{connect_rms, transaction_manager}
use two_phase_commit_protoco.System.{Site, run_site, IsLinked}

-- The other end of the connection from the transaction manager to a resource manager.
pub record End : Type 0 where
  pub world : Net
  pub thread : ℤ
  pub link : ServerStub

-- A client's connection to the transaction manager, its transaction and what may come behind it, and
-- the connections that are made for it, with the network of that time.
pub record Session : Type 0 where
  pub net : Net
  pub stub : ServerStub
  pub txn : Transaction
  pub rest : List Message
  pub nodes : List ClientStub
  pub ends : List End

abbrev pub sites_of : List ClientStub → List End → List Factory → List Site
sites_of (n ∷ ns) (e ∷ es) (f ∷ fs) =
    record { node = n; manager = f; world = e.world; thread = e.thread; link = e.link }
    ∷ sites_of ns es fs
sites_of _ _ _ = []

abbrev pub sites : Session → List Factory → List Site
sites k fs = sites_of k.nodes k.ends fs

-- Every resource manager reads what its node has sent.
unfoldable pub advance : List Site → List ClientStub → Option (List Factory)
advance [] [] = some []
advance (c ∷ cs) (n ∷ ns) = do (last, g) ← run_site c n.sent; gs ← advance cs ns; some (g ∷ gs)
advance _ _ = none

-- The transaction manager serves a client to the end before it takes the next one.
unfoldable pub system_run :
    List PeerServersInfo → List Session → ℤ → List Factory → Option (List ServerStub × List Factory)
system_run rms [] id fs = some ([], fs)
system_run rms (k ∷ ks) id fs = do
  (u, next, told) ← transaction_manager k.net rms k.stub id
  gs ← advance (sites k fs) told
  (us, hs) ← system_run rms ks next gs
  some (u ∷ us, hs)

-- The customers of all resource managers.
abbrev pub Database : Type 0
Database = List (Map ℤ)

abbrev pub database_of : List Factory → Database
database_of fs = map (λ (f : Factory). f.customer_record) fs

-- All that a transaction has read is current in the whole database.
abbrev pub AllCurrent : Transaction → Database → Type 0
AllCurrent t d = All (λ m. All (Current m) t.read_records) d

abbrev pub apply_txn : ℤ → Transaction → Database → Database
apply_txn id t d = map (place (prepare_records id t.write_records)) d

-- The answers of the database to the clients, one after another, and what it is then: a transaction
-- that has read current values is applied as a whole, with the answer "Success", and any other one
-- not at all, with the answer "Failed".
abbrev pub Serial : List Session → ℤ → Database → List ServerStub → Database → Type 0
Serial [] id d us last = (us ≡ []) × (last ≡ d)
Serial (k ∷ ks) id d [] last = ⊥
Serial (k ∷ ks) id d (u ∷ us) last =
    let served = record k.stub { input = k.rest } in
    (AllCurrent k.txn d
      × (u ≡ send_response "Success" served)
      × Serial ks (inc id) (apply_txn id k.txn d) us last)
    ⊎ ((¬ AllCurrent k.txn d) × (u ≡ send_response "Failed" served) × Serial ks (inc id) d us last)

-- The orders of all transactions.
abbrev pub order_total : List Session → ℤ → ℕ
order_total [] id = 0
order_total (k ∷ ks) id = length (prepare_records id k.txn.write_records) + order_total ks (inc id)

-- A resource manager with nothing pending that has seen no id from `id` on and has room in its log
-- for so many orders.
pub record IsOpen (id room : ℕ) (f : Factory) : Type 0 where
  pub ready : IsReady f
  pub unseen : (j : ℕ) → id ≤ j → find (pos j) f.txn_log ≡ none
  pub fits : length f.smr_log + room ≤ 2 ^ 31

module _ (rms : List PeerServersInfo) where
  -- A client's session: its transaction arrives, there is memory for it, and every resource manager
  -- is reached, over a connection that hands over what is sent.
  pub record IsSession (k : Session) (id : ℤ) (fs : List Factory) : Type 0 where
    pub arrives : k.stub.input ≡ Net.txn k.txn ∷ k.rest
    pub mallocs : k.stub.mallocs ≡ true
    pub connected : connect_rms k.net rms ≡ (true, map (λ (c : Site). c.node) (sites k fs))
    pub everyone : map (λ (c : Site). c.manager) (sites k fs) ≡ fs
    pub linked : All (IsLinked k.net (set_txn_id k.txn id)) (sites k fs)

  -- The sessions one after another, each one with the resource managers as those before it have left
  -- them.
  abbrev pub AreSessions : List Session → ℤ → List Factory → Type 0
  AreSessions [] id fs = Unit
  AreSessions (k ∷ ks) id fs =
      IsSession k id fs
      × ((u : ServerStub) (next : ℤ) (told : List ClientStub) (gs : List Factory)
          → transaction_manager k.net rms k.stub id ≡ some (u, next, told)
          → advance (sites k fs) told ≡ some gs
          → AreSessions ks next gs)
