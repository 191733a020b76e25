-- ===== src/Tests/Whole.antt =====
-- The transaction manager with two resource managers at concrete inputs.
use two_phase_commit_protoco.Base.{
  map, if◌then◌else◌, ℕ, ◌≡◌, refl, inl, inr, true, some, List, [], ◌∷◌, arith, All,
}
use two_phase_commit_protoco.Base.Int.{ℤ, pos, inc, eqb_ℤ}
use two_phase_commit_protoco.Base.Text.{Text, codes}
use two_phase_commit_protoco.Map.{find, put}
use two_phase_commit_protoco.Messages.Replication.{PeerServersInfo}
use two_phase_commit_protoco.Messages.Transaction.{Transaction, set_txn_id}
use two_phase_commit_protoco.Net
use two_phase_commit_protoco.Net.{Net, Message, Answer, failed, closed, got}
use two_phase_commit_protoco.ClientStub.{ClientStub, new_stub, init}
use two_phase_commit_protoco.ServerStub.{ServerStub, send_response}
use two_phase_commit_protoco.Factory.State.{Factory}
use two_phase_commit_protoco.Factory.Persistence.{prepare_records}
use two_phase_commit_protoco.Factory.Manager.Vote.{Current, prepared}
use two_phase_commit_protoco.Factory.Serve.{unknown, role_of}
use two_phase_commit_protoco.TransactionManager.{connect_rms, transaction_manager}
use two_phase_commit_protoco.Factory.Main.{serve_connections}
use two_phase_commit_protoco.Factory.Main.History.{
  Round, connection_of, IsRound, served, after_all, serve_connections-serial,
}
use two_phase_commit_protoco.Factory.Start.{make_factory}
use two_phase_commit_protoco.Factory.Ready.{IsReady}
use two_phase_commit_protoco.Messages.Record.{make_record}
use two_phase_commit_protoco.System.{Site, arriving, IsLinked, CanTake}
use two_phase_commit_protoco.System.Database.{
  IsOpen, order_total, Session, system_run, database_of, Serial, IsSession,
}
use two_phase_commit_protoco.System.Refines.{system_run-Serial}
use two_phase_commit_protoco.System.Runs.{run_prepare_ok, run_prepare_no}
use two_phase_commit_protoco.System.Atomic.{IsAtomic, two_phase_commit-IsAtomic}
use two_phase_commit_protoco.Tests.Data.{
  order_to, net_ok, backup_info, manager, transfer, connection,
}

-- The descriptor of a connection is its port; port 1 answers "Ok" and port 2 "No".
abbrev two_answers : ℤ → Text
two_answers fd = if eqb_ℤ fd (pos 1) then codes "Ok" else codes "No"

abbrev net_two : Net
net_two = record (net_ok) {
  connect = λ ip port n. (port, true);
  texts = λ fd n. got (two_answers fd);
}

abbrev both : List PeerServersInfo
both = record backup_info { port = pos 1 } ∷ record backup_info { port = pos 2 } ∷ []

abbrev site : ℕ → Factory → Site
site port f = record {
  node = record new_stub { fd = pos port; is_initialized = true; calls = 1 };
  manager = f;
  world = net_ok;
  thread = pos 1;
  link = connection [];
}

-- Another order for customer 0 has got to the second manager.
abbrev ahead : Factory
ahead = record manager { customer_record = (pos 0, pos 12) ∷ [] }

abbrev sites : List Site
sites = site 1 manager ∷ site 2 ahead ∷ []

quiet : role_of [] ≡ unknown
unfolding role_of
quiet = refl

manager-CanTake : CanTake (set_txn_id transfer (pos 4)) manager
unfolding find prepare_records
manager-CanTake = record {
  ready = record {
    settled = record { at_last = refl; at_committed = refl };
    queue = refl;
    writable = refl;
    sorted = (tt, tt);
    filed = tt;
  };
  fresh = refl;
  room = omega arith;
}

ahead-CanTake : CanTake (set_txn_id transfer (pos 4)) ahead
unfolding find prepare_records
ahead-CanTake = record {
  ready = record {
    settled = record { at_last = refl; at_committed = refl };
    queue = refl;
    writable = refl;
    sorted = (tt, tt);
    filed = tt;
  };
  fresh = refl;
  room = omega arith;
}

manager-Current : All (Current manager.customer_record) transfer.read_records
unfolding find
manager-Current = (inr refl, tt)

ahead_stale : ¬ All (Current ahead.customer_record) transfer.read_records
unfolding find
ahead_stale (inl e, _) = cc
ahead_stale (inr e, _) = ground arith

manager-IsLinked : IsLinked net_two (set_txn_id transfer (pos 4)) (site 1 manager)
manager-IsLinked = record {
  reply = codes "Ok";
  last = send_response "Ok" (arriving [] (connection []));
  left = prepared net_ok (set_txn_id transfer (pos 4)) manager;
  open_socket = refl;
  unused = refl;
  sends = λ k. refl;
  mallocs = λ k. refl;
  keeps_open = λ k e. cc e;
  link_mallocs = refl;
  no_command = quiet;
  replies =
      run_prepare_ok (set_txn_id transfer (pos 4)) (site 1 manager) refl quiet manager-CanTake
        manager-Current;
  one_reply = refl;
  reads = refl;
}

ahead-IsLinked : IsLinked net_two (set_txn_id transfer (pos 4)) (site 2 ahead)
ahead-IsLinked = record {
  reply = codes "No";
  last = send_response "No" (arriving [] (connection []));
  left = ahead;
  open_socket = refl;
  unused = refl;
  sends = λ k. refl;
  mallocs = λ k. refl;
  keeps_open = λ k e. cc e;
  link_mallocs = refl;
  no_command = quiet;
  replies =
      run_prepare_no (set_txn_id transfer (pos 4)) (site 2 ahead) refl quiet ahead-CanTake
        ahead_stale;
  one_reply = refl;
  reads = refl;
}

two_phase_commit-IsAtomic_example :
    (u : ServerStub) × (told : List ClientStub) × (transaction_manager net_two both
        (connection (Net.txn transfer ∷ []))
        (pos 4)
      ≡ some (u, inc (pos 4), told))
    × IsAtomic net_two (set_txn_id transfer (pos 4)) sites (connection []) (u, told)
unfolding connect_rms init
two_phase_commit-IsAtomic_example =
    two_phase_commit-IsAtomic net_two both (connection (Net.txn transfer ∷ [])) (pos 4) transfer []
      sites refl refl refl (manager-IsLinked, (ahead-IsLinked, tt))
      (manager-CanTake, (ahead-CanTake, tt))

-- Two transactions for customer 0, the second of which has read what the first has left.
abbrev second : Transaction
second = record transfer {
  txn_id = pos 5;
  read_records = make_record (pos 0) (pos 11) ∷ [];
  write_records = order_to 0 12 ∷ [];
}

abbrev round : Transaction → Round
round t = record {
  net = net_ok;
  stub = connection (
      Net.text (codes "TMPrepare")
      ∷ Net.txn t
      ∷ Net.text (codes "TMCommit")
      ∷ Net.number t.txn_id
      ∷ []);
  txn = t;
}

round-IsRound : (t : Transaction) → IsRound (round t)
round-IsRound t = record { arrives = refl; mallocs = refl; no_command = quiet }

serve_connections-serial_example :
    (g : Factory) × (serve_connections
        (map connection_of (round (set_txn_id transfer (pos 4)) ∷ round second ∷ []))
        (pos 1)
        manager
      ≡ some (map served (round (set_txn_id transfer (pos 4)) ∷ round second ∷ []), g))
    × (g.customer_record
        ≡ after_all
            (round (set_txn_id transfer (pos 4)) ∷ round second ∷ [])
            manager.customer_record)
    × IsReady g
    × ((make_factory [] g.disk).customer_record ≡ g.customer_record)
unfolding find prepare_records put
serve_connections-serial_example =
    serve_connections-serial (pos 1) (round (set_txn_id transfer (pos 4))) (round second ∷ [])
      manager [] (round-IsRound (set_txn_id transfer (pos 4)), (round-IsRound second, tt))
      manager-CanTake.ready refl (ground arith, tt) ((inr refl, tt), ((inr refl, tt), tt))
      (omega arith)

-- The transaction that the second manager refuses, as a session of the system.
abbrev session : Session
session = record {
  net = net_two;
  stub = connection (Net.txn transfer ∷ []);
  txn = transfer;
  rest = [];
  nodes = map (λ (c : Site). c.node) sites;
  ends =
      record { world = net_ok; thread = pos 1; link = connection [] }
      ∷ record { world = net_ok; thread = pos 1; link = connection [] }
      ∷ [];
}

session-IsSession : IsSession both session (pos 4) (manager ∷ ahead ∷ [])
unfolding connect_rms init
session-IsSession = record {
  arrives = refl;
  mallocs = refl;
  connected = refl;
  everyone = refl;
  linked = (manager-IsLinked, (ahead-IsLinked, tt));
}

both-IsOpen : All (IsOpen 4 (order_total (session ∷ []) (pos 4))) (manager ∷ ahead ∷ [])
unfolding find prepare_records
both-IsOpen = (
  record { ready = manager-CanTake.ready; unseen = λ j le. refl; fits = omega arith },
  (record { ready = ahead-CanTake.ready; unseen = λ j le. refl; fits = omega arith }, tt),
)

system_run-Serial_example :
    (us : List ServerStub) × (last : List Factory) × (system_run both
        (session ∷ [])
        (pos 4)
        (manager ∷ ahead ∷ [])
      ≡ some (us, last))
    × Serial (session ∷ []) (pos 4) (database_of (manager ∷ ahead ∷ [])) us (database_of last)
system_run-Serial_example =
    system_run-Serial both (session ∷ []) 4 (manager ∷ ahead ∷ []) (omega arith) both-IsOpen
      (session-IsSession, λ u next told gs runs moves. tt)
