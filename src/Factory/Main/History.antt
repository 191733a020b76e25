-- ===== src/Factory/Main/History.antt =====
-- A resource manager over its whole run (ServerMain.cpp: the loop of `main`; ServerThread.cpp:
-- `EngineerIFAThread`): one committed transaction after another, each over its own connection.
use two_phase_commit_protoco.Base.{
  ℕ, ◌+◌, ◌^◌, ◌≤◌, ◌≡◌, ◌≢◌, refl, sym, ap, ◌∙◌, true, none, some, List, [], ◌∷◌, map, length,
  length-append, length-map, All, arith, subst,
}
use two_phase_commit_protoco.Base.Int.{ℤ, inc}
use two_phase_commit_protoco.Base.Text.{codes}
use two_phase_commit_protoco.Map.{Map, find}
use two_phase_commit_protoco.Messages.Replication.{PeerServersInfo}
use two_phase_commit_protoco.Messages.Transaction.{Transaction}
use two_phase_commit_protoco.Net
use two_phase_commit_protoco.Net.{Net, Message, Answer, failed, closed, got}
use two_phase_commit_protoco.ServerStub.{ServerStub, send_response}
use two_phase_commit_protoco.Factory.State.{TxnLogRequest, Factory}
use two_phase_commit_protoco.Factory.Persistence.{prepare_records}
use two_phase_commit_protoco.Factory.Persistence.Filed.{HasId, prepare_records-HasId}
use two_phase_commit_protoco.Factory.Manager.{log_or_empty}
use two_phase_commit_protoco.Factory.Manager.Commit.{place, log_op}
use two_phase_commit_protoco.Factory.Manager.Vote.{Current, prepared}
use two_phase_commit_protoco.Factory.Manager.Forgets.{find-commit_log}
use two_phase_commit_protoco.Factory.Ready.{IsReady, prepared-IsReady, Committed-IsReady}
use two_phase_commit_protoco.Factory.Start.{make_factory}
use two_phase_commit_protoco.Factory.Recovery.{started_customers, replay_customers-sorted}
use two_phase_commit_protoco.Factory.Serve.{unknown, role_of, engineer_ifa_thread}
use two_phase_commit_protoco.Factory.Serve.TwoPhase.{prepared_held, prepare_commit-Committed}
use two_phase_commit_protoco.Factory.Main.{serve_connections}

-- A connection with the transaction that comes over it.
pub record Round : Type 0 where
  pub net : Net
  pub stub : ServerStub
  pub txn : Transaction

abbrev pub connection_of : Round → Net × ServerStub
connection_of r = (r.net, r.stub)

abbrev pub orders_of : Round → List TxnLogRequest
orders_of r = prepare_records r.txn.txn_id r.txn.write_records

-- The transaction manager has the transaction prepared and committed; there is memory for it, and no
-- command is left in the buffer at the end.
pub record IsRound (r : Round) : Type 0 where
  pub arrives :
      r.stub.input
      ≡ Net.text (codes "TMPrepare")
        ∷ Net.txn r.txn
        ∷ Net.text (codes "TMCommit")
        ∷ Net.number r.txn.txn_id
        ∷ []
  pub mallocs : r.stub.mallocs ≡ true
  pub no_command : role_of r.stub.stray_text ≡ unknown

-- The customers after the transactions, which are applied one after another.
abbrev pub after_all : List Round → Map ℤ → Map ℤ
after_all [] m = m
after_all (r ∷ rs) m = after_all rs (place (orders_of r) m)

-- Each transaction has read what those before it have left.
abbrev pub IsSerial : List Round → Map ℤ → Type 0
IsSerial [] m = Unit
IsSerial (r ∷ rs) m = All (Current m) r.txn.read_records × IsSerial rs (place (orders_of r) m)

-- No transaction has the id of the one before it.
abbrev pub Differs : ℤ → List Round → Type 0
Differs id [] = Unit
Differs id (r ∷ rs) = (id ≢ r.txn.txn_id) × Differs r.txn.txn_id rs

abbrev pub order_count : List Round → ℕ
order_count [] = 0
order_count (r ∷ rs) = length (orders_of r) + order_count rs

-- The answers at the end of a connection.
abbrev pub served : Round → ServerStub
served r = send_response "Done commit" (send_response "Ok" (record r.stub { input = [] }))

-- What a round leaves for the next one.
record Left (r : Round) (f g : Factory) : Type 0 where
  ready : IsReady g
  customers : g.customer_record ≡ place (orders_of r) f.customer_record
  saved : g.disk.cust_rec_file ≡ some g.customer_record
  longer : length g.smr_log ≡ length f.smr_log + length (orders_of r)
  only : (j : ℤ) → r.txn.txn_id ≢ j → find j g.txn_log ≡ none

round-Left :
    (cnt : ℤ) (r : Round) (f : Factory)
    → IsRound r
    → IsReady f
    → All (Current f.customer_record) r.txn.read_records
    → find r.txn.txn_id f.txn_log ≡ none
    → length f.smr_log + length (orders_of r) ≤ 2 ^ 31
    → (g : Factory) × (engineer_ifa_thread r.net cnt r.stub f ≡ some (served r, g)) × Left r f g
round-Left cnt r f h v cur fresh room =
    let f1 = prepared r.net r.txn f in
    let held = prepared_held r.net r.txn f fresh in
    let recs = log_or_empty (find r.txn.txn_id f1.txn_log) in
    let (g, runs, c) =
      prepare_commit-Committed r.net cnt r.stub f r.txn h.arrives h.mallocs h.no_command v.writable
        v.queue v.settled cur fresh room in
    (
      g,
      runs,
      record {
        ready = Committed-IsReady r.txn.txn_id f1 g (prepared-IsReady r.net r.txn f v) c;
        customers = c.customers ∙ ap (λ l. place l f.customer_record) held;
        saved = c.cust_rec_file ∙ ap some (sym c.customers);
        longer =
            ap length c.logged
            ∙ length-append f.smr_log (map log_op recs)
            ∙ ap (λ n. length f.smr_log + n) (length-map recs log_op ∙ ap length held);
        only = λ j ne.
            ap (find j) c.txn_log
            ∙ find-commit_log r.txn.txn_id j recs [] ne (
                subst (All (HasId r.txn.txn_id)) (sym held)
                  (prepare_records-HasId r.txn.txn_id r.txn.write_records))
            ∙ (unfold find in refl);
      },
    )

-- What the server comes to over some rounds.
abbrev ServesAll : ℤ → List Round → Factory → Type 0
ServesAll cnt rs f =
    (g : Factory) × (serve_connections (map connection_of rs) cnt f ≡ some (map served rs, g))
    × (g.customer_record ≡ after_all rs f.customer_record)
    × (g.disk.cust_rec_file ≡ some g.customer_record)
    × IsReady g

first_and_rest :
    (cnt : ℤ) (r : Round) (rs : List Round) (f g : Factory)
    → engineer_ifa_thread r.net cnt r.stub f ≡ some (served r, g)
    → Left r f g
    → ServesAll (inc cnt) rs g
    → ServesAll cnt (r ∷ rs) f
unfolding serve_connections
first_and_rest cnt r rs f g runs l (h, rest, customers, saved, ready) =
    (h, rw (runs, rest) refl, customers ∙ ap (after_all rs) l.customers, saved, ready)

-- The rounds that come after the one with this id.
rounds-ServesAll :
    (id cnt : ℤ) (rs : List Round) (f : Factory)
    → All IsRound rs
    → IsReady f
    → f.disk.cust_rec_file ≡ some f.customer_record
    → ((j : ℤ) → id ≢ j → find j f.txn_log ≡ none)
    → Differs id rs
    → IsSerial rs f.customer_record
    → length f.smr_log + order_count rs ≤ 2 ^ 31
    → ServesAll cnt rs f
rounds-ServesAll id cnt [] f h v saved only d serial room =
    (f, unfold serve_connections in refl, refl, saved, v)
rounds-ServesAll id cnt (r ∷ rs) f (h, hs) v saved only (ne, d) (cur, serial) room =
    let (g, runs, l) = round-Left cnt r f h v cur (only r.txn.txn_id ne) (omega arith) in
    first_and_rest cnt r rs f g runs l (
      rounds-ServesAll r.txn.txn_id (inc cnt) rs g hs l.ready l.saved l.only d
        (subst (IsSerial rs) (sym l.customers) serial) (omega (arith, l.longer)))

-- A resource manager with nothing pending and room in its log serves a series of transactions, each
-- prepared and committed over its own connection by the transaction manager, that have read what
-- those before them have left, of which the first has a new id and no other one has the id of the
-- one before it: every connection ends with both answers, the customers are those before with all
-- orders applied in the order of the transactions, nothing is pending then, and a resource manager
-- that is started on its files has these customers.
pub serve_connections-serial :
    (cnt : ℤ) (r : Round) (rs : List Round) (f : Factory) (peers : List PeerServersInfo)
    → All IsRound (r ∷ rs)
    → IsReady f
    → find r.txn.txn_id f.txn_log ≡ none
    → Differs r.txn.txn_id rs
    → IsSerial (r ∷ rs) f.customer_record
    → length f.smr_log + order_count (r ∷ rs) ≤ 2 ^ 31
    → (g : Factory) × (serve_connections (map connection_of (r ∷ rs)) cnt f
        ≡ some (map served (r ∷ rs), g))
      × (g.customer_record ≡ after_all (r ∷ rs) f.customer_record)
      × IsReady g
      × ((make_factory peers g.disk).customer_record ≡ g.customer_record)
serve_connections-serial cnt r rs f peers (h, hs) v fresh d (cur, serial) room =
    let (g, runs, l) = round-Left cnt r f h v cur fresh (omega arith) in
    let (last, all, customers, saved, ready) = first_and_rest cnt r rs f g runs l (
      rounds-ServesAll r.txn.txn_id (inc cnt) rs g hs l.ready l.saved l.only d
        (subst (IsSerial rs) (sym l.customers) serial) (omega (arith, l.longer))) in
    (
      last,
      all,
      customers,
      ready,
      started_customers peers last.disk last.customer_record saved
          ∙ replay_customers-sorted last.customer_record [] ready.sorted,
    )
