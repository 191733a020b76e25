-- ===== src/Factory/Manager/Commit.antt =====
-- `TMCommit` (ServerThread.cpp) at a resource manager with nothing pending.
use two_phase_commit_protoco.Base.{
  ◌+◌, ◌^◌, ◌≤◌, ◌<◌, ◌≡◌, refl, sym, ap, ◌∙◌, true, some, List, [], ◌∷◌, ◌++◌, map, append-nil,
  append_assoc, length, length-append, arith,
}
use two_phase_commit_protoco.Base.Int.{ℤ, pos}
use two_phase_commit_protoco.Map.{Map, find, put}
use two_phase_commit_protoco.Messages.Replication.{MapOp}
use two_phase_commit_protoco.Net.{Net}
use two_phase_commit_protoco.Factory.State.{TxnLogRequest, Disk, Factory}
use two_phase_commit_protoco.Factory.Persistence.{update_value, rows}
use two_phase_commit_protoco.Factory.Admin.{append_op, replicate_op}
use two_phase_commit_protoco.Factory.Manager.{
  commit_record, order_of, log_or_empty, commit_loop, commit_txn,
}
use two_phase_commit_protoco.Factory.Admin.Settled.{
  IsSettled, as_primary_keeps, handled, handled-IsSettled, create_regular_laptop_settled,
}

-- The customers after the records of a transaction, in their order.
abbrev pub place : List TxnLogRequest → Map ℤ → Map ℤ
place [] m = m
place (r ∷ rs) m = place rs (put r.customer_id r.last_order_num m)

-- The operation that a record of the log puts into the replicated log.
abbrev pub log_op : TxnLogRequest → MapOp
log_op r = record { opcode = pos 1; arg1 = r.customer_id; arg2 = r.last_order_num }

-- The local log that `TMCommit` builds: each record, and its copy marked as committed.
unfoldable pub commit_log :
    ℤ → List TxnLogRequest → Map (List TxnLogRequest) → Map (List TxnLogRequest)
commit_log id [] d = d
commit_log id (r ∷ rs) d =
    commit_log id rs (update_value (update_value d r.txn_id r).1 r.txn_id (commit_record id r)).1

-- What the laptops of a transaction change, and what they leave.
pub record Placed (recs : List TxnLogRequest) (f g : Factory) : Type 0 where
  pub customers : g.customer_record ≡ place recs f.customer_record
  pub logged : g.smr_log ≡ f.smr_log ++ map log_op recs
  pub settled : IsSettled g
  pub queue : g.arq ≡ []
  pub same_disk : g.disk ≡ f.disk
  pub same_id : g.factory_id ≡ f.factory_id

module _ (net : Net) (eng id : ℤ) where
  Placed-handled :
      (r : TxnLogRequest) (f : Factory)
      → length f.smr_log < 2 ^ 31
      → IsSettled f
      → Placed (r ∷ []) f (handled net (log_op r) (record f { arq = [] }))
  unfolding replicate_op append_op
  Placed-handled r f room v =
      let f0 = record f { arq = [] } in
      let v0 : IsSettled f0 = record { at_last = v.at_last; at_committed = v.at_committed } in
      let (log, customers, _, _, _, disk, arq, fid, _) = as_primary_keeps net f0 in
      record {
        customers = rw customers refl;
        logged = rw log refl;
        settled = handled-IsSettled net (log_op r) f0 room v0;
        queue = arq;
        same_disk = disk;
        same_id = fid;
      }

  Placed-trans :
      (r : TxnLogRequest) (rs : List TxnLogRequest) (f g h : Factory)
      → Placed (r ∷ []) f g
      → Placed rs g h
      → Placed (r ∷ rs) f h
  Placed-trans r rs f g h p q = record {
    customers = q.customers ∙ ap (place rs) p.customers;
    logged =
        q.logged
        ∙ ap (λ l. l ++ map log_op rs) p.logged
        ∙ append_assoc f.smr_log (log_op r ∷ []) (map log_op rs);
    settled = q.settled;
    queue = q.queue;
    same_disk = q.same_disk ∙ p.same_disk;
    same_id = q.same_id ∙ p.same_id;
  }

  grown_room :
      (r : TxnLogRequest) (rs : List TxnLogRequest) (f g : Factory)
      → Placed (r ∷ []) f g
      → length f.smr_log + length (r ∷ rs) ≤ 2 ^ 31
      → length g.smr_log + length rs ≤ 2 ^ 31
  grown_room r rs f g p room =
      omega (arith, ap length p.logged, length-append f.smr_log (log_op r ∷ []))

  -- The loop of `TMCommit` ends, with room for its operations in the log.
  pub commit_loop_runs :
      (recs : List TxnLogRequest) (d : Map (List TxnLogRequest)) (done : List TxnLogRequest)
      (f : Factory)
      → f.arq ≡ []
      → IsSettled f
      → length f.smr_log + length recs ≤ 2 ^ 31
      → (g : Factory) × (commit_loop net eng id recs d done f
          ≡ some (commit_log id recs d, done ++ map (commit_record id) recs, g))
        × Placed recs f g
  unfolding commit_loop commit_log
  commit_loop_runs [] d done f q v room = (
    f,
    rw append-nil refl,
    record {
      customers = refl;
      logged = sym (append-nil f.smr_log);
      settled = v;
      queue = q;
      same_disk = refl;
      same_id = refl;
    },
  )
  commit_loop_runs (r ∷ rs) d done f q v room =
      let f1 = handled net (log_op r) (record f { arq = [] }) in
      let p : Placed (r ∷ []) f f1 = Placed-handled r f (omega arith) v in
      let d1 = (update_value (update_value d r.txn_id r).1 r.txn_id (commit_record id r)).1 in
      let done1 = done ++ commit_record id r ∷ [] in
      let room1 : length f1.smr_log + length rs ≤ 2 ^ 31 = grown_room r rs f f1 p room in
      let (g, runs, placed) = commit_loop_runs rs d1 done1 f1 p.queue p.settled room1 in
      (
        g,
        rw (create_regular_laptop_settled net (order_of r) eng f q v) (runs ∙ rw append_assoc),
        Placed-trans r rs f f1 g p placed,
      )

-- What `TMCommit` does to the state, for the records that were prepared under the id.
pub record Committed (id : ℤ) (recs : List TxnLogRequest) (f g : Factory) : Type 0 where
  pub customers : g.customer_record ≡ place recs f.customer_record
  pub logged : g.smr_log ≡ f.smr_log ++ map log_op recs
  pub settled : IsSettled g
  pub queue : g.arq ≡ []
  pub txn_log : g.txn_log ≡ commit_log id recs []
  pub log_file : g.disk.log_file ≡ some (rows f.disk.log_file ++ map (commit_record id) recs)
  pub cust_rec_file : g.disk.cust_rec_file ≡ some (place recs f.customer_record)
  pub writable : g.disk.writable ≡ true

module _ (net : Net) (eng : ℤ) where
  -- A commit, at a node with nothing pending, no request waiting and files that can be opened, ends
  -- and applies each record of the transaction to the customers in order, appends the operations to
  -- the replicated log and the committed records to the log file, and writes the customers to their
  -- file; the transaction log is what the loop has built. An id that is not in the log commits the
  -- empty list of records.
  pub commit_txn_applies :
      (id : ℤ) (f : Factory)
      → f.arq ≡ []
      → IsSettled f
      → f.disk.writable ≡ true
      → length f.smr_log + length (log_or_empty (find id f.txn_log)) ≤ 2 ^ 31
      → (g : Factory) × (commit_txn net eng id f ≡ some g)
        × Committed id (log_or_empty (find id f.txn_log)) f g
  unfolding commit_txn
  commit_txn_applies id f q v w room =
      let recs = log_or_empty (find id f.txn_log) in
      let (g, runs, p) = commit_loop_runs net eng id recs [] [] f q v room in
      let opens : g.disk.writable ≡ true = ap (λ (d : Disk). d.writable) p.same_disk ∙ w in
      (
        record g {
          txn_log = commit_log id recs [];
          disk = record g.disk {
            log_file = some (rows g.disk.log_file ++ map (commit_record id) recs);
            cust_rec_file = some g.customer_record;
          };
        },
        rw (runs, opens) refl,
        record {
          customers = p.customers;
          logged = p.logged;
          settled = record { at_last = p.settled.at_last; at_committed = p.settled.at_committed };
          queue = p.queue;
          txn_log = refl;
          log_file = rw p.same_disk;
          cust_rec_file = ap some p.customers;
          writable = opens;
        },
      )
