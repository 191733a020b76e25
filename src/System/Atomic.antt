-- ===== src/System/Atomic.antt =====
-- Two-phase commit over all managers at once (TransactionManager.cpp: `transaction_manager`;
-- ServerThread.cpp: `EngineerIFAThread`).
use two_phase_commit_protoco.Base.{
  if◌then◌else◌, Bool, ℕ, ◌≡◌, ◌≢◌, refl, sym, ap, ◌∙◌, subst, ◌⊎◌, inl, inr, true, false, some,
  List, [], ◌∷◌, ◌++◌, map, All,
}
use two_phase_commit_protoco.Base.Int.{ℤ, inc}
use two_phase_commit_protoco.Base.Text.{codes}
use two_phase_commit_protoco.Messages.Replication.{PeerServersInfo}
use two_phase_commit_protoco.Messages.Transaction.{Transaction, set_txn_id}
use two_phase_commit_protoco.Net
use two_phase_commit_protoco.Net.{Net, Message, Answer, failed, closed, got}
use two_phase_commit_protoco.ClientStub.{ClientStub}
use two_phase_commit_protoco.ServerStub.{ServerStub, send_response}
use two_phase_commit_protoco.Factory.State.{Factory}
use two_phase_commit_protoco.TransactionManager.{
  connect_rms, prepare_rms, told_rm, run_phases, transaction_manager,
}
use two_phase_commit_protoco.TransactionManager.Told.{
  KeepsOpen, transaction_manager_reached, told_rm-sent, decide_rms_told,
}
use two_phase_commit_protoco.System.{
  Site, run_site, IsLinked, CanTake, IsApplied, IsUnchanged, Everywhere,
}
use two_phase_commit_protoco.System.Runs.{run_commit, run_abort, run_prepare_abort}
use two_phase_commit_protoco.System.Voting.{
  nodes_of, ReadsCurrent, request, Heard, AllHeard, prepare_rms-Voted,
}

module _ (net : Net) (txn : Transaction) where
  -- What the manager of a site comes to on these messages.
  abbrev ComesTo : (Factory → Factory → Type 0) → Site → List Message → Type 0
  ComesTo P c ms =
      (last : ServerStub) × (g : Factory) × (run_site c ms ≡ some (last, g)) × P c.manager g

  decided :
      (P : Factory → Factory → Type 0) (ok : Bool) (c : Site) (n : ClientStub) (ms : List Message)
      → IsLinked net txn c
      → n.fd ≡ c.node.fd
      → n.sent ≡ ms
      → ComesTo P c (
          (ms ++ Net.text (if ok then codes "TMCommit" else codes "TMAbort") ∷ [])
          ++ Net.number txn.txn_id ∷ [])
      → ComesTo P c (told_rm net ok txn.txn_id n).1.sent
  decided P ok c n ms h same e r =
      let sends : (k : ℕ) → net.sends n.fd k ≡ true =
        λ k. subst (λ fd. net.sends fd k ≡ true) (sym same) (h.sends k) in
      let both : (told_rm net ok txn.txn_id n).1.sent
          ≡ (ms ++ Net.text (if ok then codes "TMCommit" else codes "TMAbort") ∷ [])
            ++ Net.number txn.txn_id ∷ [] =
        told_rm-sent net ok txn.txn_id n sends
        ∙ ap
            (λ l.
              (l ++ Net.text (if ok then codes "TMCommit" else codes "TMAbort") ∷ [])
              ++ Net.number txn.txn_id ∷ [])
            e in
      subst (ComesTo P c) (sym both) r

  commits-Everywhere :
      (cs : List Site) (ns : List ClientStub)
      → All (IsLinked net txn) cs
      → All (λ (c : Site). CanTake txn c.manager) cs
      → All (ReadsCurrent txn) cs
      → AllHeard net txn cs ns
      → Everywhere (IsApplied txn) cs (map (λ n. (told_rm net true txn.txn_id n).1) ns)
  commits-Everywhere [] [] h can cur heard = tt
  commits-Everywhere [] (n ∷ ns) h can cur heard = heard
  commits-Everywhere (c ∷ cs) [] h can cur heard = heard
  commits-Everywhere (c ∷ cs) (n ∷ ns) (h, hs) (can, cans) (cur, curs) (same, e, heard) = (
    decided (IsApplied txn) true c n (request net txn) h same e
        (run_commit txn c h.link_mallocs h.no_command can cur),
    commits-Everywhere cs ns hs cans curs heard,
  )

  aborts-Everywhere :
      (cs : List Site) (ns : List ClientStub)
      → All (IsLinked net txn) cs
      → All (λ (c : Site). CanTake txn c.manager) cs
      → Heard net txn cs ns
      → Everywhere (IsUnchanged txn) cs (map (λ n. (told_rm net false txn.txn_id n).1) ns)
  aborts-Everywhere [] [] h can heard = tt
  aborts-Everywhere [] (n ∷ ns) h can heard = heard
  aborts-Everywhere (c ∷ cs) [] h can heard = heard
  aborts-Everywhere (c ∷ cs) (n ∷ ns) (h, hs) (can, cans) (same, inl e, heard) = (
    decided (IsUnchanged txn) false c n (request net txn) h same e
        (run_prepare_abort txn c h.link_mallocs h.no_command can),
    aborts-Everywhere cs ns hs cans heard,
  )
  aborts-Everywhere (c ∷ cs) (n ∷ ns) (h, hs) (can, cans) (same, inr e, heard) = (
    decided (IsUnchanged txn) false c n [] h same e
        (run_abort txn c h.link_mallocs h.no_command can),
    aborts-Everywhere cs ns hs cans heard,
  )

  heard-KeepsOpen :
      (c : Site) (n : ClientStub) → IsLinked net txn c → n.fd ≡ c.node.fd → KeepsOpen net n
  heard-KeepsOpen c n h same k = subst (λ fd. net.texts fd k ≢ closed) (sym same) (h.keeps_open k)

  AllHeard-KeepsOpen :
      (cs : List Site) (ns : List ClientStub)
      → All (IsLinked net txn) cs
      → AllHeard net txn cs ns
      → All (KeepsOpen net) ns
  AllHeard-KeepsOpen [] [] h heard = tt
  AllHeard-KeepsOpen [] (n ∷ ns) h heard = absurd heard
  AllHeard-KeepsOpen (c ∷ cs) [] h heard = absurd heard
  AllHeard-KeepsOpen (c ∷ cs) (n ∷ ns) (h, hs) (same, e, heard) =
      (heard-KeepsOpen c n h same, AllHeard-KeepsOpen cs ns hs heard)

  Heard-KeepsOpen :
      (cs : List Site) (ns : List ClientStub)
      → All (IsLinked net txn) cs
      → Heard net txn cs ns
      → All (KeepsOpen net) ns
  Heard-KeepsOpen [] [] h heard = tt
  Heard-KeepsOpen [] (n ∷ ns) h heard = absurd heard
  Heard-KeepsOpen (c ∷ cs) [] h heard = absurd heard
  Heard-KeepsOpen (c ∷ cs) (n ∷ ns) (h, hs) (same, e, heard) =
      (heard-KeepsOpen c n h same, Heard-KeepsOpen cs ns hs heard)

  -- The two results of a transaction over all sites, with the answer to the client.
  abbrev pub IsAtomic : List Site → ServerStub → ServerStub × List ClientStub → Type 0
  IsAtomic cs s (u, told) =
      (All (ReadsCurrent txn) cs
        × (u ≡ send_response "Success" s)
        × Everywhere (IsApplied txn) cs told)
      ⊎ ((¬ All (ReadsCurrent txn) cs)
          × (u ≡ send_response "Failed" s)
          × Everywhere (IsUnchanged txn) cs told)

  run_phases-IsAtomic :
      (cs : List Site) (s : ServerStub)
      → All (IsLinked net txn) cs
      → All (λ (c : Site). CanTake txn c.manager) cs
      → (u : ServerStub) × (told : List ClientStub) × (run_phases net txn (nodes_of cs) s
          ≡ some (u, told))
        × IsAtomic cs s (u, told)
  unfolding run_phases
  run_phases-IsAtomic cs s h can =
      let asked = (prepare_rms net txn (nodes_of cs)).1 in
      let told = λ (ok : Bool). map (λ (n : ClientStub). (told_rm net ok txn.txn_id n).1) asked in
      elim (prepare_rms-Voted net txn cs h can) [
        | inl (t, cur, heard) ↦ (
          send_response "Success" s,
          told true,
          rw (t, decide_rms_told net true txn.txn_id asked (AllHeard-KeepsOpen cs asked h heard))
              refl,
          inl (cur, refl, commits-Everywhere cs asked h can cur heard),
        )
        | inr (f, stale, heard) ↦ (
          send_response "Failed" s,
          told false,
          rw (f, decide_rms_told net false txn.txn_id asked (Heard-KeepsOpen cs asked h heard))
              refl,
          inr (stale, refl, aborts-Everywhere cs asked h can heard),
        )
      ]

-- A transaction over managers that are all reached, over connections that hand over what is sent and
-- that the managers do not close before their answers, is atomic. Let each manager be one with nothing pending that has not seen the id, has room in its log
-- and answers over its own connection. Then the transaction manager returns, and either the reads
-- are current at every manager, the client is told "Success", and each manager, on the messages that
-- were sent to it, has applied the orders in memory and on disk; or they are not current at some
-- manager, the client is told "Failed", and each manager, on the messages that were sent to it, has
-- left its customers, in memory and on disk, and its replicated log as they were. In both cases
-- nothing is pending at any manager then, and no other id has come into its transaction log.
pub two_phase_commit-IsAtomic :
    (net : Net) (rms : List PeerServersInfo) (s : ServerStub) (id : ℤ) (t : Transaction)
    (ms : List Message) (cs : List Site)
    → s.input ≡ Net.txn t ∷ ms
    → s.mallocs ≡ true
    → connect_rms net rms ≡ (true, map (λ (c : Site). c.node) cs)
    → All (IsLinked net (set_txn_id t id)) cs
    → All (λ (c : Site). CanTake (set_txn_id t id) c.manager) cs
    → (u : ServerStub) × (told : List ClientStub) × (transaction_manager net rms s id
        ≡ some (u, inc id, told))
      × IsAtomic net (set_txn_id t id) cs (record s { input = ms }) (u, told)
two_phase_commit-IsAtomic net rms s id t ms cs e m c h can =
    let txn = set_txn_id t id in
    let s1 = record s { input = ms } in
    let (u, told, runs, atomic) = run_phases-IsAtomic net txn cs s1 h can in
    (u, told, transaction_manager_reached net rms s id t ms e m (nodes_of cs) told u c runs, atomic)
