-- ===== src/TransactionManager/Told.antt =====
-- The nodes of `transaction_manager` (TransactionManager.cpp) over the two phases: what they have been
-- sent, and that the second phase ends.
use two_phase_commit_protoco.Base.{
  false, ℕ, ◌+◌, ◌≡◌, ◌≢◌, refl, sym, subst, Bool, true, some, List, [], ◌∷◌, ◌++◌, map, All, arith,
  if◌then◌else◌,
}
use two_phase_commit_protoco.Base.Int.{ℤ, inc}
use two_phase_commit_protoco.Base.Text.{Text, codes}
use two_phase_commit_protoco.Messages.Transaction.{Transaction, set_txn_id}
use two_phase_commit_protoco.Messages.Replication.{PeerServersInfo}
use two_phase_commit_protoco.ServerStub.{ServerStub, receive_txn_request}
use two_phase_commit_protoco.Net
use two_phase_commit_protoco.Net.{Net, Message, Answer, failed, closed, got}
use two_phase_commit_protoco.Base.Text.{eqb_text}
use two_phase_commit_protoco.Base.{Bool-cases, inl, inr}
use two_phase_commit_protoco.TransactionManager.{prepare_rms}
use two_phase_commit_protoco.ServerStub.{send_response}
use two_phase_commit_protoco.ClientStub.{
  ClientStub, send_id_msg, send_txn_prepare_request, send_txn_id,
}
use two_phase_commit_protoco.ClientStub.Laws.{fd-send_id_msg, send_txn_id_answered}
use two_phase_commit_protoco.TransactionManager.{
  connect_rms, run_phases, transaction_manager, prepare_rm, told_rm, decide_rm, decide_rms,
}

module _ (net : Net) where
  -- The peer does not close the connection before its answers.
  abbrev pub KeepsOpen : ClientStub → Type 0
  KeepsOpen n = (k : ℕ) → net.texts n.fd k ≢ closed

  module _ (ok : Bool) (id : ℤ) where
    pub told_rm-sent :
        (n : ClientStub)
        → ((k : ℕ) → net.sends n.fd k ≡ true)
        → (told_rm net ok id n).1.sent
          ≡ (n.sent ++ Net.text (if ok then codes "TMCommit" else codes "TMAbort") ∷ [])
            ++ Net.number id ∷ []
    unfolding told_rm send_id_msg send_txn_id
    told_rm-sent n sends = ground (arith, sends n.calls, sends (n.calls + 1))

    told_rm_answered :
        (n : ClientStub) → KeepsOpen n → (t : Text) × ((told_rm net ok id n).0 ≡ some t)
    unfolding told_rm
    told_rm_answered n h =
        let decision = if ok then codes "TMCommit" else codes "TMAbort" in
        send_txn_id_answered net id (send_id_msg net decision n).1
          (λ k. subst (λ fd. net.texts fd k ≢ closed) (sym (fd-send_id_msg net decision n)) (h k))

    decide_rm_told :
        (n : ClientStub) → KeepsOpen n → decide_rm net ok id n ≡ some (told_rm net ok id n).1
    unfolding decide_rm
    decide_rm_told n h = let (t, e) = told_rm_answered n h in rw e refl

    pub decide_rms_told :
        (ns : List ClientStub)
        → All KeepsOpen ns
        → decide_rms net ok id ns ≡ some (map (λ n. (told_rm net ok id n).1) ns)
    unfolding decide_rms
    decide_rms_told [] h = refl
    decide_rms_told (n ∷ ns) (h, hs) = rw (decide_rm_told n h, decide_rms_told ns hs) refl

  -- Open, over a connection that hands over what is sent and that the peer does not close, with
  -- memory for the transaction.
  pub record IsServed (n : ClientStub) : Type 0 where
    pub open_socket : n.is_initialized ≡ true
    pub sends : (k : ℕ) → net.sends n.fd k ≡ true
    pub mallocs : (k : ℕ) → net.mallocs k ≡ true
    pub keeps_open : KeepsOpen n

  -- The text that the node reads once it has sent `TMPrepare` and the transaction.
  abbrev pub vote : ClientStub → Text
  vote n = elim (net.texts n.fd (n.calls + 1 + 1)) [
    | failed ↦ net.stray_text (n.calls + 1 + 1)
    | closed ↦ codes "ErrorNo"
    | got reply ↦ reply
  ]

  module _ (txn : Transaction) where
    pub prepare_rm-fd : (n : ClientStub) → (prepare_rm net txn n).1.fd ≡ n.fd
    unfolding prepare_rm send_id_msg send_txn_prepare_request
    prepare_rm-fd n = ground arith

    pub prepare_rm-sent :
        (n : ClientStub)
        → IsServed n
        → (prepare_rm net txn n).1.sent
          ≡ (n.sent ++ Net.text (codes "TMPrepare") ∷ []) ++ Net.txn txn ∷ []
    unfolding prepare_rm send_id_msg send_txn_prepare_request
    prepare_rm-sent n h =
        ground
          (arith, h.open_socket, h.sends n.calls, h.sends (n.calls + 1), h.mallocs (n.calls + 1))

    pub prepare_rm-vote : (n : ClientStub) → IsServed n → (prepare_rm net txn n).0 ≡ vote n
    unfolding prepare_rm send_id_msg send_txn_prepare_request
    prepare_rm-vote n h =
        ground
          (arith, h.open_socket, h.sends n.calls, h.sends (n.calls + 1), h.mallocs (n.calls + 1))

    prepare_rm-KeepsOpen : (n : ClientStub) → KeepsOpen n → KeepsOpen (prepare_rm net txn n).1
    prepare_rm-KeepsOpen n h k = subst (λ fd. net.texts fd k ≢ closed) (sym (prepare_rm-fd n)) (h k)

    pub prepare_rms-KeepsOpen :
        (ns : List ClientStub) → All KeepsOpen ns → All KeepsOpen (prepare_rms net txn ns).1
    unfolding prepare_rms
    prepare_rms-KeepsOpen [] h = tt
    prepare_rms-KeepsOpen (n ∷ ns) (h, hs) =
        elim (Bool-cases (eqb_text (prepare_rm net txn n).0 (codes "No"))) [
          | inl e ↦ rw e (prepare_rm-KeepsOpen n h, hs)
          | inr e ↦ rw e (prepare_rm-KeepsOpen n h, prepare_rms-KeepsOpen ns hs)
        ]

    -- Over nodes that keep open the phases end, with the answer that the first one decides.
    pub run_phases_ends :
        (ns : List ClientStub) (s : ServerStub)
        → All KeepsOpen ns
        → let (ok, asked) = prepare_rms net txn ns in
          run_phases net txn ns s
          ≡ some (
            if ok then send_response "Success" s else send_response "Failed" s,
            map (λ n. (told_rm net ok txn.txn_id n).1) asked,
          )
    unfolding run_phases
    run_phases_ends ns s h =
        let (ok, asked) = prepare_rms net txn ns in
        rw (decide_rms_told ok txn.txn_id asked (prepare_rms-KeepsOpen ns h)) refl

received :
    (s : ServerStub) (t : Transaction) (ms : List Message)
    → s.input ≡ Net.txn t ∷ ms
    → s.mallocs ≡ true
    → receive_txn_request s ≡ (some t, record s { input = ms })
received s t ms e m = rw (e, m) refl

module _ (net : Net) (rms : List PeerServersInfo) (s : ServerStub) (id : ℤ) (t : Transaction)
    (ms : List Message) (e : s.input ≡ Net.txn t ∷ ms) (m : s.mallocs ≡ true) where
  -- A transaction whose clusters are all reached, and one with a cluster that is not.
  pub transaction_manager_reached :
      (nodes told : List ClientStub) (u : ServerStub)
      → connect_rms net rms ≡ (true, nodes)
      → run_phases net (set_txn_id t id) nodes (record s { input = ms }) ≡ some (u, told)
      → transaction_manager net rms s id ≡ some (u, inc id, told)
  unfolding transaction_manager
  transaction_manager_reached nodes told u c runs =
      rw (transaction_manager, received s t ms e m, c, runs) refl

  pub transaction_manager_not_reached :
      (nodes : List ClientStub)
      → connect_rms net rms ≡ (false, nodes)
      → transaction_manager net rms s id
        ≡ some (send_response "Failed" (record s { input = ms }), inc id, nodes)
  unfolding transaction_manager
  transaction_manager_not_reached nodes c = rw (transaction_manager, received s t ms e m, c) refl
