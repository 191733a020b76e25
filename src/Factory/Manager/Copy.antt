-- ===== src/Factory/Manager/Copy.antt =====
-- `CopyTranlogReplica` (ServerThread.cpp) over connections that are open already and over others.
use two_phase_commit_protoco.Base.{
  ℕ, ◌+◌, ◌≡◌, refl, ◌∙◌, ◌⊎◌, inl, inr, true, false, List, [], ◌∷◌, ◌++◌, append_assoc, map, All,
  arith, Bool-cases,
}
use two_phase_commit_protoco.Base.Int.{ℤ}
use two_phase_commit_protoco.Base.Text.{codes}
use two_phase_commit_protoco.Messages.Transaction.{Transaction}
use two_phase_commit_protoco.Net
use two_phase_commit_protoco.Net.{Net, Message, Answer, failed, closed, got}
use two_phase_commit_protoco.ClientStub.{init, send_id_msg, send_txn_prepare_request}
use two_phase_commit_protoco.ClientStub.Laws.{init_again}
use two_phase_commit_protoco.Factory.State.{Peer, Factory}
use two_phase_commit_protoco.Factory.Manager.{copy_to, copy_tranlog_replica}

module _ (net : Net) (txn : Transaction) where
  -- Over a network that hands over what is sent, with memory for the transaction.
  pub record IsReliable : Type 0 where
    pub sends : (fd : ℤ) (k : ℕ) → net.sends fd k ≡ true
    pub mallocs : (k : ℕ) → net.mallocs k ≡ true

  abbrev pub Reached : Peer → Type 0
  Reached p = (net.connect p.info.ip p.info.port p.node.calls).1 ≡ true

  -- A peer whose connection is open is left as it is; another one is connected and sent the
  -- transaction.
  abbrev pub Copied : Peer → Peer → Type 0
  Copied p q =
      ((p.node.is_initialized ≡ true) × (q ≡ p))
      ⊎ ((p.node.is_initialized ≡ false)
          × (q.live ≡ true)
          × (q.node.sent ≡ p.node.sent ++ Net.text (codes "PrPrepare") ∷ Net.txn txn ∷ []))

  abbrev pub EachCopied : List Peer → List Peer → Type 0
  EachCopied [] [] = Unit
  EachCopied [] (q ∷ qs) = ⊥
  EachCopied (p ∷ ps) [] = ⊥
  EachCopied (p ∷ ps) (q ∷ qs) = Copied p q × EachCopied ps qs

  copy_to_open : (p : Peer) → p.node.is_initialized ≡ true → copy_to net txn p ≡ p
  unfolding copy_to
  copy_to_open p h = rw (init_again net p.info.ip p.info.port p.node h) refl

  copy_to_new :
      (p : Peer)
      → IsReliable
      → Reached p
      → p.node.is_initialized ≡ false
      → ((copy_to net txn p).live ≡ true)
        × ((copy_to net txn p).node.sent
            ≡ (p.node.sent ++ Net.text (codes "PrPrepare") ∷ []) ++ Net.txn txn ∷ [])
  unfolding copy_to init send_id_msg send_txn_prepare_request
  copy_to_new p v r h =
      let fd = (net.connect p.info.ip p.info.port p.node.calls).0 in
      let k = p.node.calls + 1 in
      (
        ground (arith, h, r),
        ground (arith, h, r, v.sends fd k, v.sends fd (k + 1), v.mallocs (k + 1)),
      )

  copy_to-Copied : (p : Peer) → IsReliable → Reached p → Copied p (copy_to net txn p)
  copy_to-Copied p v r = elim (Bool-cases p.node.is_initialized) [
    | inl e ↦ inl (e, copy_to_open p e)
    | inr e ↦
        let (live, sent) = copy_to_new p v r e in
        inr (
          e,
          live,
          sent ∙ append_assoc p.node.sent (Net.text (codes "PrPrepare") ∷ []) (Net.txn txn ∷ []),
        )
  ]

  each-Copied :
      (ps : List Peer) → IsReliable → All Reached ps → EachCopied ps (map (copy_to net txn) ps)
  each-Copied [] v r = tt
  each-Copied (p ∷ ps) v (r, rs) = (copy_to-Copied p v r, each-Copied ps v rs)

  -- Over a network that hands over what is sent and reaches all peers, `CopyTranlogReplica` sends a
  -- prepared transaction to the peers whose connection is not open yet, after "PrPrepare", and counts
  -- them as live, but a peer whose connection is open it leaves as it is, with no message; besides
  -- the peers nothing changes.
  pub copy_tranlog_replica_skips :
      (f : Factory)
      → IsReliable
      → All Reached f.peers
      → (qs : List Peer) × (copy_tranlog_replica net txn f ≡ record f { peers = qs })
        × EachCopied f.peers qs
  unfolding copy_tranlog_replica
  copy_tranlog_replica_skips f v r = (map (copy_to net txn) f.peers, refl, each-Copied f.peers v r)
