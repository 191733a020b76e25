-- ===== src/TransactionManager/Decision.antt =====
-- The decision of `transaction_manager` (TransactionManager.cpp) and who is told what.
use two_phase_commit_protoco.Base.{
  ℕ, true, false, Bool, ◌≡◌, ◌≢◌, refl, sym, ap, ◌∙◌, subst, some, List, [], ◌∷◌, ◌++◌,
  append_assoc, map, All, if◌then◌else◌,
}
use two_phase_commit_protoco.Base.Int.{ℤ, inc}
use two_phase_commit_protoco.Base.Text.{codes, eqb_text}
use two_phase_commit_protoco.Messages.Replication.{PeerServersInfo}
use two_phase_commit_protoco.Messages.Transaction.{Transaction, set_txn_id}
use two_phase_commit_protoco.Net
use two_phase_commit_protoco.Net.{Net, Message, Answer, failed, closed, got}
use two_phase_commit_protoco.ClientStub.{ClientStub}
use two_phase_commit_protoco.ServerStub.{ServerStub, send_response}
use two_phase_commit_protoco.TransactionManager.{
  connect_rms, prepare_rm, prepare_rms, told_rm, transaction_manager,
}
use two_phase_commit_protoco.TransactionManager.Told.{
  KeepsOpen, IsServed, vote, prepare_rm-fd, prepare_rm-sent, prepare_rm-vote, told_rm-sent,
  run_phases_ends, transaction_manager_reached,
}
use two_phase_commit_protoco.TransactionManager.Agreement.{connect_rms-sent}
use two_phase_commit_protoco.Base.{◌⊎◌, inl, inr, Bool-cases}

module _ (net : Net) where
  -- A node that the phases can be run over, whose vote is not "No", and one whose vote is.
  abbrev pub Consents : ClientStub → Type 0
  Consents n = IsServed net n × (eqb_text (vote net n) (codes "No") ≡ false)

  abbrev pub Refuses : ClientStub → Type 0
  Refuses n = IsServed net n × (eqb_text (vote net n) (codes "No") ≡ true)

module _ (net : Net) (txn : Transaction) where
  abbrev asked : ClientStub → ClientStub
  asked n = (prepare_rm net txn n).1

  prepare_rms-Consents :
      (nodes : List ClientStub)
      → All (Consents net) nodes
      → prepare_rms net txn nodes ≡ (true, map asked nodes)
  unfolding prepare_rms
  prepare_rms-Consents [] h = refl
  prepare_rms-Consents (n ∷ nodes) ((served, h), hs) =
      rw (prepare_rm-vote net txn n served, h, prepare_rms-Consents nodes hs) refl

  prepare_rms-Refuses :
      (before after : List ClientStub) (n : ClientStub)
      → All (Consents net) before
      → Refuses net n
      → prepare_rms net txn (before ++ n ∷ after) ≡ (false, map asked before ++ asked n ∷ after)
  unfolding prepare_rms
  prepare_rms-Refuses [] after n h (served, r) = rw (prepare_rm-vote net txn n served, r) refl
  prepare_rms-Refuses (b ∷ before) after n ((served, h), hs) r =
      rw (prepare_rm-vote net txn b served, h, prepare_rms-Refuses before after n hs r) refl

  -- The messages over the two phases.
  abbrev request : List Message
  request = Net.text (codes "TMPrepare") ∷ Net.txn txn ∷ []

  abbrev told : Bool → ClientStub → ClientStub
  told ok n = (told_rm net ok txn.txn_id n).1

  asked-sent : (n : ClientStub) → IsServed net n → n.sent ≡ [] → (asked n).sent ≡ request
  asked-sent n h e =
      prepare_rm-sent net txn n h
      ∙ ap (λ l. (l ++ Net.text (codes "TMPrepare") ∷ []) ++ Net.txn txn ∷ []) e

  asked-KeepsOpen : (n : ClientStub) → IsServed net n → KeepsOpen net (asked n)
  asked-KeepsOpen n h k =
      subst (λ fd. net.texts fd k ≢ closed) (sym (prepare_rm-fd net txn n)) (h.keeps_open k)

  asked_sends : (n : ClientStub) → IsServed net n → (k : ℕ) → net.sends (asked n).fd k ≡ true
  asked_sends n h k =
      subst (λ fd. net.sends fd k ≡ true) (sym (prepare_rm-fd net txn n)) (h.sends k)

  -- What a node has been sent over both phases.
  abbrev sent_by : ClientStub → List Message
  sent_by n = n.sent

  abbrev decision : Bool → List Message
  decision ok =
      Net.text (if ok then codes "TMCommit" else codes "TMAbort") ∷ Net.number txn.txn_id ∷ []

  told-sent :
      (ok : Bool) (n : ClientStub) (ms : List Message)
      → ((k : ℕ) → net.sends n.fd k ≡ true)
      → n.sent ≡ ms
      → (told ok n).sent ≡ ms ++ decision ok
  told-sent ok n ms h e =
      told_rm-sent net ok txn.txn_id n h
      ∙ append_assoc n.sent (Net.text (if ok then codes "TMCommit" else codes "TMAbort") ∷ [])
          (Net.number txn.txn_id ∷ [])
      ∙ ap (λ l. l ++ decision ok) e

  told-asked-sent :
      (ok : Bool) (nodes : List ClientStub)
      → All (IsServed net) nodes
      → All (λ n. n.sent ≡ []) nodes
      → map sent_by (map (told ok) (map asked nodes)) ≡ map (λ _. request ++ decision ok) nodes
  told-asked-sent ok [] h e = refl
  told-asked-sent ok (n ∷ nodes) (h, hs) (e, es) =
      rw
        (
          told-sent ok (asked n) request (asked_sends n h) (asked-sent n h e),
          told-asked-sent ok nodes hs es,
        )
        refl

  told_unasked-sent :
      (ok : Bool) (nodes : List ClientStub)
      → All (IsServed net) nodes
      → All (λ n. n.sent ≡ []) nodes
      → map sent_by (map (told ok) nodes) ≡ map (λ _. decision ok) nodes
  told_unasked-sent ok [] h e = refl
  told_unasked-sent ok (n ∷ nodes) (h, hs) (e, es) =
      rw (told-sent ok n [] h.sends e, told_unasked-sent ok nodes hs es) refl

  -- The first node that refuses ends the first phase, and is the last one that has been asked.
  told_cut-sent :
      (ok : Bool) (before after : List ClientStub) (n : ClientStub)
      → All (IsServed net) before
      → IsServed net n
      → All (IsServed net) after
      → All (λ n. n.sent ≡ []) (before ++ n ∷ after)
      → map sent_by (map (told ok) (map asked before ++ asked n ∷ after))
        ≡ map (λ _. request ++ decision ok) before
          ++ (request ++ decision ok) ∷ map (λ _. decision ok) after
  told_cut-sent ok [] after n h served hs (e, es) =
      rw
        (
          told-sent ok (asked n) request (asked_sends n served) (asked-sent n served e),
          told_unasked-sent ok after hs es,
        )
        refl
  told_cut-sent ok (b ∷ before) after n (h, hs) served after_h (e, es) =
      rw
        (
          told-sent ok (asked b) request (asked_sends b h) (asked-sent b h e),
          told_cut-sent ok before after n hs served after_h es,
        )
        refl

  -- The outcome of the first phase.
  abbrev Decided : List ClientStub → Bool → Type 0
  Decided nodes ok =
      ((ok ≡ true) × All (Consents net) nodes) ⊎ ((ok ≡ false) × (¬ All (Consents net) nodes))

  pub prepare_rms-Decided :
      (nodes : List ClientStub)
      → All (IsServed net) nodes
      → Decided nodes (prepare_rms net txn nodes).0
  unfolding prepare_rms
  prepare_rms-Decided [] h = inl (refl, tt)
  prepare_rms-Decided (n ∷ nodes) (h, hs) =
      let voted = prepare_rm-vote net txn n h in
      elim (Bool-cases (eqb_text (vote net n) (codes "No"))) [
        | inl e ↦ rw (voted, e) (inr (refl, λ all. cc all.0.1))
        | inr e ↦
            rw (voted, e)
              (elim (prepare_rms-Decided nodes hs) [
                | inl (t, all) ↦ inl (t, ((h, refl), all))
                | inr (f, some_no) ↦ inr (f, λ all. some_no all.1)
              ])
      ]

All-IsServed :
    (net : Net) (nodes : List ClientStub) → All (Consents net) nodes → All (IsServed net) nodes
All-IsServed net [] h = tt
All-IsServed net (n ∷ nodes) (h, hs) = (h.0, All-IsServed net nodes hs)

pub All-KeepsOpen :
    (net : Net) (nodes : List ClientStub) → All (IsServed net) nodes → All (KeepsOpen net) nodes
All-KeepsOpen net [] h = tt
All-KeepsOpen net (n ∷ nodes) (h, hs) = (h.keeps_open, All-KeepsOpen net nodes hs)

All-cons_append :
    (P : ClientStub → Type 0) (before after : List ClientStub) (n : ClientStub)
    → All P before
    → P n
    → All P after
    → All P (before ++ n ∷ after)
All-cons_append P [] after n h p hs = (p, hs)
All-cons_append P (b ∷ before) after n (h, hs) p after_h =
    (h, All-cons_append P before after n hs p after_h)

unsent :
    (net : Net) (rms : List PeerServersInfo) (all : Bool) (nodes : List ClientStub)
    → connect_rms net rms ≡ (all, nodes)
    → All (λ n. n.sent ≡ []) nodes
unsent net rms all nodes c =
    subst (λ (r : Bool × List ClientStub). All (λ n. n.sent ≡ []) r.1) c (connect_rms-sent net rms)

module _ (net : Net) (rms : List PeerServersInfo) (s : ServerStub) (id : ℤ) where
  -- If the client's transaction arrives, with memory to receive it, every cluster is reached, over
  -- connections that hand over what is sent and that no node closes before its answers, and no node
  -- votes "No", the client is told "Success", the next transaction gets the next id, and each node
  -- has been sent `TMPrepare`, the transaction, `TMCommit` and its id, and nothing else.
  pub transaction_manager_commits :
      (req : Transaction) (ms : List Message) (nodes : List ClientStub)
      → s.input ≡ Net.txn req ∷ ms
      → s.mallocs ≡ true
      → connect_rms net rms ≡ (true, nodes)
      → All (Consents net) nodes
      → let txn = set_txn_id req id in
        (told : List ClientStub) × (transaction_manager net rms s id
          ≡ some (send_response "Success" (record s { input = ms }), inc id, told))
        × (map (λ n. n.sent) told
            ≡ map
                (λ _.
                  Net.text (codes "TMPrepare")
                  ∷ Net.txn txn
                  ∷ Net.text (codes "TMCommit")
                  ∷ Net.number id
                  ∷ [])
                nodes)
  transaction_manager_commits req ms nodes e m c h =
      let txn = set_txn_id req id in
      let served = All-IsServed net nodes h in
      let s1 = record s { input = ms } in
      let agreed = prepare_rms-Consents net txn nodes h in
      (
        map (told net txn true) (map (asked net txn) nodes),
        transaction_manager_reached net rms s id req ms e m nodes _ _ c
            (run_phases_ends net txn nodes s1 (All-KeepsOpen net nodes served) ∙ rw agreed refl),
        told-asked-sent net txn true nodes served (unsent net rms true nodes c),
      )

  -- If the client's transaction arrives, with memory to receive it, every cluster is reached, over
  -- connections that hand over what is sent and that no node closes before its answers, and a node is
  -- the first to vote "No", the client is told "Failed", the next transaction gets the next id, and
  -- each node up to this one has been sent `TMPrepare`, the transaction, `TMAbort` and its id, and
  -- each node after it only `TMAbort` and the id.
  pub transaction_manager_aborts :
      (req : Transaction) (ms : List Message) (before after : List ClientStub) (n : ClientStub)
      → s.input ≡ Net.txn req ∷ ms
      → s.mallocs ≡ true
      → connect_rms net rms ≡ (true, before ++ n ∷ after)
      → All (Consents net) before
      → Refuses net n
      → All (IsServed net) after
      → let abort = Net.text (codes "TMAbort") ∷ Net.number id ∷ [] in
        let asked = Net.text (codes "TMPrepare") ∷ Net.txn (set_txn_id req id) ∷ abort in
        (told : List ClientStub) × (transaction_manager net rms s id
          ≡ some (send_response "Failed" (record s { input = ms }), inc id, told))
        × (map (λ n. n.sent) told ≡ map (λ _. asked) before ++ asked ∷ map (λ _. abort) after)
  transaction_manager_aborts req ms before after n e m c h r later =
      let txn = set_txn_id req id in
      let nodes = before ++ n ∷ after in
      let s1 = record s { input = ms } in
      let served = All-IsServed net before h in
      let all = All-cons_append (IsServed net) before after n served r.0 later in
      let refused = prepare_rms-Refuses net txn before after n h r in
      (
        map (told net txn false) (map (asked net txn) before ++ asked net txn n ∷ after),
        transaction_manager_reached net rms s id req ms e m nodes _ _ c
            (run_phases_ends net txn nodes s1 (All-KeepsOpen net nodes all) ∙ rw refused refl),
        told_cut-sent net txn false before after n served r.0 later (unsent net rms true nodes c),
      )
