-- ===== src/TransactionManager/Agreement.antt =====
-- What `transaction_manager` (TransactionManager.cpp) sends to the resource managers.
use two_phase_commit_protoco.Base.{
  true, subst, ◌≡◌, refl, ◌⊎◌, inl, inr, Bool, false, Option, none, some, List, [], ◌∷◌, arith, All,
  Bool-cases, Option-cases, if◌then◌else◌,
}
use two_phase_commit_protoco.Base.Int.{ℤ, inc}
use two_phase_commit_protoco.Base.Text.{Text, codes, eqb_text}
use two_phase_commit_protoco.Messages.Replication.{PeerServersInfo}
use two_phase_commit_protoco.Messages.Transaction.{Transaction, set_txn_id}
use two_phase_commit_protoco.Net
use two_phase_commit_protoco.Net.{Net, Message, Answer, failed, closed, got}
use two_phase_commit_protoco.ClientStub.{ClientStub, new_stub, init}
use two_phase_commit_protoco.ClientStub.Laws.{
  sent_text, sent-send_id_msg, sent-send_txn_prepare_request, sent-send_txn_id, sent-init,
}
use two_phase_commit_protoco.ServerStub.{ServerStub, send_response, receive_txn_request}
use two_phase_commit_protoco.TransactionManager.{
  connect_rm, connect_rms, prepare_rm, prepare_rms, told_rm, decide_rm, decide_rms, run_phases,
  transaction_manager,
}

-- What holds of a result, where there is one.
abbrev OnSome : {A : Type 0} → (A → Type 0) → Option A → Type 0
OnSome P none = Unit
OnSome P (some a) = P a

OnSome-map :
    {A : Type 0} {P Q : A → Type 0}
    → ((a : A) → P a → Q a)
    → (o : Option A) → OnSome P o
    → OnSome Q o
OnSome-map f none h = tt
OnSome-map f (some a) h = f a h

module _ (net : Net) where
  abbrev pub Unsent : Text → ClientStub → Type 0
  Unsent t node = sent_text t node.sent ≡ false

  connect_rm-sent : (rm : PeerServersInfo) → (connect_rm net rm).1.sent ≡ []
  unfolding connect_rm
  connect_rm-sent rm = ground (
    arith,
    sent-init net rm.ip rm.port new_stub,
    sent-init net rm.backup_ip rm.backup_port (init net rm.ip rm.port new_stub).1,
  )

  pub connect_rms-sent :
      (rms : List PeerServersInfo) → All (λ n. n.sent ≡ []) (connect_rms net rms).1
  unfolding connect_rms
  connect_rms-sent [] = tt
  connect_rms-sent (rm ∷ rms) = elim (Bool-cases (connect_rm net rm).0) [
    | inl e ↦ rw e (connect_rm-sent rm, connect_rms-sent rms)
    | inr e ↦ rw e (connect_rm-sent rm, tt)
  ]

  module _ (t : Text) where
    All-Unsent : (nodes : List ClientStub) → All (λ n. n.sent ≡ []) nodes → All (Unsent t) nodes
    All-Unsent [] h = tt
    All-Unsent (n ∷ nodes) (h, hs) = (rw h refl, All-Unsent nodes hs)

    prepare_rm-Unsent :
        (txn : Transaction) (n : ClientStub)
        → eqb_text (codes "TMPrepare") t ≡ false
        → Unsent t n
        → Unsent t (prepare_rm net txn n).1
    unfolding prepare_rm
    prepare_rm-Unsent txn n ne h =
        sent-send_txn_prepare_request net t txn _
          (sent-send_id_msg net t (codes "TMPrepare") n h ne)

    prepare_rms-Unsent :
        (txn : Transaction) (nodes : List ClientStub)
        → eqb_text (codes "TMPrepare") t ≡ false
        → All (Unsent t) nodes
        → All (Unsent t) (prepare_rms net txn nodes).1
    unfolding prepare_rms
    prepare_rms-Unsent txn [] ne h = tt
    prepare_rms-Unsent txn (n ∷ nodes) ne (h, hs) =
        elim (Bool-cases (eqb_text (prepare_rm net txn n).0 (codes "No"))) [
          | inl e ↦ rw e (prepare_rm-Unsent txn n ne h, hs)
          | inr e ↦ rw e (prepare_rm-Unsent txn n ne h, prepare_rms-Unsent txn nodes ne hs)
        ]

    told_rm-Unsent :
        (ok : Bool) (id : ℤ) (n : ClientStub)
        → eqb_text (if ok then codes "TMCommit" else codes "TMAbort") t ≡ false
        → Unsent t n
        → Unsent t (told_rm net ok id n).1
    unfolding told_rm
    told_rm-Unsent ok id n ne h =
        sent-send_txn_id net t id _
          (sent-send_id_msg net t (if ok then codes "TMCommit" else codes "TMAbort") n h ne)

    decide_rms-Unsent :
        (ok : Bool) (id : ℤ) (nodes : List ClientStub)
        → eqb_text (if ok then codes "TMCommit" else codes "TMAbort") t ≡ false
        → All (Unsent t) nodes
        → OnSome (All (Unsent t)) (decide_rms net ok id nodes)
    unfolding decide_rms decide_rm
    decide_rms-Unsent ok id [] ne h = tt
    decide_rms-Unsent ok id (n ∷ nodes) ne (h, hs) = elim (Option-cases (told_rm net ok id n).0) [
      | inl e ↦ rw e tt
      | inr (answer, e) ↦
          let others = decide_rms-Unsent ok id nodes ne hs in
          elim (Option-cases (decide_rms net ok id nodes)) [
            | inl r ↦ rw (e, r) tt
            | inr (told, r) ↦
                rw (e, r) (told_rm-Unsent ok id n ne h, subst (OnSome (All (Unsent t))) r others)
          ]
    ]

    run_phases-Unsent :
        (txn : Transaction) (nodes : List ClientStub) (s : ServerStub)
        → eqb_text (codes "TMPrepare") t ≡ false
        → eqb_text (if (prepare_rms net txn nodes).0 then codes "TMCommit" else codes "TMAbort") t
          ≡ false
        → All (Unsent t) nodes
        → OnSome
            (λ (r : ServerStub × List ClientStub). All (Unsent t) r.1)
            (run_phases net txn nodes s)
    unfolding run_phases
    run_phases-Unsent txn nodes s ne nd h =
        let (ok, asked) = prepare_rms net txn nodes in
        let unsent = decide_rms-Unsent ok txn.txn_id asked nd (prepare_rms-Unsent txn nodes ne h) in
        elim (Option-cases (decide_rms net ok txn.txn_id asked)) [
          | inl r ↦ rw r tt
          | inr (told, r) ↦ rw r (subst (OnSome (All (Unsent t))) r unsent)
        ]

  abbrev Agree : List ClientStub → Type 0
  Agree nodes = All (Unsent (codes "TMAbort")) nodes ⊎ All (Unsent (codes "TMCommit")) nodes

  abbrev AgreeResult : Option (ServerStub × ℤ × List ClientStub) → Type 0
  AgreeResult r = OnSome (λ (x : ServerStub × ℤ × List ClientStub). Agree x.2) r

  run_phases-Agree :
      (txn : Transaction) (nodes : List ClientStub) (s : ServerStub)
      → All (λ n. n.sent ≡ []) nodes
      → OnSome (λ (r : ServerStub × List ClientStub). Agree r.1) (run_phases net txn nodes s)
  run_phases-Agree txn nodes s h = elim (Bool-cases (prepare_rms net txn nodes).0) [
    | inl e ↦
        OnSome-map (λ r a. inl a) (run_phases net txn nodes s)
          (run_phases-Unsent (codes "TMAbort") txn nodes s (unfold eqb_text in refl)
            (rw e (unfold eqb_text in refl)) (All-Unsent (codes "TMAbort") nodes h))
    | inr e ↦
        OnSome-map (λ r a. inr a) (run_phases net txn nodes s)
          (run_phases-Unsent (codes "TMCommit") txn nodes s (unfold eqb_text in refl)
            (rw e (unfold eqb_text in refl)) (All-Unsent (codes "TMCommit") nodes h))
  ]

  transaction_manager-AgreeResult :
      (rms : List PeerServersInfo) (s : ServerStub) (id : ℤ)
      → AgreeResult (transaction_manager net rms s id)
  unfolding transaction_manager
  transaction_manager-AgreeResult rms s id = elim (Option-cases (receive_txn_request s).0) [
    | inl e ↦ rw e tt
    | inr (req, e) ↦ elim (Bool-cases (connect_rms net rms).0) [
      | inl c ↦
          let s1 = (receive_txn_request s).1 in
          let nodes = (connect_rms net rms).1 in
          let agree = run_phases-Agree (set_txn_id req id) nodes s1 (connect_rms-sent rms) in
          elim (Option-cases (run_phases net (set_txn_id req id) nodes s1)) [
            | inl r ↦ rw (e, c, r) tt
            | inr (t, r) ↦
                rw (e, c, r)
                  (subst (OnSome (λ (x : ServerStub × List ClientStub). Agree x.1)) r agree)
          ]
      | inr c ↦ rw (e, c) (inl (All-Unsent (codes "TMAbort") _ (connect_rms-sent rms)))
    ]
  ]

  -- A run of the transaction manager that returns does not tell one resource manager to commit and
  -- another to abort: of the two texts one is sent to nobody.
  pub transaction_manager_agrees :
      (rms : List PeerServersInfo) (s s' : ServerStub) (id id' : ℤ) (nodes : List ClientStub)
      → transaction_manager net rms s id ≡ some (s', id', nodes)
      → All (Unsent (codes "TMAbort")) nodes ⊎ All (Unsent (codes "TMCommit")) nodes
  transaction_manager_agrees rms s s' id id' nodes e =
      subst AgreeResult e (transaction_manager-AgreeResult rms s id)

  -- If the client's transaction arrives, with memory to receive it, and a cluster cannot be
  -- reached, the client is told "Failed", the next transaction gets the next id and nothing is sent
  -- to any node.
  pub transaction_manager_unreached :
      (rms : List PeerServersInfo) (s : ServerStub) (id : ℤ) (req : Transaction) (ms : List Message)
      → s.input ≡ Net.txn req ∷ ms
      → s.mallocs ≡ true
      → (connect_rms net rms).0 ≡ false
      → let nodes = (connect_rms net rms).1 in
        (transaction_manager net rms s id
          ≡ some (send_response "Failed" (record s { input = ms }), inc id, nodes))
        × All (λ n. n.sent ≡ []) nodes
  unfolding transaction_manager
  transaction_manager_unreached rms s id req ms e m c = (rw (e, m, c), connect_rms-sent rms)
