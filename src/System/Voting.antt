-- ===== src/System/Voting.antt =====
-- The first phase over all managers at once (TransactionManager.cpp: `transaction_manager`;
-- ServerThread.cpp: `TMPrepare`).
use two_phase_commit_protoco.Base.{
  Bool, ◌+◌, ◌≡◌, refl, sym, ap, ◌∙◌, subst, ◌⊎◌, inl, inr, true, false, Option, none, some, List,
  [], ◌∷◌, map, arith, All, Bool-cases,
}
use two_phase_commit_protoco.Base.Text.{Text, codes, eqb_text}
use two_phase_commit_protoco.Messages.Transaction.{Transaction}
use two_phase_commit_protoco.Net
use two_phase_commit_protoco.Net.{Net, Message, Answer, failed, closed, got}
use two_phase_commit_protoco.ClientStub.{ClientStub, send_id_msg, send_txn_prepare_request}
use two_phase_commit_protoco.ServerStub.{ServerStub}
use two_phase_commit_protoco.Factory.State.{Factory}
use two_phase_commit_protoco.Factory.Manager.{all_ok}
use two_phase_commit_protoco.Factory.Manager.Vote.{Current, all_ok-Current}
use two_phase_commit_protoco.TransactionManager.{prepare_rm, prepare_rms}
use two_phase_commit_protoco.System.{Site, run_site, IsLinked, CanTake}
use two_phase_commit_protoco.System.Runs.{run_prepare_ok, run_prepare_no}

abbrev pub nodes_of : List Site → List ClientStub
nodes_of cs = map (λ (c : Site). c.node) cs

-- All that the client has read is current at the manager.
abbrev pub ReadsCurrent : Transaction → Site → Type 0
ReadsCurrent txn c = All (Current c.manager.customer_record) txn.read_records

abbrev replies_of : Option (ServerStub × Factory) → List Message
replies_of none = []
replies_of (some (s, f)) = s.replies

abbrev first_text : List Message → Text
first_text (Net.text t ∷ _) = t
first_text _ = []

module _ (net : Net) (txn : Transaction) where
  -- The messages of the first phase.
  abbrev pub request : List Message
  request = Net.text (codes "TMPrepare") ∷ Net.txn txn ∷ []

  abbrev pub after_request : ClientStub → ClientStub
  after_request n = record n { calls = n.calls + 1 + 1 + 1; sent = request }

  prepare_rm_linked :
      (c : Site) (h : IsLinked net txn c)
      → prepare_rm net txn c.node ≡ (h.reply, after_request c.node)
  unfolding prepare_rm send_id_msg send_txn_prepare_request
  prepare_rm_linked c h = ground (
    arith,
    h.open_socket,
    h.unused,
    h.sends c.node.calls,
    h.sends (c.node.calls + 1),
    h.mallocs (c.node.calls + 1),
    h.reads,
  )

  reply_is :
      (c : Site) (h : IsLinked net txn c) (t : Text) (last : ServerStub) (g : Factory)
      → run_site c request ≡ some (last, g)
      → last.replies ≡ Net.text t ∷ []
      → h.reply ≡ t
  reply_is c h t last g runs e =
      ap first_text (sym h.one_reply ∙ ap replies_of (sym h.replies ∙ runs) ∙ e)

  consents :
      (c : Site) (h : IsLinked net txn c)
      → CanTake txn c.manager
      → ReadsCurrent txn c
      → eqb_text h.reply (codes "No") ≡ false
  consents c h can cur =
      rw
        (reply_is c h (codes "Ok") _ _ (run_prepare_ok txn c h.link_mallocs h.no_command can cur)
          refl)
        (unfold eqb_text in refl)

  refuses :
      (c : Site) (h : IsLinked net txn c)
      → CanTake txn c.manager
      → ¬ ReadsCurrent txn c
      → eqb_text h.reply (codes "No") ≡ true
  refuses c h can stale =
      rw
        (reply_is c h (codes "No") _ _ (run_prepare_no txn c h.link_mallocs h.no_command can stale)
          refl)
        (unfold eqb_text in refl)

  prepare_rms_yes :
      (n n' : ClientStub) (ns : List ClientStub) (reply : Text)
      → prepare_rm net txn n ≡ (reply, n')
      → eqb_text reply (codes "No") ≡ false
      → prepare_rms net txn (n ∷ ns) ≡ ((prepare_rms net txn ns).0, n' ∷ (prepare_rms net txn ns).1)
  unfolding prepare_rms
  prepare_rms_yes n n' ns reply e h = rw (e, h) refl

  prepare_rms_no :
      (n n' : ClientStub) (ns : List ClientStub) (reply : Text)
      → prepare_rm net txn n ≡ (reply, n')
      → eqb_text reply (codes "No") ≡ true
      → prepare_rms net txn (n ∷ ns) ≡ (false, n' ∷ ns)
  unfolding prepare_rms
  prepare_rms_no n n' ns reply e h = rw (e, h) refl

  -- The nodes after the first phase, which each site has been asked in, or may have been asked in.
  abbrev pub Heard : List Site → List ClientStub → Type 0
  Heard [] [] = Unit
  Heard [] (n ∷ ns) = ⊥
  Heard (c ∷ cs) [] = ⊥
  Heard (c ∷ cs) (n ∷ ns) = (n.fd ≡ c.node.fd) × ((n.sent ≡ request) ⊎ (n.sent ≡ [])) × Heard cs ns

  abbrev pub AllHeard : List Site → List ClientStub → Type 0
  AllHeard [] [] = Unit
  AllHeard [] (n ∷ ns) = ⊥
  AllHeard (c ∷ cs) [] = ⊥
  AllHeard (c ∷ cs) (n ∷ ns) = (n.fd ≡ c.node.fd) × (n.sent ≡ request) × AllHeard cs ns

  unasked : (cs : List Site) → All (IsLinked net txn) cs → Heard cs (nodes_of cs)
  unasked [] h = tt
  unasked (c ∷ cs) (h, hs) = (refl, inr h.unused, unasked cs hs)

  -- The two ends of the first phase.
  abbrev pub Voted : List Site → Bool × List ClientStub → Type 0
  Voted cs (ok, ns) =
      ((ok ≡ true) × All (ReadsCurrent txn) cs × AllHeard cs ns)
      ⊎ ((ok ≡ false) × (¬ All (ReadsCurrent txn) cs) × Heard cs ns)

  pub prepare_rms-Voted :
      (cs : List Site)
      → All (IsLinked net txn) cs
      → All (λ (c : Site). CanTake txn c.manager) cs
      → Voted cs (prepare_rms net txn (nodes_of cs))
  prepare_rms-Voted [] h can = unfold prepare_rms in inl (refl, tt, tt)
  prepare_rms-Voted (c ∷ cs) (h, hs) (can, cans) =
      let n = after_request c.node in
      let step = prepare_rm_linked c h in
      let (to, from) = all_ok-Current c.manager.customer_record txn.read_records in
      elim (Bool-cases (all_ok c.manager.customer_record txn.read_records)) [
        | inl ok ↦
            subst (Voted (c ∷ cs))
              (sym (prepare_rms_yes c.node n (nodes_of cs) h.reply step (consents c h can (to ok))))
              (elim (prepare_rms-Voted cs hs cans) [
                | inl (t, cur, heard) ↦ inl (t, (to ok, cur), (refl, refl, heard))
                | inr (f, stale, heard) ↦ inr (f, λ all. stale all.1, (refl, inl refl, heard))
              ])
        | inr no_vote ↦
            let stale : ¬ ReadsCurrent txn c = λ cur. cc (from cur, no_vote) in
            subst (Voted (c ∷ cs))
              (sym (prepare_rms_no c.node n (nodes_of cs) h.reply step (refuses c h can stale)))
              (inr (refl, λ all. stale all.0, (refl, inl refl, unasked cs hs)))
      ]
