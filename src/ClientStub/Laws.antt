-- ===== src/ClientStub/Laws.antt =====
-- What a caller of `ClientStub` relies on.
use two_phase_commit_protoco.Base.{
  some, inr, ◌≢◌, ◌⊎◌, inl, ℕ, refl, ◌≢◌, ◌⊎◌, inl, inr, some, ◌||◌, false, Bool, List, ◌+◌, String,
  ◌≡◌, true, [], ◌∷◌, ◌++◌, arith,
}
use two_phase_commit_protoco.Base.Int.{ℤ, pos}
use two_phase_commit_protoco.Base.Text.{Text, eqb_text}
use two_phase_commit_protoco.Messages.Replication.{ReplicationRequest}
use two_phase_commit_protoco.Messages.Transaction.{Transaction}
use two_phase_commit_protoco.Net
use two_phase_commit_protoco.Net.{Net, Message, Answer, got}
use two_phase_commit_protoco.ClientStub.{
  closed, txn_id_reply, failed, receive, ClientStub, init, send_id_msg, send_replication_req,
  send_txn_prepare_request, send_txn_id,
}

module _ (net : Net) where
  -- An initialised socket is not connected again.
  pub init_again :
      (ip : String) (port : ℤ) (s : ClientStub)
      → s.is_initialized ≡ true
      → init net ip port s ≡ (pos 0, s)
  unfolding init
  init_again ip port s h = rw h

  -- A request over an open connection that the peer answers.
  pub send_replication_req_open :
      (req : ReplicationRequest) (s : ClientStub) {reply : Text}
      → s.is_initialized ≡ true
      → net.sends s.fd s.calls ≡ true
      → net.texts s.fd (s.calls + 1) ≡ got reply
      → send_replication_req net req s
        ≡ (reply, record s { calls = s.calls + 1 + 1; sent = s.sent ++ Net.replication req ∷ [] })
  unfolding send_replication_req
  send_replication_req_open req s h a b = ground arith

-- Whether a text is among the messages that were handed over.
abbrev is_text : Text → Message → Bool
is_text t (Net.text u) = eqb_text u t
is_text t _ = false

abbrev pub sent_text : Text → List Message → Bool
sent_text t [] = false
sent_text t (m ∷ ms) = is_text t m || sent_text t ms

sent_text-append :
    (t : Text) (ms : List Message) (m : Message)
    → sent_text t (ms ++ m ∷ []) ≡ (sent_text t ms || is_text t m)
sent_text-append t [] m = ground arith
sent_text-append t (x ∷ ms) m = ground (arith, sent_text-append t ms m)

module _ (net : Net) where
  -- What a call adds to the messages that were handed over.
  pub sent-send_id_msg :
      (t message : Text) (s : ClientStub)
      → sent_text t s.sent ≡ false
      → eqb_text message t ≡ false
      → sent_text t (send_id_msg net message s).1.sent ≡ false
  unfolding send_id_msg
  sent-send_id_msg t message s h ne = ground (arith, sent_text-append t s.sent (Net.text message))

  pub sent-send_txn_prepare_request :
      (t : Text) (req : Transaction) (s : ClientStub)
      → sent_text t s.sent ≡ false
      → sent_text t (send_txn_prepare_request net req s).1.sent ≡ false
  unfolding send_txn_prepare_request
  sent-send_txn_prepare_request t req s h = ground (arith, sent_text-append t s.sent (Net.txn req))

  pub sent-send_txn_id :
      (t : Text) (id : ℤ) (s : ClientStub)
      → sent_text t s.sent ≡ false
      → sent_text t (send_txn_id net id s).1.sent ≡ false
  unfolding send_txn_id
  sent-send_txn_id t id s h = ground (arith, sent_text-append t s.sent (Net.number id))

  -- A call of `init` hands over nothing.
  pub sent-init : (ip : String) (port : ℤ) (s : ClientStub) → (init net ip port s).1.sent ≡ s.sent
  unfolding init
  sent-init ip port s = ground arith

-- The cases of what a receive brings.
abbrev Brings : Answer Text → Type 0
Brings a = (a ≡ failed) ⊎ ((a ≡ closed) ⊎ ((t : Text) × (a ≡ got t)))

Answer-cases : (a : Answer Text) → Brings a
Answer-cases failed = inl refl
Answer-cases closed = inr (inl refl)
Answer-cases (got t) = inr (inr (t, refl))

module _ (net : Net) where
  pub fd-send_id_msg : (message : Text) (s : ClientStub) → (send_id_msg net message s).1.fd ≡ s.fd
  unfolding send_id_msg
  fd-send_id_msg message s = ground arith

  answered_with :
      (id : ℤ) (s : ClientStub) (sends : Bool)
      → net.sends s.fd s.calls ≡ sends
      → net.texts s.fd (s.calls + 1) ≢ closed
      → (t : Text) × ((send_txn_id net id s).0 ≡ some t)
  unfolding send_txn_id receive txn_id_reply
  answered_with id s true b h = elim (Answer-cases (net.texts s.fd (s.calls + 1))) [
    | inl e ↦ (net.stray_text (s.calls + 1), rw (send_txn_id, b, receive, e) refl)
    | inr (inl e) ↦ absurd (h e)
    | inr (inr (t, e)) ↦ (t, rw (send_txn_id, b, receive, e) refl)
  ]
  answered_with id s false b h = elim (Answer-cases (net.texts s.fd (s.calls + 1))) [
    | inl e ↦ (net.stray_text (s.calls + 1), rw (send_txn_id, b, receive, e) refl)
    | inr (inl e) ↦ absurd (h e)
    | inr (inr (t, e)) ↦ (t, rw (send_txn_id, b, receive, e) refl)
  ]

  -- Over a connection that the peer does not close `SendTxnId` returns.
  pub send_txn_id_answered :
      (id : ℤ) (s : ClientStub)
      → ((k : ℕ) → net.texts s.fd k ≢ closed)
      → (t : Text) × ((send_txn_id net id s).0 ≡ some t)
  send_txn_id_answered id s h = answered_with id s (net.sends s.fd s.calls) refl (h (s.calls + 1))
