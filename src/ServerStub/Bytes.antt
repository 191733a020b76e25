-- ===== src/ServerStub/Bytes.antt =====
-- A transaction over the bytes of a socket (ServerStub.cpp: `ReceiveTxnRequest`; ClientStub.cpp:
-- `SendTxnPrepareRequest`; Socket.cpp: `Send`, `Recv(void *, int)`).
use two_phase_commit_protoco.Base.{
  ℕ, zero, suc, ◌≤◌, ◌≡◌, refl, ap, ◌∙◌, Bool, false, true, Option, none, some, List, [], ◌∷◌, ◌++◌,
  length, take, drop, append_assoc, arith,
}
use two_phase_commit_protoco.Messages.Transaction.{Transaction, new_transaction, marshal, unmarshal}
use two_phase_commit_protoco.Messages.Transaction.RoundTrip.{IsConsistent, unmarshal-marshal}
use two_phase_commit_protoco.Socket.{Wire, send_all}
use two_phase_commit_protoco.Socket.Loops.{Takes, send_all-whole}

-- Where `malloc` fails, the transaction is the empty one. Else one call of `recv` for at most 200000 bytes of the stream, into a buffer that holds `memory`; `g`
-- is what memory holds in the numbers of the transaction. `none`: nothing has come, and the function
-- ends without a `return`, or `Unmarshal` reads past the end of the buffer.
unfoldable pub receive_txn_bytes : Wire → Bool → Transaction → List ℕ → List ℕ → Option Transaction
receive_txn_bytes wire false g memory stream = some (new_transaction g)
receive_txn_bytes wire true g memory stream =
    elim (wire.hands_over 0 (length (take 200000 stream))) [
      | none ↦ none
      | some zero ↦ none
      | some (suc k) ↦ unmarshal (new_transaction g) (take (suc k) stream ++ drop (suc k) memory)
    ]

take_whole :
    (k : ℕ) (m later : List ℕ) → length m ≤ k → (rest : List ℕ) × (take k (m ++ later) ≡ m ++ rest)
take_whole k [] later h = (take k later, refl)
take_whole zero (x ∷ m) later h = absurd (omega arith)
take_whole (suc k) (x ∷ m) later h =
    let (rest, e) = take_whole k m later (omega arith) in (rest, ap (λ l. x ∷ l) e)

-- A consistent transaction whose bytes `Send` has sent with the result 1 is what
-- `ReceiveTxnRequest` returns, if its single `recv` hands over all of these bytes, whatever comes
-- behind them and whatever the buffer holds.
pub receive_txn_bytes-send_all :
    (from to : Wire) (t g : Transaction) (memory sent later : List ℕ) (k : ℕ)
    → IsConsistent t
    → Takes from
    → send_all from (marshal t) ≡ some (true, sent)
    → to.hands_over 0 (length (take 200000 (sent ++ later))) ≡ some (suc k)
    → length (marshal t) ≤ suc k
    → receive_txn_bytes to true g memory (sent ++ later) ≡ some t
unfolding receive_txn_bytes
receive_txn_bytes-send_all from to t g memory sent later k v h e arrives enough =
    let whole = send_all-whole from (marshal t) sent h e in
    let (rest, front) = take_whole (suc k) (marshal t) later enough in
    let buffer : take (suc k) (sent ++ later) ++ drop (suc k) memory
        ≡ marshal t ++ (rest ++ drop (suc k) memory) =
      ap (λ l. take (suc k) (l ++ later) ++ drop (suc k) memory) whole
      ∙ ap (λ l. l ++ drop (suc k) memory) front
      ∙ append_assoc (marshal t) rest (drop (suc k) memory) in
    rw (receive_txn_bytes, arrives)
      (ap (unmarshal (new_transaction g)) buffer
        ∙ unmarshal-marshal g t (rest ++ drop (suc k) memory) v)
