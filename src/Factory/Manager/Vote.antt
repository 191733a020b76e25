-- ===== src/Factory/Manager/Vote.antt =====
-- `TMPrepare` (ServerThread.cpp): the vote of a resource manager.
use two_phase_commit_protoco.Base.{
  ◌≡◌, refl, ◌↔◌, ◌⊎◌, inl, inr, true, false, none, some, List, [], ◌∷◌, ◌++◌, map, arith, All,
  Bool-cases, Option-cases,
}
use two_phase_commit_protoco.Base.Int.{ℤ, eqb_ℤ_iff, eqb_ℤ_refl}
use two_phase_commit_protoco.Map.{Map, find, insert}
use two_phase_commit_protoco.Messages.Record.{CustomerRecord}
use two_phase_commit_protoco.Messages.Transaction.{Transaction}
use two_phase_commit_protoco.Net
use two_phase_commit_protoco.Net.{Net, Message, Answer, failed, closed, got}
use two_phase_commit_protoco.ServerStub.{ServerStub, send_response}
use two_phase_commit_protoco.Factory.State.{Factory}
use two_phase_commit_protoco.Factory.Persistence.{rows, prepare_records}
use two_phase_commit_protoco.Factory.Manager.{is_stale, all_ok, copy_to, tm_prepare}

-- What the client has read of a customer is still so, or the customer is not known here.
abbrev pub Current : Map ℤ → CustomerRecord → Type 0
Current customers r =
    (find r.customer_id customers ≡ none) ⊎ (find r.customer_id customers ≡ some r.last_order)

Current-is_stale :
    (customers : Map ℤ) (r : CustomerRecord) → Current customers r → is_stale customers r ≡ false
unfolding is_stale
Current-is_stale customers r (inl e) = rw (e, is_stale)
Current-is_stale customers r (inr e) = rw (e, is_stale) (rw eqb_ℤ_refl)

is_stale-Current :
    (customers : Map ℤ) (r : CustomerRecord) → is_stale customers r ≡ false → Current customers r
unfolding is_stale
is_stale-Current customers r h = elim (Option-cases (find r.customer_id customers)) [
  | inl e ↦ inl e
  | inr (last, e) ↦ ground (arith, e, eqb_ℤ_iff r.last_order last)
]

pub all_ok-Current :
    (customers : Map ℤ) (rs : List CustomerRecord)
    → (all_ok customers rs ≡ true) ↔ All (Current customers) rs
unfolding all_ok
all_ok-Current customers [] = (λ _. tt, λ _. refl)
all_ok-Current customers (r ∷ rs) =
    let (to, from) = all_ok-Current customers rs in
    (
      λ h. elim (Bool-cases (is_stale customers r)) [
        | inl e ↦ cc (rw e at h)
        | inr e ↦ (is_stale-Current customers r e, to (rw e at h))
      ],
      λ h. rw (Current-is_stale customers r h.0) (from h.1),
    )

module _ (net : Net) where
  -- On a transaction, with memory to receive it, of which something that the client has read is no
  -- longer current, the resource manager votes "No" and its whole state stays as it was.
  pub tm_prepare_no :
      (s : ServerStub) (f : Factory) (txn : Transaction) (ms : List Message)
      → s.input ≡ Net.txn txn ∷ ms
      → s.mallocs ≡ true
      → ¬ All (Current f.customer_record) txn.read_records
      → tm_prepare net s f ≡ some (send_response "No" (record s { input = ms }), f)
  unfolding tm_prepare
  tm_prepare_no s f txn ms e m h = elim (Bool-cases (all_ok f.customer_record txn.read_records)) [
    | inl ok ↦ absurd (h ((all_ok-Current f.customer_record txn.read_records).0 ok))
    | inr no_vote ↦ rw (e, m, no_vote)
  ]

  -- What a vote of "Ok" leaves: the orders are in the log and at the end of the log file, and each
  -- peer has been offered the transaction.
  abbrev pub prepared : Transaction → Factory → Factory
  prepared txn f =
      let records = prepare_records txn.txn_id txn.write_records in
      record f {
        txn_log = insert txn.txn_id records f.txn_log;
        disk = record f.disk { log_file = some (rows f.disk.log_file ++ records) };
        peers = map (copy_to net txn) f.peers;
      }

  -- On a transaction, with memory to receive it, of which all that the client has read is current,
  -- and with a log file that can be opened, the resource manager votes "Ok"; its log, its log file
  -- and its peers are updated, and all else, the customers among it, stays as it was.
  pub tm_prepare_ok :
      (s : ServerStub) (f : Factory) (txn : Transaction) (ms : List Message)
      → s.input ≡ Net.txn txn ∷ ms
      → s.mallocs ≡ true
      → f.disk.writable ≡ true
      → All (Current f.customer_record) txn.read_records
      → tm_prepare net s f ≡ some (send_response "Ok" (record s { input = ms }), prepared txn f)
  unfolding tm_prepare
  tm_prepare_ok s f txn ms e m w h =
      ground (arith, e, m, w, (all_ok-Current f.customer_record txn.read_records).1 h)
