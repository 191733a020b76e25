-- ===== src/TransactionManager/Main.antt =====
-- `main` of TransactionManager.cpp: the arguments, and the connections one after another.
use two_phase_commit_protoco.Base.{
  false, ◌^◌, ℕ, zero, suc, ◌+◌, ◌<◌, ◌≡◌, refl, ap, ◌⊎◌, inl, inr, String, Bool, true, Option,
  none, some, List, [], ◌∷◌, length, ◌>>=◌, if◌then◌else◌, arith, All, Bool-cases,
}
use two_phase_commit_protoco.Base.Int.{ℤ, pos, pos_part, inc, inc-pos}
use two_phase_commit_protoco.Messages.Replication.{PeerServersInfo}
use two_phase_commit_protoco.Messages.Transaction.{Transaction, set_txn_id}
use two_phase_commit_protoco.Net
use two_phase_commit_protoco.Net.{Net, Message, Answer, failed, closed, got}
use two_phase_commit_protoco.ServerStub.{ServerStub, send_response}
use two_phase_commit_protoco.TransactionManager.Told.{
  IsServed, run_phases_ends, transaction_manager_reached, transaction_manager_not_reached,
}
use two_phase_commit_protoco.TransactionManager.Decision.{
  Consents, prepare_rms-Decided, All-KeepsOpen,
}
use two_phase_commit_protoco.TransactionManager.{ClientStub, connect_rms, transaction_manager}

-- The loop over the arguments of the clusters; `atoi` is that of the C library. `none` is a read
-- past the end of `argv`.
unfoldable pub read_rms : (String → ℤ) → ℕ → List String → Option (List PeerServersInfo)
read_rms atoi zero args = some []
read_rms atoi (suc n) (id ∷ ip ∷ port ∷ backup_ip ∷ backup_port ∷ args) =
    read_rms atoi n args >>= λ rms. some (
      record {
        id = atoi id;
        ip = ip;
        port = atoi port;
        backup_ip = backup_ip;
        backup_port = atoi backup_port;
      }
      ∷ rms)
read_rms atoi (suc n) _ = none

-- `while ((new_socket = socket.Accept())) transaction_manager(...)`: each connection meets the
-- network as it is by then.
unfoldable pub serve_clients :
    List PeerServersInfo → List (Net × ServerStub) → ℤ → Option (List ServerStub × ℤ)
serve_clients rms [] id = some ([], id)
serve_clients rms ((net, stub) ∷ conns) id = do
  (answered, next_id, nodes) ← transaction_manager net rms stub id
  (rest, last_id) ← serve_clients rms conns next_id
  some (answered ∷ rest, last_id)

-- `argv` after the name of the program, and whether the port can be listened on. The result is the
-- connections with their answers and the global `transaction_id`, which starts at 0.
unfoldable pub tm_main :
    (String → ℤ) → List String → (ℤ → Bool) → List (Net × ServerStub) → Option (List ServerStub × ℤ)
unfolding read_rms serve_clients
tm_main atoi (port ∷ rms_count ∷ first ∷ args) listens conns = do
  rms ← read_rms atoi (pos_part (atoi rms_count)) (first ∷ args)
  if listens (atoi port) then serve_clients rms conns (pos 0) else some ([], pos 0)
tm_main atoi _ listens conns = some ([], pos 0)

-- A connection that brings a transaction, with memory to receive it, at a time when the nodes that
-- are reached, if all are, hand over what is sent and do not close before their answers.
abbrev pub BringsTxn : List PeerServersInfo → Net × ServerStub → Type 0
BringsTxn rms (net, s) =
    ((t : Transaction) × (ms : List Message) × (s.input ≡ Net.txn t ∷ ms))
    × (s.mallocs ≡ true)
    × (((connect_rms net rms).0 ≡ false) ⊎ All (IsServed net) (connect_rms net rms).1)

-- Every cluster is reached and no node votes "No".
abbrev pub AllConsent : List PeerServersInfo → Net → Type 0
AllConsent rms net = ((connect_rms net rms).0 ≡ true) × All (Consents net) (connect_rms net rms).1

-- What the client is told, and nothing else.
abbrev pub Answered : List PeerServersInfo → Net × ServerStub → ServerStub → Type 0
Answered rms (net, s) u =
    (AllConsent rms net × (u.replies ≡ (send_response "Success" s).replies))
    ⊎ ((¬ AllConsent rms net) × (u.replies ≡ (send_response "Failed" s).replies))

module _ (net : Net) (rms : List PeerServersInfo) (s : ServerStub) (id : ℤ) (t : Transaction)
    (ms : List Message) (e : s.input ≡ Net.txn t ∷ ms) (m : s.mallocs ≡ true) where
  -- What one client comes to.
  abbrev ComesTo : Type 0
  ComesTo =
      (u : ServerStub) × (nodes : List ClientStub) × (transaction_manager net rms s id
        ≡ some (u, inc id, nodes))
      × Answered rms (net, s) u

  reached-Answered :
      All (IsServed net) (connect_rms net rms).1 → (connect_rms net rms).0 ≡ true → ComesTo
  reached-Answered h c =
      let s1 = record s { input = ms } in
      let nodes = (connect_rms net rms).1 in
      let txn = set_txn_id t id in
      let ends = run_phases_ends net txn nodes s1 (All-KeepsOpen net nodes h) in
      let both : connect_rms net rms ≡ (true, nodes) = ap (λ b. (b, nodes)) c in
      let runs = transaction_manager_reached net rms s id t ms e m nodes _ _ both ends in
      (
        _,
        _,
        runs,
        elim (prepare_rms-Decided net txn nodes h) [
          | inl (agreed, all) ↦ inl ((c, all), rw agreed refl)
          | inr (refused, some_no) ↦ inr (λ all. some_no all.1, rw refused refl)
        ],
      )

  not_reached-Answered : (connect_rms net rms).0 ≡ false → ComesTo
  not_reached-Answered c =
      let nodes = (connect_rms net rms).1 in
      let both : connect_rms net rms ≡ (false, nodes) = ap (λ b. (b, nodes)) c in
      (
        _,
        _,
        transaction_manager_not_reached net rms s id t ms e m nodes both,
        inr (λ all. cc (all.0, c), refl),
      )

  transaction_manager-Answered :
      ((connect_rms net rms).0 ≡ false) ⊎ All (IsServed net) (connect_rms net rms).1 → ComesTo
  transaction_manager-Answered (inl c) = not_reached-Answered c
  transaction_manager-Answered (inr h) = elim (Bool-cases (connect_rms net rms).0) [
    | inl c ↦ reached-Answered h c
    | inr c ↦ not_reached-Answered c
  ]

-- Every client is answered.
abbrev pub AllAnswered : List PeerServersInfo → List (Net × ServerStub) → List ServerStub → Type 0
AllAnswered rms [] us = us ≡ []
AllAnswered rms (c ∷ cs) [] = ⊥
AllAnswered rms (c ∷ cs) (u ∷ us) = Answered rms c u × AllAnswered rms cs us

-- The transaction manager serves every connection that brings a transaction, with memory to receive
-- it, where the nodes, if all clusters are reached, hand over what is sent and do not close before
-- their answers: each client is told "Success" if all clusters are reached and no node votes "No",
-- and "Failed" otherwise, and the id goes up by one for each transaction, as long as the ids are
-- `int`s.
pub serve_clients-AllAnswered :
    (rms : List PeerServersInfo) (conns : List (Net × ServerStub)) (id : ℕ)
    → All (BringsTxn rms) conns
    → id + length conns < 2 ^ 31
    → (us : List ServerStub) × (serve_clients rms conns (pos id)
        ≡ some (us, pos (id + length conns)))
      × AllAnswered rms conns us
unfolding serve_clients
serve_clients-AllAnswered rms [] id h room =
    let same : id ≡ id + 0 = omega arith in ([], ap (λ (j : ℕ). some ([], pos j)) same, refl)
serve_clients-AllAnswered rms ((net, s) ∷ conns) id (((t, ms, e), m, served), hs) room =
    let (u, nodes, runs, told) = transaction_manager-Answered net rms s (pos id) t ms e m served in
    let (us, rest, all) = serve_clients-AllAnswered rms conns (id + 1) hs (omega arith) in
    let same : id + 1 + length conns ≡ id + suc (length conns) = omega arith in
    (
      u ∷ us,
      rw (runs, inc-pos id (omega arith), rest) (ap (λ (j : ℕ). some (u ∷ us, pos j)) same),
      (told, all),
    )
