-- ===== src/Factory/Serve.antt =====
-- One connection to a resource manager (ServerThread.cpp: `EngineerIFAThread`,
-- `ReceiveIDMsgAndInitiateFlow`, `ReadEngineerFlow`, `EngineerFlow`). `none` is the end of the
-- process.
pub mod Rounds
pub mod TwoPhase
pub mod Failover
pub mod Reads
pub mod Fuel
use two_phase_commit_protoco.Base.{
  ℕ, zero, suc, Bool, true, false, not, Option, none, some, List, [], ◌∷◌, ◌++◌, length, ◌>>=◌,
  if◌then◌else◌,
}
use two_phase_commit_protoco.Base.Int.{ℤ, pos, eqb_ℤ}
use two_phase_commit_protoco.Base.Text.{Text, codes, eqb_text}
use two_phase_commit_protoco.Map.{Map, find}
use two_phase_commit_protoco.Messages.Order.{CustomerOrder, is_valid}
use two_phase_commit_protoco.Messages.Record.{
  CustomerRecord, new_record, set_customer_id, set_last_order,
}
use two_phase_commit_protoco.Net.{Net}
use two_phase_commit_protoco.ServerStub.{
  ServerStub, identification_msg, receive_request, return_record, send_laptop,
}
use two_phase_commit_protoco.Factory.State.{Factory}
use two_phase_commit_protoco.Factory.Admin.{create_regular_laptop}
use two_phase_commit_protoco.Factory.Manager.{tm_prepare, tm_commit, tm_abort, peer_prepare}
use two_phase_commit_protoco.Factory.Backup.{ifa_flow}

-- The answer to a read request.
unfoldable pub customer_answer : Map ℤ → CustomerOrder → CustomerRecord
customer_answer customers order = elim (find order.customer_id customers) [
  | none ↦ new_record
  | some last ↦ set_last_order (set_customer_id new_record order.customer_id) last
]

-- An undefined request type is only printed.
unfoldable pub serve_read : Map ℤ → CustomerOrder → ServerStub → ServerStub
unfolding customer_answer
serve_read customers order s =
    if eqb_ℤ order.request_type (pos 2)
    then return_record (customer_answer customers order) s
    else s

-- The loop of `ReadEngineerFlow`, with fuel.
unfoldable pub read_loop : ℕ → Map ℤ → ServerStub → Option ServerStub
unfolding serve_read
read_loop zero customers stub = none
read_loop (suc n) customers stub =
    let (order, s) = receive_request stub in
    elim (is_valid order) [
      | false ↦ some s
      | true ↦ read_loop n customers (serve_read customers order s)
    ]

unfoldable pub read_engineer_flow : Map ℤ → ServerStub → Option ServerStub
unfolding read_loop
read_engineer_flow customers stub = read_loop (suc (length stub.input)) customers stub

-- The texts that a connection may begin with.
pub data Role : Type 0 where
  client pfa prepare commit abort pr_prepare unknown : Role

unfoldable pub role_of : Text → Role
unfolding eqb_text
role_of id =
    if eqb_text id (codes "CLIENT")
    then client
    else if eqb_text id (codes "PFA")
    then pfa
    else if eqb_text id (codes "TMPrepare")
    then prepare
    else if eqb_text id (codes "TMCommit")
    then commit
    else if eqb_text id (codes "TMAbort")
    then abort
    else if eqb_text id (codes "PrPrepare")
    then pr_prepare
    else unknown

module _ (net : Net) where
  -- `EngineerFlow`, which nothing calls, with fuel.
  unfoldable pub engineer_loop : ℕ → ℤ → ServerStub → Factory → Option (ServerStub × Factory)
  unfolding create_regular_laptop serve_read
  engineer_loop zero id stub f = none
  engineer_loop (suc n) id stub f =
      let (order, s) = receive_request stub in
      elim (is_valid order) [
        | false ↦ some (s, f)
        | true ↦ elim (eqb_ℤ order.request_type (pos 1)) [
          | true ↦ elim (create_regular_laptop net order id f) [
            | none ↦ none
            | some (laptop, g) ↦ engineer_loop n id (send_laptop laptop s) g
          ]
          | false ↦ engineer_loop n id (serve_read f.customer_record order s) f
        ]
      ]

  -- One message of identification and the flow that it starts; whether the connection goes on to
  -- the next one.
  unfoldable pub flow : ℤ → Role → ServerStub → Factory → Option (Bool × ServerStub × Factory)
  flow engineer_id client s f = read_engineer_flow f.customer_record s >>= λ t. some (false, t, f)
  flow engineer_id pfa s f = do (t, g) ← ifa_flow s f; some (false, t, g)
  flow engineer_id prepare s f = do (t, g) ← tm_prepare net s f; some (true, t, g)
  flow engineer_id commit s f = do (t, g) ← tm_commit net engineer_id s f; some (true, t, g)
  flow engineer_id abort s f = do (t, g) ← tm_abort s f; some (true, t, g)
  flow engineer_id pr_prepare s f = do (t, g) ← peer_prepare s f; some (true, t, g)
  flow engineer_id unknown s f = some (false, s, f)

  -- `ReceiveIDMsgAndInitiateFlow`, with fuel.
  unfoldable pub receive_id_msg_and_initiate_flow :
      ℕ → ℤ → ServerStub → Factory → Option (ServerStub × Factory)
  receive_id_msg_and_initiate_flow zero engineer_id stub f = none
  receive_id_msg_and_initiate_flow (suc n) engineer_id stub f =
      let (id, s) = identification_msg stub in
      elim (flow engineer_id (role_of id) s f) [
        | none ↦ none
        | some (false, t, g) ↦ some (t, g)
        | some (true, t, g) ↦ receive_id_msg_and_initiate_flow n engineer_id t g
      ]

  -- A connection from its first message on: each round takes a message.
  unfoldable pub engineer_ifa_thread : ℤ → ServerStub → Factory → Option (ServerStub × Factory)
  unfolding receive_id_msg_and_initiate_flow
  engineer_ifa_thread engineer_id stub f =
      receive_id_msg_and_initiate_flow (suc (length stub.input)) engineer_id stub f
