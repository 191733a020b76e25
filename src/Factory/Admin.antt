-- ===== src/Factory/Admin.antt =====
-- The admin thread and the requests to it (ServerThread.cpp: `CreateRegularLaptop`, `AdminThread`,
-- `updateCustomerRecord`, `sendAllRequests`): the primary's part of replication. `none` is a read
-- past the end of the log.
pub mod CatchUp
pub mod Settled
use two_phase_commit_protoco.Base.{
  ℕ, zero, suc, ◌+◌, Bool, true, false, Option, none, some, List, [], ◌∷◌, ◌++◌, map, get_elem?,
  ◌>>=◌, if◌then◌else◌,
}
use two_phase_commit_protoco.Base.Int.{
  ℤ, pos, negsuc, pos_part, neg_part, minus_one, eqb_ℤ, ltb_ℤ, inc, dec,
}
use two_phase_commit_protoco.Base.Text.{Text, codes, eqb_text}
use two_phase_commit_protoco.Map.{put}
use two_phase_commit_protoco.Messages.Order.{CustomerOrder}
use two_phase_commit_protoco.Messages.Laptop.{
  LaptopInfo, new_laptop, copy_order, set_engineer_id, set_admin_id,
}
use two_phase_commit_protoco.Messages.Replication.{MapOp, make_request}
use two_phase_commit_protoco.Net.{Net}
use two_phase_commit_protoco.ClientStub.{ClientStub, init, send_id_msg, send_replication_req}
use two_phase_commit_protoco.Factory.State.{AdminRequest, Peer, Factory}

unfoldable pub update_customer_record : MapOp → Factory → Factory
update_customer_record oprn f = record f {
  customer_record = put oprn.arg1 oprn.arg2 f.customer_record;
  committed_index = inc f.committed_index;
}

-- `vector::operator[]` and `vector::at` with an `int`.
abbrev pub at : ℤ → List MapOp → Option MapOp
at (pos n) l = get_elem? l n
at (negsuc n) l = none

-- `while (committed_index < last_index) updateCustomerRecord(smr_log[last_index]);` with fuel.
unfoldable pub catch_up : ℕ → Factory → Option Factory
unfolding update_customer_record
catch_up zero f = if ltb_ℤ f.committed_index f.last_index then none else some f
catch_up (suc n) f = elim (ltb_ℤ f.committed_index f.last_index) [
  | true ↦ elim (at f.last_index f.smr_log) [
    | none ↦ none
    | some oprn ↦ catch_up n (update_customer_record oprn f)
  ]
  | false ↦ some f
]

-- The number of rounds at most.
abbrev pub catch_up_fuel : Factory → ℕ
catch_up_fuel f = pos_part f.last_index + neg_part f.committed_index

abbrev pub op_of : AdminRequest → MapOp
op_of req = record { opcode = pos 1; arg1 = req.customer_id; arg2 = req.last_order_num }

-- "Append request to own log and update last_index", and the update of the customer.
unfoldable pub append_op : MapOp → Factory → Factory
append_op op f = record f {
  smr_log = f.smr_log ++ op ∷ [];
  last_index = inc f.last_index;
  customer_record = put op.arg1 op.arg2 f.customer_record;
  committed_index = inc f.committed_index;
}

abbrev pub admin_request : CustomerOrder → ℤ → AdminRequest
admin_request order engineer_id =
    let laptop = set_engineer_id (copy_order new_laptop order) engineer_id in
    record { laptop = laptop; customer_id = order.customer_id; last_order_num = order.order_number }

-- `main` starts the admin thread with the id 0.
abbrev pub admin_thread_id : ℤ
admin_thread_id = pos 0

module _ (net : Net) where
  -- The loop over the peers when a node makes itself primary.
  unfoldable pub connect_peer : Peer → Peer
  connect_peer p =
      let (r, node) = init net p.info.ip p.info.port p.node in
      if eqb_ℤ r (pos 1)
      then record p { node = (send_id_msg net (codes "PFA") node).1; live = true }
      else record p { node = node }

  unfoldable pub become_primary : Factory → Option Factory
  unfolding catch_up connect_peer
  become_primary f =
      let g = record f { primary_id = f.factory_id; peers = map connect_peer f.peers } in
      catch_up (catch_up_fuel g) g

  -- The answers are not read.
  unfoldable pub send_requests_from : ℤ → ℕ → List MapOp → ClientStub → ClientStub
  send_requests_from id i [] node = node
  send_requests_from id i (op ∷ ops) node =
      send_requests_from id (i + 1) ops
        (send_replication_req net (make_request id (dec (pos i)) (pos i) op) node).1

  unfoldable pub send_all_requests : ℤ → List MapOp → ClientStub → ClientStub
  unfolding send_requests_from
  send_all_requests id log node = send_requests_from id 0 log node

  -- One round of the replication loop, on the indices and the log after the update.
  unfoldable pub replicate_to : Factory → MapOp → Peer → Peer
  unfolding send_all_requests
  replicate_to f op p =
      if p.live
      then (let (resp, node) =
            send_replication_req net (make_request f.factory_id f.committed_index f.last_index op)
              p.node in
          if eqb_text resp (codes "FAILED")
          then record p { node = node; live = false }
          else record p { node = node })
      else (let (r, node) = init net p.info.ip p.info.port p.node in
          if eqb_ℤ r (pos 1)
          then record p {
            node = send_all_requests f.factory_id f.smr_log (send_id_msg net (codes "PFA") node).1;
            live = true;
          }
          else record p { node = node })

  unfoldable pub replicate_op : MapOp → Factory → Factory
  unfolding replicate_to
  replicate_op op f = record f { peers = map (replicate_to f op) f.peers }

  -- One round of `AdminThread(id)` for the request taken from the queue.
  unfoldable pub handle_request : ℤ → AdminRequest → Factory → Option (LaptopInfo × Factory)
  unfolding become_primary append_op replicate_op
  handle_request id req f = do
    g ← if eqb_ℤ f.primary_id f.factory_id then some f else become_primary f
    some (set_admin_id req.laptop id, replicate_op (op_of req) (append_op (op_of req) g))

  -- The admin thread works through the queue; the last laptop is the one that was asked for last.
  unfoldable pub drain :
      ℤ → List AdminRequest → LaptopInfo → Factory → Option (LaptopInfo × Factory)
  drain id [] done f = some (done, f)
  drain id (req ∷ reqs) done f = do
    (laptop, g) ← handle_request id req (record f { arq = reqs })
    drain id reqs laptop g

  -- Push the request and wait for its promise: the queue is first in, first out, so that the admin
  -- thread has emptied it up to this request. No other thread pushes one meanwhile.
  unfoldable pub create_regular_laptop : CustomerOrder → ℤ → Factory → Option (LaptopInfo × Factory)
  unfolding drain
  create_regular_laptop order engineer_id f =
      let reqs = f.arq ++ admin_request order engineer_id ∷ [] in
      drain admin_thread_id reqs new_laptop (record f { arq = reqs })
