-- ===== src/Factory/Admin/Settled.antt =====
-- A primary with nothing pending handles a request (ServerThread.cpp: `AdminThread`,
-- `CreateRegularLaptop`).
use two_phase_commit_protoco.Base.{
  suc, ◌^◌, ◌<◌, ◌≡◌, refl, ap, ◌∙◌, inl, inr, some, List, [], ◌∷◌, ◌++◌, length, length-append,
  arith, Bool-cases, if◌then◌else◌,
}
use two_phase_commit_protoco.Base.Int.{ℤ, eqb_ℤ, eqb_ℤ_iff, inc, index_of, inc-index_of}
use two_phase_commit_protoco.Messages.Order.{CustomerOrder}
use two_phase_commit_protoco.Messages.Laptop.{set_admin_id}
use two_phase_commit_protoco.Messages.Replication.{MapOp}
use two_phase_commit_protoco.Net.{Net}
use two_phase_commit_protoco.Factory.State.{AdminRequest, Factory}
use two_phase_commit_protoco.Factory.Admin.{
  catch_up_fuel, become_primary, op_of, append_op, replicate_op, handle_request, admin_request,
  admin_thread_id, create_regular_laptop,
}
use two_phase_commit_protoco.Factory.Admin.CatchUp.{catch_up_done, promoted}

-- The indices follow the log, and all of it is committed.
pub record IsSettled (f : Factory) : Type 0 where
  pub at_last : f.last_index ≡ index_of (length f.smr_log)
  pub at_committed : f.committed_index ≡ index_of (length f.smr_log)

pub index_of-append :
    (x : ℤ) (l : List MapOp) (op : MapOp)
    → length l < 2 ^ 31
    → x ≡ index_of (length l)
    → inc x ≡ index_of (length (l ++ op ∷ []))
index_of-append x l op room h =
    let grown : suc (length l) ≡ length (l ++ op ∷ []) = omega (arith, length-append l (op ∷ [])) in
    rw h (inc-index_of (length l) room ∙ ap index_of grown)

module _ (net : Net) where
  -- The node as a primary, with nothing to catch up.
  unfoldable pub as_primary : Factory → Factory
  as_primary f = if eqb_ℤ f.primary_id f.factory_id then f else promoted net f

  -- The state after the request for a laptop: one more entry in the log, the customer's last order
  -- updated, and the peers served.
  abbrev pub handled : MapOp → Factory → Factory
  handled op f = replicate_op net op (append_op op (as_primary f))

  pub as_primary_keeps :
      (f : Factory)
      → ((as_primary f).smr_log ≡ f.smr_log)
        × ((as_primary f).customer_record ≡ f.customer_record)
        × ((as_primary f).last_index ≡ f.last_index)
        × ((as_primary f).committed_index ≡ f.committed_index)
        × ((as_primary f).txn_log ≡ f.txn_log)
        × ((as_primary f).disk ≡ f.disk)
        × ((as_primary f).arq ≡ f.arq)
        × ((as_primary f).factory_id ≡ f.factory_id)
        × ((as_primary f).primary_id ≡ f.factory_id)
  unfolding as_primary
  as_primary_keeps f = elim (Bool-cases (eqb_ℤ f.primary_id f.factory_id)) [
    | inl e ↦
        rw e (
          refl,
          refl,
          refl,
          refl,
          refl,
          refl,
          refl,
          refl,
          (eqb_ℤ_iff f.primary_id f.factory_id).0 e,
        )
    | inr e ↦ rw e (refl, refl, refl, refl, refl, refl, refl, refl, refl)
  ]

  pub become_primary_settled :
      (f : Factory) → IsSettled f → become_primary net f ≡ some (promoted net f)
  unfolding become_primary
  become_primary_settled f v =
      catch_up_done (catch_up_fuel (promoted net f)) (length f.smr_log) (promoted net f)
        v.at_committed v.at_last

  -- A node with nothing pending handles a request without fault, whether it is the primary or makes
  -- itself so.
  handle_request_settled :
      (id : ℤ) (req : AdminRequest) (f : Factory)
      → IsSettled f
      → handle_request net id req f ≡ some (set_admin_id req.laptop id, handled (op_of req) f)
  unfolding handle_request as_primary
  handle_request_settled id req f v = elim (Bool-cases (eqb_ℤ f.primary_id f.factory_id)) [
    | inl e ↦ rw e
    | inr e ↦ rw (e, become_primary_settled f v)
  ]

  -- After a request that a node with nothing pending has handled, nothing is pending, as long as
  -- the new index fits an `int`.
  pub handled-IsSettled :
      (op : MapOp) (f : Factory)
      → length f.smr_log < 2 ^ 31
      → IsSettled f
      → IsSettled (handled op f)
  unfolding replicate_op append_op
  handled-IsSettled op f room v =
      let p = as_primary f in
      let (log, _, last, committed, _, _, _, _, _) = as_primary_keeps f in
      record {
        at_last =
            index_of-append p.last_index p.smr_log op (rw log room) (rw (last, log) v.at_last);
        at_committed =
            index_of-append p.committed_index p.smr_log op (rw log room)
              (rw (committed, log) v.at_committed);
      }

  -- A laptop that is asked for while no other request waits is made at once.
  pub create_regular_laptop_settled :
      (order : CustomerOrder) (eng : ℤ) (f : Factory)
      → f.arq ≡ []
      → IsSettled f
      → create_regular_laptop net order eng f
        ≡ some (
          set_admin_id (admin_request order eng).laptop admin_thread_id,
          handled (op_of (admin_request order eng)) (record f { arq = [] }),
        )
  unfolding create_regular_laptop
  create_regular_laptop_settled order eng f e v =
      rw
        (
          e,
          handle_request_settled admin_thread_id (admin_request order eng) (record f { arq = [] })
              (record { at_last = v.at_last; at_committed = v.at_committed }),
        )
        refl
