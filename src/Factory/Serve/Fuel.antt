-- ===== src/Factory/Serve/Fuel.antt =====
-- The fuel of `ReceiveIDMsgAndInitiateFlow` (ServerThread.cpp).
use two_phase_commit_protoco.Base.{
  ◌>>=◌, ◌≤◌, ℕ, zero, suc, ◌<◌, ◌≡◌, refl, inl, inr, Bool, true, false, Option, none, some, length,
  arith, Option-cases,
}
use two_phase_commit_protoco.Base.Int.{ℤ}
use two_phase_commit_protoco.Net.{Net}
use two_phase_commit_protoco.ServerStub.{ServerStub, identification_msg}
use two_phase_commit_protoco.Factory.State.{Factory}
use two_phase_commit_protoco.Factory.Manager.{tm_prepare, tm_commit, tm_abort, peer_prepare}
use two_phase_commit_protoco.Factory.Backup.{ifa_flow}
use two_phase_commit_protoco.Factory.Serve.{
  Role, client, pfa, prepare, commit, abort, pr_prepare, unknown, role_of, flow,
  receive_id_msg_and_initiate_flow, read_engineer_flow,
}

-- A round that goes on has taken a message, and memory is as it was.
abbrev Shrinks : ServerStub → Option (ServerStub × Factory) → Type 0
Shrinks s none = Unit
Shrinks s (some (t, g)) = (length t.input < length s.input) × (t.mallocs ≡ true)

module _ (net : Net) (eng : ℤ) where
  tm_prepare-Shrinks :
      (s : ServerStub) (f : Factory) → s.mallocs ≡ true → Shrinks s (tm_prepare net s f)
  unfolding tm_prepare
  tm_prepare-Shrinks s f m = ground arith

  tm_commit-Shrinks :
      (s : ServerStub) (f : Factory) → s.mallocs ≡ true → Shrinks s (tm_commit net eng s f)
  unfolding tm_commit
  tm_commit-Shrinks s f m = ground arith

tm_abort-Shrinks : (s : ServerStub) (f : Factory) → s.mallocs ≡ true → Shrinks s (tm_abort s f)
unfolding tm_abort
tm_abort-Shrinks s f m = ground arith

peer_prepare-Shrinks :
    (s : ServerStub) (f : Factory) → s.mallocs ≡ true → Shrinks s (peer_prepare s f)
unfolding peer_prepare
peer_prepare-Shrinks s f m = ground arith

abbrev FlowShrinks : ServerStub → Option (Bool × ServerStub × Factory) → Type 0
FlowShrinks s none = Unit
FlowShrinks s (some (false, t, g)) = Unit
FlowShrinks s (some (true, t, g)) = (length t.input < length s.input) × (t.mallocs ≡ true)

goes_on-FlowShrinks :
    (s : ServerStub) (o : Option (ServerStub × Factory))
    → Shrinks s o
    → FlowShrinks s (o >>= λ (t, g). some (true, t, g))
goes_on-FlowShrinks s none h = tt
goes_on-FlowShrinks s (some (t, g)) h = h

module _ (net : Net) (eng : ℤ) where
  flow-FlowShrinks :
      (r : Role) (s : ServerStub) (f : Factory)
      → s.mallocs ≡ true
      → FlowShrinks s (flow net eng r s f)
  unfolding flow
  flow-FlowShrinks client s f m = elim (Option-cases (read_engineer_flow f.customer_record s)) [
    | inl e ↦ rw e tt
    | inr (t, e) ↦ rw e tt
  ]
  flow-FlowShrinks pfa s f m = elim (Option-cases (ifa_flow s f)) [
    | inl e ↦ rw e tt
    | inr (t, e) ↦ rw e tt
  ]
  flow-FlowShrinks prepare s f m = goes_on-FlowShrinks s _ (tm_prepare-Shrinks net eng s f m)
  flow-FlowShrinks commit s f m = goes_on-FlowShrinks s _ (tm_commit-Shrinks net eng s f m)
  flow-FlowShrinks abort s f m = goes_on-FlowShrinks s _ (tm_abort-Shrinks s f m)
  flow-FlowShrinks pr_prepare s f m = goes_on-FlowShrinks s _ (peer_prepare-Shrinks s f m)
  flow-FlowShrinks unknown s f m = tt

  rest-shorter : (s : ServerStub) → length (identification_msg s).1.input ≤ length s.input
  rest-shorter s = ground arith

  -- Any two amounts of fuel that are more than the messages give the same run.
  pub receive_id_msg_and_initiate_flow_fuel :
      (n k : ℕ) (s : ServerStub) (f : Factory)
      → s.mallocs ≡ true
      → length s.input < n
      → length s.input < k
      → receive_id_msg_and_initiate_flow net n eng s f
        ≡ receive_id_msg_and_initiate_flow net k eng s f
  unfolding receive_id_msg_and_initiate_flow
  receive_id_msg_and_initiate_flow_fuel zero k s f m h h' = absurd (omega arith)
  receive_id_msg_and_initiate_flow_fuel (suc n) zero s f m h h' = absurd (omega arith)
  receive_id_msg_and_initiate_flow_fuel (suc n) (suc k) s f m h h' =
      let (id, s1) = identification_msg s in
      after (flow net eng (role_of id) s1 f) (flow-FlowShrinks (role_of id) s1 f m) (λ t g w.
        receive_id_msg_and_initiate_flow_fuel n k t g w.1 (omega (arith, rest-shorter s, w.0))
          (omega (arith, rest-shorter s, w.0)))
    where
      after :
          (o : Option (Bool × ServerStub × Factory))
          → FlowShrinks (identification_msg s).1 o
          → ((t : ServerStub) (g : Factory)
              → Shrinks (identification_msg s).1 (some (t, g))
              → receive_id_msg_and_initiate_flow net n eng t g
                ≡ receive_id_msg_and_initiate_flow net k eng t g)
          → ◌≡◌ {A = Option (ServerStub × Factory)}
              (elim o [
                | none ↦ none
                | some (false, t, g) ↦ some (t, g)
                | some (true, t, g) ↦ receive_id_msg_and_initiate_flow net n eng t g
              ])
              (elim o [
                | none ↦ none
                | some (false, t, g) ↦ some (t, g)
                | some (true, t, g) ↦ receive_id_msg_and_initiate_flow net k eng t g
              ])
      after none w again = refl
      after (some (false, t, g)) w again = refl
      after (some (true, t, g)) w again = again t g w
