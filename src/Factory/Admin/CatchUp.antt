-- ===== src/Factory/Admin/CatchUp.antt =====
-- A backup that becomes primary (ServerThread.cpp: the catch-up loop of `AdminThread`).
use two_phase_commit_protoco.Base.{
  ℕ, zero, suc, ◌+◌, ◌-◌, ◌^◌, ◌≤◌, ◌<◌, ◌≡◌, refl, sym, ap, ◌∙◌, some, List, [], ◌∷◌, ◌++◌, map,
  length, arith, ltb,
}
use two_phase_commit_protoco.Base.Int.{
  ℤ, pos_part, neg_part, ltb_ℤ, index_of, inc-index_of, ltb_ℤ-index_of,
}
use two_phase_commit_protoco.Map.{Map, put}
use two_phase_commit_protoco.Map.Laws.{put-put}
use two_phase_commit_protoco.Messages.Replication.{MapOp}
use two_phase_commit_protoco.Net.{Net}
use two_phase_commit_protoco.Factory.State.{Factory}
use two_phase_commit_protoco.Factory.Admin.{
  update_customer_record, at, catch_up, catch_up_fuel, connect_peer, become_primary,
}

-- The update of one customer, as often as the loop makes it.
abbrev pub repeat_put : ℕ → MapOp → Map ℤ → Map ℤ
repeat_put zero op m = m
repeat_put (suc n) op m = repeat_put n op (put op.arg1 op.arg2 m)

-- The loop's test on the indices of `c` and `n` entries.
is_behind :
    (f : Factory) (c n : ℕ)
    → f.committed_index ≡ index_of c
    → f.last_index ≡ index_of n
    → ltb_ℤ f.committed_index f.last_index ≡ ltb c n
is_behind f c n hc hl = rw (hc, hl) (ltb_ℤ-index_of c n)

pub catch_up_done :
    (fuel n : ℕ) (f : Factory)
    → f.committed_index ≡ index_of n
    → f.last_index ≡ index_of n
    → catch_up fuel f ≡ some f
unfolding catch_up
catch_up_done zero n f hc hl = ground (arith, is_behind f n n hc hl)
catch_up_done (suc fuel) n f hc hl = ground (arith, is_behind f n n hc hl)

catch_up_step :
    (fuel c n : ℕ) (f : Factory) (op : MapOp)
    → f.committed_index ≡ index_of c
    → f.last_index ≡ index_of n
    → at f.last_index f.smr_log ≡ some op
    → c < n
    → catch_up (suc fuel) f ≡ catch_up fuel (update_customer_record op f)
unfolding catch_up
catch_up_step fuel c n f op hc hl ha lt = ground (arith, is_behind f c n hc hl)

-- What the loop leaves after `d` rounds with the operation `op`.
abbrev pub caught_up : ℕ → ℕ → MapOp → Factory → Factory
caught_up d n op f = record f {
  customer_record = repeat_put d op f.customer_record;
  committed_index = index_of n;
}

-- With `d` operations left and fuel for them, the loop applies the last operation `d` times.
pub catch_up_runs :
    (d fuel c n : ℕ) (f : Factory) (op : MapOp)
    → n ≡ d + c
    → f.committed_index ≡ index_of c
    → f.last_index ≡ index_of n
    → at f.last_index f.smr_log ≡ some op
    → d ≤ fuel
    → n < 2 ^ 31
    → catch_up fuel f ≡ some (caught_up d n op f)
catch_up_runs zero fuel c n f op e hc hl ha hf hb =
    let same : c ≡ n = omega arith in
    catch_up_done fuel n f (rw same at hc) hl
    ∙ ap (λ (i : ℤ). some (record f { committed_index = i })) (rw same at hc)
catch_up_runs (suc d) zero c n f op e hc hl ha hf hb = absurd (omega arith)
catch_up_runs (suc d) (suc fuel) c n f op e hc hl ha hf hb =
    catch_up_step fuel c n f op hc hl ha (omega arith)
    ∙ catch_up_runs d fuel (suc c) n (update_customer_record op f) op (omega arith)
        (unfold update_customer_record in rw hc (inc-index_of c (omega arith)))
        (unfold update_customer_record in hl) (unfold update_customer_record in ha) (omega arith) hb
    ∙ (unfold update_customer_record in refl)

-- The indices follow the log: `last_index` is that of its last entry, and the first `committed`
-- entries have been applied.
pub record IsAligned (f : Factory) : Type 0 where
  pub committed : ℕ
  pub at_committed : f.committed_index ≡ index_of committed
  pub bounded : committed ≤ length f.smr_log
  pub at_last : f.last_index ≡ index_of (length f.smr_log)
  pub room : length f.smr_log < 2 ^ 31

at_last_entry :
    (l : List MapOp) (op : MapOp) → at (index_of (length (l ++ op ∷ []))) (l ++ op ∷ []) ≡ some op
at_last_entry [] op = refl
at_last_entry (x ∷ []) op = refl
at_last_entry (x ∷ y ∷ l) op = at_last_entry (y ∷ l) op

last_entry :
    (f : Factory) (log : List MapOp) (op : MapOp)
    → IsAligned f
    → f.smr_log ≡ log ++ op ∷ []
    → at f.last_index f.smr_log ≡ some op
last_entry f log op v e = rw (v.at_last, e) (at_last_entry log op)

index_of-fuel : (c n : ℕ) → c ≤ n → n - c ≤ pos_part (index_of n) + neg_part (index_of c)
index_of-fuel zero zero h = omega arith
index_of-fuel zero (suc n) h = omega arith
index_of-fuel (suc c) zero h = omega arith
index_of-fuel (suc c) (suc n) h = omega arith

fuel_enough : (f : Factory) (v : IsAligned f) → length f.smr_log - v.committed ≤ catch_up_fuel f
fuel_enough f v =
    rw (v.at_last, v.at_committed) (index_of-fuel v.committed (length f.smr_log) v.bounded)

-- The second time and later the update changes nothing.
repeat_put-suc : (d : ℕ) (op : MapOp) (m : Map ℤ) → repeat_put (suc d) op m ≡ put op.arg1 op.arg2 m
repeat_put-suc zero op m = refl
repeat_put-suc (suc d) op m =
    repeat_put-suc d op (put op.arg1 op.arg2 m) ∙ put-put op.arg1 op.arg2 op.arg2 m

repeat_put_some :
    (d : ℕ) (op : MapOp) (m : Map ℤ) → 1 ≤ d → repeat_put d op m ≡ put op.arg1 op.arg2 m
repeat_put_some zero op m h = absurd (omega arith)
repeat_put_some (suc d) op m h = repeat_put-suc d op m

module _ (net : Net) where
  -- The node that makes itself primary, before it catches up.
  abbrev pub promoted : Factory → Factory
  promoted f = record f { primary_id = f.factory_id; peers = map (connect_peer net) f.peers }

  -- A backup whose indices follow its log, with an operation or more pending, becomes primary without
  -- fault and with all of its log counted as committed, but of the operations that were pending it
  -- applies only the last one: its customers are those before with this one applied.
  pub become_primary_skips :
      (f : Factory) (log : List MapOp) (op : MapOp) (v : IsAligned f)
      → f.smr_log ≡ log ++ op ∷ []
      → v.committed < length f.smr_log
      → (g : Factory) × (become_primary net f ≡ some g)
        × (g.committed_index ≡ g.last_index)
        × (g.customer_record ≡ put op.arg1 op.arg2 f.customer_record)
  unfolding become_primary
  become_primary_skips f log op v e pending =
      let n = length f.smr_log in
      let d = n - v.committed in
      (
        caught_up d n op (promoted f),
        catch_up_runs d (catch_up_fuel (promoted f)) v.committed n (promoted f) op
            (omega (arith, v.bounded)) v.at_committed v.at_last (last_entry f log op v e)
            (fuel_enough f v) v.room,
        sym v.at_last,
        repeat_put_some d op f.customer_record (omega (arith, pending)),
      )
