-- ===== src/System/Moves.antt =====
-- What one transaction makes of all resource managers at once (TransactionManager.cpp:
-- `transaction_manager`; ServerThread.cpp: `EngineerIFAThread`).
use two_phase_commit_protoco.Base.{
  suc, ◌+◌, arith, length, ℕ, ◌≡◌, refl, ap, some, List, [], ◌∷◌, map, All,
}
use two_phase_commit_protoco.Base.Int.{pos}
use two_phase_commit_protoco.Messages.Transaction.{Transaction, set_txn_id}
use two_phase_commit_protoco.ClientStub.{ClientStub}
use two_phase_commit_protoco.Factory.State.{Factory}
use two_phase_commit_protoco.Factory.Persistence.{prepare_records}
use two_phase_commit_protoco.System.{CanTake, Site, IsApplied, IsUnchanged, Everywhere}
use two_phase_commit_protoco.System.Voting.{ReadsCurrent}
use two_phase_commit_protoco.System.Database.{IsOpen, advance, database_of, AllCurrent, apply_txn}

abbrev pub managers_of : List Site → List Factory
managers_of cs = map (λ (c : Site). c.manager) cs

-- What has become of each manager.
abbrev pub Pairs : (Factory → Factory → Type 0) → List Factory → List Factory → Type 0
Pairs P [] [] = Unit
Pairs P [] (g ∷ gs) = ⊥
Pairs P (f ∷ fs) [] = ⊥
Pairs P (f ∷ fs) (g ∷ gs) = P f g × Pairs P fs gs

pub advance-Everywhere :
    (P : Factory → Factory → Type 0) (cs : List Site) (ns : List ClientStub)
    → Everywhere P cs ns
    → (gs : List Factory) × (advance cs ns ≡ some gs) × Pairs P (managers_of cs) gs
unfolding advance
advance-Everywhere P [] [] h = ([], refl, tt)
advance-Everywhere P [] (n ∷ ns) h = absurd h
advance-Everywhere P (c ∷ cs) [] h = absurd h
advance-Everywhere P (c ∷ cs) (n ∷ ns) ((last, g, runs, p), h) =
    let (gs, rest, ps) = advance-Everywhere P cs ns h in (g ∷ gs, rw (runs, rest) refl, (p, ps))

pub applied_database :
    (t : Transaction) (fs gs : List Factory)
    → Pairs (IsApplied t) fs gs
    → database_of gs ≡ apply_txn t.txn_id t (database_of fs)
applied_database t [] [] h = refl
applied_database t [] (g ∷ gs) h = absurd h
applied_database t (f ∷ fs) [] h = absurd h
applied_database t (f ∷ fs) (g ∷ gs) ((customers, _, _, _), h) =
    rw (customers, applied_database t fs gs h) refl

pub unchanged_database :
    (t : Transaction) (fs gs : List Factory)
    → Pairs (IsUnchanged t) fs gs
    → database_of gs ≡ database_of fs
unchanged_database t [] [] h = refl
unchanged_database t [] (g ∷ gs) h = absurd h
unchanged_database t (f ∷ fs) [] h = absurd h
unchanged_database t (f ∷ fs) (g ∷ gs) ((customers, _, _, _), h) =
    rw (customers, unchanged_database t fs gs h) refl

pub sites-AllCurrent :
    (t : Transaction) (cs : List Site)
    → All (ReadsCurrent t) cs
    → AllCurrent t (database_of (managers_of cs))
sites-AllCurrent t [] h = tt
sites-AllCurrent t (c ∷ cs) (h, hs) = (h, sites-AllCurrent t cs hs)

pub AllCurrent-sites :
    (t : Transaction) (cs : List Site)
    → AllCurrent t (database_of (managers_of cs))
    → All (ReadsCurrent t) cs
AllCurrent-sites t [] h = tt
AllCurrent-sites t (c ∷ cs) (h, hs) = (h, AllCurrent-sites t cs hs)

-- A manager after a transaction that is open for the next one.
pub applied-IsOpen :
    (id room : ℕ) (t : Transaction) (f g : Factory)
    → IsOpen id (length (prepare_records (pos id) t.write_records) + room) f
    → IsApplied (set_txn_id t (pos id)) f g
    → IsOpen (suc id) room g
applied-IsOpen id room t f g v (_, _, longer, k) = record {
  ready = k.ready;
  unseen = λ j le. k.unseen (pos j) (ground arith) (v.unseen j (omega arith));
  fits = omega (arith, v.fits, longer);
}

pub unchanged-IsOpen :
    (id room used : ℕ) (t : Transaction) (f g : Factory)
    → IsOpen id (used + room) f
    → IsUnchanged (set_txn_id t (pos id)) f g
    → IsOpen (suc id) room g
unchanged-IsOpen id room used t f g v (_, _, same, k) = record {
  ready = k.ready;
  unseen = λ j le. k.unseen (pos j) (ground arith) (v.unseen j (omega arith));
  fits = omega (arith, v.fits, ap length same);
}

pub Pairs-IsOpen :
    (P : Factory → Factory → Type 0) (id room next left : ℕ) (fs gs : List Factory)
    → ((f g : Factory) → IsOpen id room f → P f g → IsOpen next left g)
    → All (IsOpen id room) fs
    → Pairs P fs gs
    → All (IsOpen next left) gs
Pairs-IsOpen P id room next left [] [] step v h = tt
Pairs-IsOpen P id room next left [] (g ∷ gs) step v h = absurd h
Pairs-IsOpen P id room next left (f ∷ fs) [] step v h = absurd h
Pairs-IsOpen P id room next left (f ∷ fs) (g ∷ gs) step (v, vs) (h, hs) =
    (step f g v h, Pairs-IsOpen P id room next left fs gs step vs hs)

pub IsOpen-CanTake :
    (id room : ℕ) (t : Transaction) (cs : List Site)
    → All (IsOpen id (length (prepare_records (pos id) t.write_records) + room)) (managers_of cs)
    → All (λ (c : Site). CanTake (set_txn_id t (pos id)) c.manager) cs
IsOpen-CanTake id room t [] v = tt
IsOpen-CanTake id room t (c ∷ cs) (v, vs) = (
  record { ready = v.ready; fresh = v.unseen id (omega arith); room = omega (arith, v.fits) },
  IsOpen-CanTake id room t cs vs,
)
