-- ===== src/Client/Threads/Order.antt =====
-- The order in which the client's threads take the lock does not matter to the customers.
use two_phase_commit_protoco.Base.{
  ℕ, zero, suc, ◌≤◌, ◌≡◌, ◌≢◌, refl, sym, ap, ◌∙◌, inl, inr, List, [], ◌∷◌, ◌++◌, All, arith,
  append-nil, append_assoc, subst, if◌then◌else◌, Bool-cases,
}
use two_phase_commit_protoco.Base.Int.{ℤ, pos, eqb_ℤ, eqb_ℤ_iff}
use two_phase_commit_protoco.Messages.Order.{CustomerOrder}
use two_phase_commit_protoco.Client.Threads.{push_next, run_schedule}

-- The orders for one customer.
abbrev pub only : ℤ → List CustomerOrder → List CustomerOrder
only c [] = []
only c (o ∷ os) = if eqb_ℤ o.customer_id c then o ∷ only c os else only c os

abbrev pub all_of : List (List CustomerOrder) → List CustomerOrder
all_of [] = []
all_of (t ∷ ts) = t ++ all_of ts

-- The thread at each place, from `b` on, has orders for the customer of its number.
abbrev pub Owned : ℕ → List (List CustomerOrder) → Type 0
Owned b [] = Unit
Owned b (t ∷ ts) = All (λ (o : CustomerOrder). o.customer_id ≡ pos b) t × Owned (suc b) ts

abbrev pub IsFrom : ℕ → CustomerOrder → Type 0
IsFrom b o = (k : ℕ) × (b ≤ k) × (o.customer_id ≡ pos k)

pub only-append : (c : ℤ) (xs ys : List CustomerOrder) → only c (xs ++ ys) ≡ only c xs ++ only c ys
only-append c [] ys = refl
only-append c (o ∷ xs) ys = elim (Bool-cases (eqb_ℤ o.customer_id c)) [
  | inl e ↦ rw e (ap (λ l. o ∷ l) (only-append c xs ys))
  | inr e ↦ rw e (only-append c xs ys)
]

only_none :
    (c : ℤ) (xs : List CustomerOrder)
    → All (λ (o : CustomerOrder). o.customer_id ≢ c) xs
    → only c xs ≡ []
only_none c [] h = refl
only_none c (o ∷ xs) (h, hs) = elim (Bool-cases (eqb_ℤ o.customer_id c)) [
  | inl e ↦ absurd (h ((eqb_ℤ_iff o.customer_id c).0 e))
  | inr e ↦ rw e (only_none c xs hs)
]

pub push_next-append :
    (i : ℕ) (ts : List (List CustomerOrder)) (w : List CustomerOrder)
    → push_next i ts w ≡ ((push_next i ts []).0, w ++ (push_next i ts []).1)
unfolding push_next
push_next-append i [] w = ap (λ (l : List CustomerOrder). ([], l)) (sym (append-nil w))
push_next-append zero ([] ∷ ts) w =
    ap (λ (l : List CustomerOrder). ([] ∷ ts, l)) (sym (append-nil w))
push_next-append zero ((o ∷ os) ∷ ts) w = refl
push_next-append (suc i) (t ∷ ts) w =
    ap (λ (p : List (List CustomerOrder) × List CustomerOrder). (t ∷ p.0, p.1))
      (push_next-append i ts w)

weaker-IsFrom : (b : ℕ) (xs : List CustomerOrder) → All (IsFrom (suc b)) xs → All (IsFrom b) xs
weaker-IsFrom b [] h = tt
weaker-IsFrom b (o ∷ xs) ((k, le, e), hs) = ((k, omega arith, e), weaker-IsFrom b xs hs)

pub push_next-IsFrom :
    (i b : ℕ) (ts : List (List CustomerOrder)) → Owned b ts → All (IsFrom b) (push_next i ts []).1
unfolding push_next
push_next-IsFrom i b [] h = tt
push_next-IsFrom zero b ([] ∷ ts) h = tt
push_next-IsFrom zero b ((o ∷ os) ∷ ts) ((h, _), _) = ((b, omega arith, h), tt)
push_next-IsFrom (suc i) b (t ∷ ts) (h, hs) =
    weaker-IsFrom b (push_next i ts []).1 (push_next-IsFrom i (suc b) ts hs)

pub push_next-Owned :
    (i b : ℕ) (ts : List (List CustomerOrder)) → Owned b ts → Owned b (push_next i ts []).0
unfolding push_next
push_next-Owned i b [] h = tt
push_next-Owned zero b ([] ∷ ts) h = h
push_next-Owned zero b ((o ∷ os) ∷ ts) ((_, h), hs) = (h, hs)
push_next-Owned (suc i) b (t ∷ ts) (h, hs) = (h, push_next-Owned i (suc b) ts hs)

later_others :
    (b : ℕ) (xs : List CustomerOrder)
    → All (IsFrom (suc b)) xs
    → All (λ (o : CustomerOrder). o.customer_id ≢ pos b) xs
later_others b [] h = tt
later_others b (o ∷ xs) ((k, le, e), hs) =
    let other : o.customer_id ≢ pos b = λ e'. ground (arith, e, e') in (other, later_others b xs hs)

own_others :
    (b : ℕ) (c : ℤ) (xs : List CustomerOrder)
    → c ≢ pos b
    → All (λ (o : CustomerOrder). o.customer_id ≡ pos b) xs
    → All (λ (o : CustomerOrder). o.customer_id ≢ c) xs
own_others b c [] ne h = tt
own_others b c (o ∷ xs) ne (h, hs) =
    let other : o.customer_id ≢ c = λ e. ne (sym e ∙ h) in (other, own_others b c xs ne hs)

-- For each customer, an order that is pushed comes before what is left.
only-push_next :
    (c : ℤ) (i b : ℕ) (ts : List (List CustomerOrder))
    → Owned b ts
    → only c (push_next i ts []).1 ++ only c (all_of (push_next i ts []).0) ≡ only c (all_of ts)
unfolding push_next
only-push_next c i b [] h = refl
only-push_next c zero b ([] ∷ ts) h = refl
only-push_next c zero b ((o ∷ os) ∷ ts) h = sym (only-append c (o ∷ []) (os ++ all_of ts))
only-push_next c (suc i) b (t ∷ ts) (h, hs) =
    let p = (push_next i ts []).1 in
    let left = (push_next i ts []).0 in
    let ih : only c p ++ only c (all_of left) ≡ only c (all_of ts) =
      only-push_next c i (suc b) ts hs in
    elim (Bool-cases (eqb_ℤ c (pos b))) [
      | inl e ↦
          let mine : c ≡ pos b = (eqb_ℤ_iff c (pos b)).0 e in
          let none_pushed : only c p ≡ [] = only_none c p (
            subst (λ d. All (λ (o : CustomerOrder). o.customer_id ≢ d) p) (sym mine)
              (later_others b p (push_next-IsFrom i (suc b) ts hs))) in
          let same : only c (all_of left) ≡ only c (all_of ts) =
            ap (λ l. l ++ only c (all_of left)) (sym none_pushed) ∙ ih in
          rw (none_pushed, only-append c t (all_of left), only-append c t (all_of ts))
            (ap (λ l. only c t ++ l) same)
      | inr e ↦
          let other : c ≢ pos b = λ q. cc ((eqb_ℤ_iff c (pos b)).1 q, e) in
          let none_here : only c t ≡ [] = only_none c t (own_others b c t other h) in
          rw (only-append c t (all_of left), only-append c t (all_of ts), none_here) ih
    ]

-- Whoever takes the lock next, for each customer what has been pushed with what is left is the same.
pub only-run_schedule :
    (c : ℤ) (schedule : List ℕ) (b : ℕ) (ts : List (List CustomerOrder)) (w : List CustomerOrder)
    → Owned b ts
    → only c (run_schedule schedule ts w).1 ++ only c (all_of (run_schedule schedule ts w).0)
      ≡ only c w ++ only c (all_of ts)
unfolding run_schedule
only-run_schedule c [] b ts w h = refl
only-run_schedule c (i ∷ schedule) b ts w h =
    let left = (push_next i ts []).0 in
    let p = (push_next i ts []).1 in
    ap
      (λ (q : List (List CustomerOrder) × List CustomerOrder).
        only c (run_schedule schedule q.0 q.1).1
        ++ only c (all_of (run_schedule schedule q.0 q.1).0))
      (push_next-append i ts w)
    ∙ only-run_schedule c schedule b left (w ++ p) (push_next-Owned i b ts h)
    ∙ ap (λ l. l ++ only c (all_of left)) (only-append c w p)
    ∙ append_assoc (only c w) (only c p) (only c (all_of left))
    ∙ ap (λ l. only c w ++ l) (only-push_next c i b ts h)

pub none_left : (ts : List (List CustomerOrder)) → All (λ t. t ≡ []) ts → all_of ts ≡ []
none_left [] h = refl
none_left (t ∷ ts) (h, hs) = rw (h, none_left ts hs) refl
