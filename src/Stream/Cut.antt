-- ===== src/Stream/Cut.antt =====
-- A number of which only the front has been written.
use two_phase_commit_protoco.Base.{
  ℕ, zero, suc, ◌+◌, ◌-◌, ◌*◌, ◌/◌, ◌%◌, ◌^◌, ◌≡◌, refl, inl, inr, true, Option, none, some, [],
  ◌∷◌, ◌>>=◌, ltb, leb, take, All, arith, Bool-cases, take-All,
}
use two_phase_commit_protoco.Base.Int.{ℤ, pos, negsuc}
use two_phase_commit_protoco.Base.Text.{Text}
use two_phase_commit_protoco.Stream.{
  emit, print_int, is_digit, skip_space, scan, number, positive, negative, signed, read_int,
}

abbrev IsDigits : Text → Type 0
IsDigits t = All (λ c. is_digit c ≡ true) t

-- If something has been read, nothing is left.
abbrev pub Spent : {A : Type 0} → Option (A × Text) → Type 0
Spent none = Unit
Spent (some (_, u)) = u ≡ []

emit-IsDigits : (k n : ℕ) (out : Text) → IsDigits out → IsDigits (emit k n out)
unfolding emit
emit-IsDigits zero n out h = h
emit-IsDigits (suc k) n out h =
    let here : is_digit (48 + n % 10) ≡ true = ground arith in
    elim (Bool-cases (ltb n 10)) [
      | inl e ↦ rw e (here, h)
      | inr e ↦ rw e (emit-IsDigits k (n / 10) ((48 + n % 10) ∷ out) (here, h))
    ]

scan-IsDigits : (n : ℕ) (t : Text) → IsDigits t → (scan n t).1 ≡ []
unfolding scan
scan-IsDigits n [] h = refl
scan-IsDigits n (c ∷ t) (h, hs) = rw h (scan-IsDigits (n * 10 + (c - 48)) t hs)

number-Spent : (t : Text) → IsDigits t → Spent (number t)
unfolding number
number-Spent [] h = tt
number-Spent (c ∷ t) (h, hs) = rw h (scan-IsDigits (0 + (c - 48)) t hs)

positive-Spent : (m : Option (ℕ × Text)) → Spent m → Spent (m >>= positive)
positive-Spent none h = tt
positive-Spent (some (n, u)) h = elim (Bool-cases (ltb n (2 ^ 31))) [
  | inl e ↦ rw e h
  | inr e ↦ rw e tt
]

negative-Spent : (m : Option (ℕ × Text)) → Spent m → Spent (m >>= negative)
negative-Spent none h = tt
negative-Spent (some (n, u)) h = elim (Bool-cases (leb n (2 ^ 31))) [
  | inl e ↦ rw e h
  | inr e ↦ rw e tt
]

digit_plain :
    (c : ℕ) (t : Text) → is_digit c ≡ true → read_int (c ∷ t) ≡ (number (c ∷ t) >>= positive)
unfolding read_int skip_space signed
digit_plain c t h = ground arith

read_int-IsDigits : (t : Text) → IsDigits t → Spent (read_int t)
unfolding read_int skip_space signed
read_int-IsDigits [] h = tt
read_int-IsDigits (c ∷ t) (h, hs) =
    rw (digit_plain c t h) (positive-Spent (number (c ∷ t)) (number-Spent (c ∷ t) (h, hs)))

-- A number of which only the front is there is read to its end, if it is read at all.
pub read_int-Spent : (k : ℕ) (a : ℤ) → Spent (read_int (take k (print_int a)))
unfolding print_int
read_int-Spent k (pos n) = read_int-IsDigits _ (take-All _ k _ (emit-IsDigits 10 n [] tt))
read_int-Spent zero (negsuc n) = unfold read_int skip_space signed in tt
read_int-Spent (suc k) (negsuc n) =
    unfold read_int skip_space signed in
    negative-Spent (number (take k (emit 10 (suc n) [])))
      (number-Spent _ (take-All _ k _ (emit-IsDigits 10 (suc n) [] tt)))
