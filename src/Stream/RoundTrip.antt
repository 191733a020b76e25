-- ===== src/Stream/RoundTrip.antt =====
-- An `int` that is printed is read back (`<<` and `>>` of the C++ library on `int`).
use two_phase_commit_protoco.Base.{
  inr, subst, inl, ◌⊎◌, ℕ, zero, suc, ◌+◌, ◌-◌, ◌*◌, ◌/◌, ◌%◌, ◌^◌, ◌<◌, ◌≤◌, ◌≡◌, refl, ap, sym,
  ◌∙◌, false, some, [], ◌∷◌, ◌++◌, ◌>>=◌, arith,
}
use two_phase_commit_protoco.Base.Int.{ℤ, pos, negsuc, IsInt32}
use two_phase_commit_protoco.Base.Text.{Text}
use two_phase_commit_protoco.Stream.{
  emit, print_int, is_digit, skip_space, scan, number, minus, positive, negative, signed, read_int,
}

-- A text that begins with a digit.
abbrev BeginsDigit : Text → Type 0
BeginsDigit [] = ⊥
BeginsDigit (c ∷ t) = (48 ≤ c) × (c ≤ 57)

-- A text that a number ends at.
abbrev pub EndsNumber : Text → Type 0
EndsNumber [] = Unit
EndsNumber (c ∷ t) = is_digit c ≡ false

emit-append : (k n : ℕ) (out rest : Text) → emit k n out ++ rest ≡ emit k n (out ++ rest)
unfolding emit
emit-append zero n out rest = refl
emit-append (suc k) n out rest = ground (arith, emit-append k (n / 10) ((48 + n % 10) ∷ out) rest)

emit_small : (k n : ℕ) (out : Text) → n < 10 → emit (suc k) n out ≡ (48 + n % 10) ∷ out
unfolding emit
emit_small k n out h = ground arith

emit_large :
    (k n : ℕ) (out : Text) → 10 ≤ n → emit (suc k) n out ≡ emit k (n / 10) ((48 + n % 10) ∷ out)
unfolding emit
emit_large k n out h = ground arith

digit_cases : (n : ℕ) → (n < 10) ⊎ (10 ≤ n)
digit_cases n = ground arith

emit-BeginsDigit : (k n : ℕ) (out : Text) → BeginsDigit out → BeginsDigit (emit k n out)
unfolding emit
emit-BeginsDigit zero n out h = h
emit-BeginsDigit (suc k) n out h =
    let here : BeginsDigit ((48 + n % 10) ∷ out) = (omega arith, omega arith) in
    elim (digit_cases n) [
      | inl small ↦ subst BeginsDigit (sym (emit_small k n out small)) here
      | inr large ↦
          subst BeginsDigit (sym (emit_large k n out large)) (emit-BeginsDigit k (n / 10) _ here)
    ]

emit-suc-BeginsDigit : (k n : ℕ) (out : Text) → BeginsDigit (emit (suc k) n out)
emit-suc-BeginsDigit k n out =
    let here : BeginsDigit ((48 + n % 10) ∷ out) = (omega arith, omega arith) in
    elim (digit_cases n) [
      | inl small ↦ subst BeginsDigit (sym (emit_small k n out small)) here
      | inr large ↦
          subst BeginsDigit (sym (emit_large k n out large)) (emit-BeginsDigit k (n / 10) _ here)
    ]

scan_step : (n c : ℕ) (t : Text) → 48 ≤ c → c ≤ 57 → scan n (c ∷ t) ≡ scan (n * 10 + (c - 48)) t
unfolding scan
scan_step n c t h h' = ground arith

scan_last : (n : ℕ) (out : Text) → scan (n / 10) ((48 + n % 10) ∷ out) ≡ scan n out
scan_last n out =
    let same : n / 10 * 10 + (48 + n % 10 - 48) ≡ n = omega arith in
    scan_step (n / 10) (48 + n % 10) out (omega arith) (omega arith) ∙ ap (λ m. scan m out) same

tenth_lt : (k n : ℕ) → n < 10 ^ suc k → n / 10 < 10 ^ k
tenth_lt k n h = let power : 10 ^ suc k ≡ 10 * 10 ^ k = omega arith in omega (arith, power, h)

scan-emit : (k n : ℕ) (out : Text) → n < 10 ^ k → scan 0 (emit k n out) ≡ scan n out
unfolding emit
scan-emit zero n out h = let same : 0 ≡ n = omega arith in ap (λ m. scan m out) same
scan-emit (suc k) n out h = elim (digit_cases n) [
  | inl small ↦
      let same : 0 ≡ n / 10 = omega arith in
      ap (scan 0) (emit_small k n out small)
      ∙ ap (λ m. scan m ((48 + n % 10) ∷ out)) same
      ∙ scan_last n out
  | inr large ↦
      ap (scan 0) (emit_large k n out large)
      ∙ scan-emit k (n / 10) ((48 + n % 10) ∷ out) (tenth_lt k n h)
      ∙ scan_last n out
]

scan_end : (n : ℕ) (t : Text) → EndsNumber t → scan n t ≡ (n, t)
unfolding scan
scan_end n [] h = refl
scan_end n (c ∷ t) h = rw h refl

number-BeginsDigit : (t : Text) → BeginsDigit t → number t ≡ some (scan 0 t)
unfolding number
number-BeginsDigit [] h = absurd h
number-BeginsDigit (c ∷ t) (low, high) = ground arith

-- The digits of a number in front of what it ends at.
number-emit :
    (n : ℕ) (rest : Text) → n < 10 ^ 10 → EndsNumber rest → number (emit 10 n rest) ≡ some (n, rest)
number-emit n rest h e =
    number-BeginsDigit (emit 10 n rest) (emit-suc-BeginsDigit 9 n rest)
    ∙ ap some (scan-emit 10 n rest h ∙ scan_end n rest e)

read_int-BeginsDigit : (t : Text) → BeginsDigit t → read_int t ≡ (number t >>= positive)
unfolding read_int skip_space signed
read_int-BeginsDigit [] h = absurd h
read_int-BeginsDigit (c ∷ t) (low, high) = ground arith

positive-some : (n : ℕ) (t : Text) → n < 2 ^ 31 → positive (n, t) ≡ some (pos n, t)
positive-some n t h = ground arith

negative-some : (n : ℕ) (t : Text) → n ≤ 2 ^ 31 → negative (n, t) ≡ some (minus n, t)
negative-some n t h = ground arith

pub read_int-print_int :
    (a : ℤ) (rest : Text)
    → IsInt32 a
    → EndsNumber rest
    → read_int (print_int a ++ rest) ≡ some (a, rest)
unfolding print_int read_int skip_space signed
read_int-print_int (pos n) rest (h, _) e =
    ap read_int (emit-append 10 n [] rest)
    ∙ read_int-BeginsDigit (emit 10 n rest) (emit-suc-BeginsDigit 9 n rest)
    ∙ rw (number-emit n rest (omega arith) e) (positive-some n rest h)
read_int-print_int (negsuc n) rest (_, h) e =
    rw (emit-append 10 (suc n) [] rest, number-emit (suc n) rest (omega arith) e)
      (negative-some (suc n) rest h)

pub read_int-space : (t : Text) → read_int (32 ∷ t) ≡ read_int t
unfolding read_int skip_space
read_int-space t = refl

pub read_int-newline : (t : Text) → read_int (10 ∷ t) ≡ read_int t
unfolding read_int skip_space
read_int-newline t = refl
