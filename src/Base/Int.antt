-- ===== src/Base/Int.antt =====
-- C++ `int`: signed integers, and their 32-bit range.
use Prim.Native.Nat.{ℕ, zero, suc, ◌+◌, ◌-◌, ◌^◌, ◌%◌, ◌≤◌, ◌<◌}
use mathlib.Core.Path.{◌≡◌, refl}
use mathlib.Core.Logic.{◌↔◌}
use mathlib.Core.Bool.{Bool, true, false}
use native.Mathlib.Omega.{arith}
use two_phase_commit_protoco.Base.Tests.{ltb, ◌==◌, if◌then◌else◌}

-- `negsuc n` is -(n + 1).
pub data ℤ : Type 0 where
  pos : ℕ → ℤ
  negsuc : ℕ → ℤ

abbrev pub pos_part : ℤ → ℕ
pos_part (pos n) = n
pos_part (negsuc n) = 0

abbrev pub neg_part : ℤ → ℕ
neg_part (pos n) = 0
neg_part (negsuc n) = suc n

infix 50 ◌≤ℤ◌ ◌<ℤ◌
abbrev pub ◌≤ℤ◌ : ℤ → ℤ → Type 0
a ≤ℤ b = pos_part a + neg_part b ≤ pos_part b + neg_part a

abbrev pub ◌<ℤ◌ : ℤ → ℤ → Type 0
a <ℤ b = pos_part a + neg_part b < pos_part b + neg_part a

-- The source's `-1`.
abbrev pub minus_one : ℤ
minus_one = negsuc 0

-- `a == b` and `a < b` of the source.
abbrev pub eqb_ℤ : ℤ → ℤ → Bool
eqb_ℤ (pos a) (pos b) = a == b
eqb_ℤ (pos a) (negsuc b) = false
eqb_ℤ (negsuc a) (pos b) = false
eqb_ℤ (negsuc a) (negsuc b) = a == b

abbrev pub ltb_ℤ : ℤ → ℤ → Bool
ltb_ℤ a b = ltb (pos_part a + neg_part b) (pos_part b + neg_part a)

pub eqb_ℤ_iff : (a b : ℤ) → (eqb_ℤ a b ≡ true) ↔ (a ≡ b)
eqb_ℤ_iff (pos a) (pos b) = ground arith
eqb_ℤ_iff (pos a) (negsuc b) = ground arith
eqb_ℤ_iff (negsuc a) (pos b) = ground arith
eqb_ℤ_iff (negsuc a) (negsuc b) = ground arith

pub eqb_ℤ_refl : (a : ℤ) → eqb_ℤ a a ≡ true
eqb_ℤ_refl a = (eqb_ℤ_iff a a).1 refl

-- -2^31 ≤ a < 2^31
abbrev pub IsInt32 : ℤ → Type 0
IsInt32 a = (pos_part a < 2 ^ 31) × (neg_part a ≤ 2 ^ 31)

-- The bit pattern of an `int`, and the `int` of a bit pattern.
abbrev pub to_word : ℤ → ℕ
to_word (pos n) = n % 2 ^ 32
to_word (negsuc n) = 2 ^ 32 - 1 - n % 2 ^ 32

abbrev pub of_word : ℕ → ℤ
of_word w = if ltb w (2 ^ 31) then pos w else negsuc (2 ^ 32 - 1 - w)

-- `a + 1` and `a - 1` on `int`, with the wrap-around of two's complement.
unfoldable pub inc : ℤ → ℤ
inc a = of_word ((to_word a + 1) % 2 ^ 32)

unfoldable pub dec : ℤ → ℤ
dec a = of_word ((to_word a + (2 ^ 32 - 1)) % 2 ^ 32)

pub inc-pos : (n : ℕ) → n + 1 < 2 ^ 31 → inc (pos n) ≡ pos (n + 1)
unfolding inc
inc-pos n h = ground arith

pub inc-minus_one : inc minus_one ≡ pos 0
unfolding inc
inc-minus_one = refl

pub dec-pos : (n : ℕ) → n + 1 < 2 ^ 31 → dec (pos (n + 1)) ≡ pos n
unfolding dec
dec-pos n h = ground arith

pub dec-zero : dec (pos 0) ≡ minus_one
unfolding dec
dec-zero = refl

-- The index of the last of `n` entries, as the source keeps it: -1 where there is none.
abbrev pub index_of : ℕ → ℤ
index_of zero = minus_one
index_of (suc n) = pos n

pub inc-index_of : (n : ℕ) → n < 2 ^ 31 → inc (index_of n) ≡ index_of (suc n)
inc-index_of zero h = inc-minus_one
inc-index_of (suc n) h = rw (inc-pos n (omega arith)) (ground arith)

pub ltb_ℤ-index_of : (a b : ℕ) → ltb_ℤ (index_of a) (index_of b) ≡ ltb a b
ltb_ℤ-index_of zero zero = ground arith
ltb_ℤ-index_of zero (suc b) = ground arith
ltb_ℤ-index_of (suc a) zero = ground arith
ltb_ℤ-index_of (suc a) (suc b) = ground arith

-- Tests on an index that is not -1.
pub ltb_ℤ-pos_zero : (n : ℕ) → ltb_ℤ (pos n) (pos 0) ≡ false
ltb_ℤ-pos_zero n = ground arith

pub dec-suc : (n : ℕ) → n + 1 < 2 ^ 31 → dec (pos (suc n)) ≡ pos n
unfolding dec
dec-suc n h = ground arith
