-- ===== src/Stream.antt =====
-- The text streams of the C++ library, as far as the program uses them on its files: `<<` and `>>`
-- on `int`, in decimal (ServerThread.cpp: `store_cust_record_txn`, `store_txn_log_record`,
-- `recovery_txn_log`, `recovery_cust_rec`).
pub mod RoundTrip
pub mod Cut
pub mod Rows
use two_phase_commit_protoco.Base.{
  ℕ, zero, suc, ◌+◌, ◌-◌, ◌*◌, ◌/◌, ◌%◌, ◌^◌, Bool, true, false, ◌&&◌, ◌||◌, Option, none, some,
  List, [], ◌∷◌, ltb, leb, ◌==◌, ◌>>=◌, if◌then◌else◌,
}
use two_phase_commit_protoco.Base.Int.{ℤ, pos, negsuc}
use two_phase_commit_protoco.Base.Text.{Text}

-- The digits of a number in front of a text, with fuel for each digit.
unfoldable pub emit : ℕ → ℕ → Text → Text
emit zero n out = out
emit (suc k) n out =
    let digit = 48 + n % 10 in
    let more = emit k (n / 10) (digit ∷ out) in if ltb n 10 then digit ∷ out else more

-- `file << a`; an `int` has at most ten digits.
unfoldable pub print_int : ℤ → Text
print_int (pos n) = emit 10 n []
print_int (negsuc n) = 45 ∷ emit 10 (suc n) []

abbrev pub is_digit : ℕ → Bool
is_digit c = leb 48 c && leb c 57

abbrev pub is_space : ℕ → Bool
is_space c = (c == 32) || (leb 9 c && leb c 13)

unfoldable pub skip_space : Text → Text
skip_space [] = []
skip_space (c ∷ t) = let more = skip_space t in if is_space c then more else c ∷ t

-- The number that the digits in front spell behind `n`, and what follows them.
unfoldable pub scan : ℕ → Text → ℕ × Text
scan n [] = (n, [])
scan n (c ∷ t) = let more = scan (n * 10 + (c - 48)) t in if is_digit c then more else (n, c ∷ t)

unfoldable pub number : Text → Option (ℕ × Text)
unfolding scan
number [] = none
number (c ∷ t) = if is_digit c then some (scan 0 (c ∷ t)) else none

abbrev pub minus : ℕ → ℤ
minus zero = pos 0
minus (suc n) = negsuc n

abbrev pub positive : ℕ × Text → Option (ℤ × Text)
positive (n, t) = if ltb n (2 ^ 31) then some (pos n, t) else none

abbrev pub negative : ℕ × Text → Option (ℤ × Text)
negative (n, t) = if leb n (2 ^ 31) then some (minus n, t) else none

unfoldable pub signed : Text → Option (ℤ × Text)
unfolding number
signed [] = none
signed (c ∷ t) =
    if c == 45
    then number t >>= negative
    else if c == 43
    then number t >>= positive
    else number (c ∷ t) >>= positive

-- `fin >> a`: white space is passed over, and the number ends at the first character that is no
-- digit, or with the text. `none` is a stream that has failed: there is no number, or it is no `int`.
unfoldable pub read_int : Text → Option (ℤ × Text)
unfolding skip_space signed
read_int t = signed (skip_space t)
