-- ===== src/Word.antt =====
-- How a C++ `int` lies in memory and on the wire: `htonl` and `ntohl` of <arpa/inet.h> on a
-- little-endian host, and `memcpy` of four bytes (used throughout Messages.cpp and in Socket.cpp).
use two_phase_commit_protoco.Base.{
  append_assoc, ℕ, ◌+◌, ◌*◌, ◌/◌, ◌%◌, ◌^◌, ◌<◌, ◌≡◌, Option, none, some, List, [], ◌∷◌, ◌++◌,
  arith,
}
use two_phase_commit_protoco.Base.Int.{ℤ, pos, negsuc, to_word, of_word, IsInt32}

-- The host is little-endian, so the network's byte order is the reverse.
unfoldable pub swap_bytes : ℕ → ℕ
swap_bytes w =
    w % 256 * 2 ^ 24 + w / 256 % 256 * 2 ^ 16 + w / 2 ^ 16 % 256 * 2 ^ 8 + w / 2 ^ 24 % 256

unfoldable pub htonl : ℤ → ℤ
unfolding swap_bytes
htonl a = of_word (swap_bytes (to_word a))

unfoldable pub ntohl : ℤ → ℤ
unfolding swap_bytes
ntohl a = of_word (swap_bytes (to_word a))

-- `memcpy(buffer + offset, &v, sizeof(v))`: the bytes of the host's representation.
unfoldable pub store_int : ℤ → List ℕ
store_int a =
    let w = to_word a in w % 256 ∷ w / 256 % 256 ∷ w / 2 ^ 16 % 256 ∷ w / 2 ^ 24 % 256 ∷ []

-- `memcpy(&v, buffer + offset, sizeof(v)); offset += sizeof(v)`, on the buffer from `offset` on.
-- `none` is a read past the end of the buffer.
unfoldable pub load_int : List ℕ → Option (ℤ × List ℕ)
load_int (b0 ∷ b1 ∷ b2 ∷ b3 ∷ rest) =
    some (of_word (b0 + b1 * 2 ^ 8 + b2 * 2 ^ 16 + b3 * 2 ^ 24), rest)
load_int _ = none

-- An `int` read back is the `int` written.
load-store : (a : ℤ) (rest : List ℕ) → IsInt32 a → load_int (store_int a ++ rest) ≡ some (a, rest)
unfolding load_int store_int
load-store (pos n) rest h = ground arith
load-store (negsuc n) rest h = ground arith

swap_bytes-lt : (w : ℕ) → swap_bytes w < 2 ^ 32
unfolding swap_bytes
swap_bytes-lt w = omega arith

swap_bytes_twice : (w : ℕ) → w < 2 ^ 32 → swap_bytes (swap_bytes w) ≡ w
unfolding swap_bytes
swap_bytes_twice w h = omega arith

pub to_word-lt : (a : ℤ) → to_word a < 2 ^ 32
to_word-lt (pos n) = omega arith
to_word-lt (negsuc n) = omega arith

pub to_word-of_word : (w : ℕ) → w < 2 ^ 32 → to_word (of_word w) ≡ w
to_word-of_word w h = ground arith

pub of_word-to_word : (a : ℤ) → IsInt32 a → of_word (to_word a) ≡ a
of_word-to_word (pos n) h = ground arith
of_word-to_word (negsuc n) h = ground arith

of_word-IsInt32 : (w : ℕ) → w < 2 ^ 32 → IsInt32 (of_word w)
of_word-IsInt32 w h = ground arith

htonl-IsInt32 : (a : ℤ) → IsInt32 (htonl a)
unfolding htonl
htonl-IsInt32 a = of_word-IsInt32 _ (swap_bytes-lt (to_word a))

pub ntohl-htonl : (a : ℤ) → IsInt32 a → ntohl (htonl a) ≡ a
ntohl-htonl a h =
    unfold htonl ntohl in
    rw (to_word-of_word _ (swap_bytes-lt (to_word a)), swap_bytes_twice _ (to_word-lt a))
      (of_word-to_word a h)

-- The four bytes of `htonl a` in memory are those of the word, the most significant first.
pub store-htonl :
    (a : ℤ)
    → let w = to_word a in
      store_int (htonl a) ≡ w / 2 ^ 24 % 256 ∷ w / 2 ^ 16 % 256 ∷ w / 2 ^ 8 % 256 ∷ w % 256 ∷ []
unfolding htonl store_int swap_bytes
store-htonl a =
    rw (to_word-of_word _ (unfold swap_bytes in swap_bytes-lt (to_word a))) (ground arith)

-- An `int` in network order, read back as it was written.
pub load-store_net :
    (a : ℤ) (rest : List ℕ) → load_int (store_int (htonl a) ++ rest) ≡ some (htonl a, rest)
load-store_net a rest = load-store (htonl a) rest (htonl-IsInt32 a)

-- Reading back what was stored, over appended buffers.
pub ruleset wire_laws = (append_assoc, load-store_net)
