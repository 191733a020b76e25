-- ===== src/Socket/Number.antt =====
-- An `int` over the bytes of a socket (Socket.cpp: `writeInt`, `readInt`), as `SendTxnId`
-- (ClientStub.cpp) and `ReceiveTxnId` (ServerStub.cpp) move the id of a transaction.
use two_phase_commit_protoco.Base.{
  inl, inr, ◌⊎◌, ℕ, zero, suc, ◌+◌, ◌*◌, ◌-◌, ◌/◌, ◌%◌, ◌^◌, ◌≤◌, ◌<◌, ◌≡◌, refl, ap, ◌∙◌, Option,
  none, some, List, [], ◌∷◌, ◌++◌, length, take, drop, arith,
}
use two_phase_commit_protoco.Base.Int.{ℤ, pos, negsuc, to_word, of_word, IsInt32}
use two_phase_commit_protoco.Word.{
  to_word-of_word, to_word-lt, of_word-to_word, htonl, ntohl, swap_bytes, store_int, load_int,
  store-htonl,
}
use two_phase_commit_protoco.Socket.{Wire}

-- The result of one call of `write`, -1 for an error, and the bytes that it has taken.
unfoldable pub write_int : Wire → ℤ → ℤ × List ℕ
write_int wire number =
    let bytes = store_int (htonl number) in
    elim (wire.takes 0 (length bytes)) [ none ↦ (negsuc 0, []) | some k ↦ (pos k, take k bytes) ]

-- One call of `read` for at most four bytes of the stream, into an `int` that is 0; the number and
-- the stream behind it. `none`: nothing has come, the socket is closed and the function ends without
-- a `return`.
unfoldable pub read_int : Wire → List ℕ → Option (ℤ × List ℕ)
read_int wire stream = elim (wire.hands_over 0 (length (take 4 stream))) [
  | none ↦ none
  | some zero ↦ none
  | some (suc k) ↦ elim (load_int (take (suc k) stream ++ drop (suc k) (store_int (pos 0)))) [
    | none ↦ none
    | some (number, _) ↦ some (ntohl number, drop (suc k) stream)
  ]
]

-- What is left of a number of which only the first `k` bytes on the wire arrive.
unfoldable pub front_of : ℕ → ℤ → ℤ
front_of k a = let unit = 2 ^ (8 * (4 - k)) in of_word (to_word a / unit * unit)

-- The four bytes of a word in network order.
abbrev wire_bytes : ℕ → List ℕ
wire_bytes w = w / 2 ^ 24 % 256 ∷ w / 2 ^ 16 % 256 ∷ w / 2 ^ 8 % 256 ∷ w % 256 ∷ []

front_of_whole : (a : ℤ) → IsInt32 a → front_of 4 a ≡ a
unfolding front_of
front_of_whole a h =
    let same : to_word a / 1 * 1 ≡ to_word a = omega arith in ap of_word same ∙ of_word-to_word a h

-- Where a byte is missing, the last byte is 0 and the number is no larger.
abbrev IsCut : ℤ → ℤ → Type 0
IsCut v a = (to_word v % 256 ≡ 0) × (to_word v ≤ to_word a)

-- What arrives of a number: all of it, or a front of it.
abbrev pub Arrived : ℕ → ℤ → Type 0
Arrived k a = ((k ≡ 4) × (front_of k a ≡ a)) ⊎ ((k < 4) × IsCut (front_of k a) a)

of_word-IsCut : (a : ℤ) (w : ℕ) → w % 256 ≡ 0 → w ≤ to_word a → IsCut (of_word w) a
of_word-IsCut a w h le = rw (to_word-of_word w (omega (arith, to_word-lt a))) (h, le)

front_of-Arrived : (k : ℕ) (a : ℤ) → IsInt32 a → 1 ≤ k → k ≤ 4 → Arrived k a
unfolding front_of
front_of-Arrived zero a h low high = absurd (omega arith)
front_of-Arrived (suc zero) a h low high =
    inr (omega arith, of_word-IsCut a _ (omega arith) (omega arith))
front_of-Arrived (suc (suc zero)) a h low high =
    inr (omega arith, of_word-IsCut a _ (omega arith) (omega arith))
front_of-Arrived (suc (suc (suc zero))) a h low high =
    inr (omega arith, of_word-IsCut a _ (omega arith) (omega arith))
front_of-Arrived (suc (suc (suc (suc zero)))) a h low high = inl (refl, front_of_whole a h)
front_of-Arrived (suc (suc (suc (suc (suc k))))) a h low high = absurd (omega arith)

ntohl_bytes :
    (a b c d : ℕ)
    → ntohl (of_word (a % 256 + b % 256 * 2 ^ 8 + c % 256 * 2 ^ 16 + d % 256 * 2 ^ 24))
      ≡ of_word (a % 256 * 2 ^ 24 + b % 256 * 2 ^ 16 + c % 256 * 2 ^ 8 + d % 256)
unfolding ntohl swap_bytes
ntohl_bytes a b c d =
    let w = a % 256 + b % 256 * 2 ^ 8 + c % 256 * 2 ^ 16 + d % 256 * 2 ^ 24 in
    ap (λ x. of_word (swap_bytes x)) (to_word-of_word w (omega arith)) ∙ ap of_word (omega arith)

-- The `int` in memory once the first `k` bytes have been read into it.
filled :
    (k : ℕ) (a : ℤ)
    → 1 ≤ k
    → k ≤ 4
    → (v : ℤ) × (load_int (take k (wire_bytes (to_word a)) ++ drop k (store_int (pos 0)))
        ≡ some (v, []))
      × (ntohl v ≡ front_of k a)
unfolding load_int store_int front_of
filled zero a low high = absurd (omega arith)
filled (suc zero) a low high =
    (_, refl, ntohl_bytes _ 0 0 0 ∙ ap of_word (omega (arith, to_word-lt a)))
filled (suc (suc zero)) a low high =
    (_, refl, ntohl_bytes _ _ 0 0 ∙ ap of_word (omega (arith, to_word-lt a)))
filled (suc (suc (suc zero))) a low high =
    (_, refl, ntohl_bytes _ _ _ 0 ∙ ap of_word (omega (arith, to_word-lt a)))
filled (suc (suc (suc (suc zero)))) a low high =
    (_, refl, ntohl_bytes _ _ _ _ ∙ ap of_word (omega (arith, to_word-lt a)))
filled (suc (suc (suc (suc (suc k))))) a low high = absurd (omega arith)

take-take : (k j : ℕ) (l : List ℕ) → k ≤ j → take k (take j l) ≡ take k l
take-take zero j l h = refl
take-take (suc k) zero l h = absurd (omega arith)
take-take (suc k) (suc j) [] h = refl
take-take (suc k) (suc j) (x ∷ l) h = ap (λ t. x ∷ t) (take-take k j l (omega arith))

length_front : (j w : ℕ) → j ≤ 4 → length (take 4 (take j (wire_bytes w))) ≡ j
length_front zero w h = refl
length_front (suc zero) w h = refl
length_front (suc (suc zero)) w h = refl
length_front (suc (suc (suc zero))) w h = refl
length_front (suc (suc (suc (suc zero)))) w h = refl
length_front (suc (suc (suc (suc (suc j))))) w h = absurd (omega arith)

read_step :
    (to : Wire) (stream : List ℕ) (k : ℕ) (v : ℤ)
    → to.hands_over 0 (length (take 4 stream)) ≡ some (suc k)
    → load_int (take (suc k) stream ++ drop (suc k) (store_int (pos 0))) ≡ some (v, [])
    → read_int to stream ≡ some (ntohl v, drop (suc k) stream)
unfolding read_int
read_step to stream k v e f = rw (read_int, e, f) refl

write_step :
    (from : Wire) (a : ℤ) (j : ℕ)
    → from.takes 0 4 ≡ some j
    → write_int from a ≡ (pos j, take j (wire_bytes (to_word a)))
unfolding write_int store_int
write_step from a j e = rw (write_int, e) (ap (λ l. (pos j, take j l)) (store-htonl a))

-- An id that `SendTxnId` sends, of whose four bytes the call of `write` takes the first `j` and the
-- call of `read` brings the first `k` of these: `writeInt` returns `j`, which `SendTxnId` takes for
-- success, and `readInt` returns the id with all bytes behind the first `k` as 0. Either all four
-- have come and it is the id, or its last byte is 0 and it is no larger, as an unsigned word.
pub read_int-write_int :
    (from to : Wire) (a : ℤ) (j k : ℕ)
    → IsInt32 a
    → from.takes 0 4 ≡ some j
    → to.hands_over 0 j ≡ some k
    → 1 ≤ k
    → k ≤ j
    → j ≤ 4
    → (sent : List ℕ) × (write_int from a ≡ (pos j, sent))
      × (read_int to sent ≡ some (front_of k a, drop k sent))
      × Arrived k a
read_int-write_int from to a j zero small took came low le high = absurd (omega arith)
read_int-write_int from to a j (suc k) small took came low le high =
    let sent = take j (wire_bytes (to_word a)) in
    let (v, fills, value) = filled (suc k) a low (omega arith) in
    let arrives : to.hands_over 0 (length (take 4 sent)) ≡ some (suc k) =
      ap (to.hands_over 0) (length_front j (to_word a) high) ∙ came in
    let loads : load_int (take (suc k) sent ++ drop (suc k) (store_int (pos 0))) ≡ some (v, []) =
      rw (take-take (suc k) j (wire_bytes (to_word a)) le) fills in
    (
      sent,
      write_step from a j took,
      read_step to sent k v arrives loads ∙ ap (λ x. some (x, drop (suc k) sent)) value,
      front_of-Arrived (suc k) a small low (omega arith),
    )
