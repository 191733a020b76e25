-- ===== src/Socket/Loops.antt =====
-- `Socket::Send` and `Socket::Recv` (Socket.cpp) on whole messages.
use mathlib.Core.Option.{some-injective}
use two_phase_commit_protoco.Base.{
  drop-append, take-append, length-append, ℕ, zero, suc, ◌-◌, ◌≤◌, ◌<◌, ◌≡◌, refl, sym, ap, ◌∙◌,
  ◌⊎◌, inl, inr, Bool, true, false, none, some, List, [], ◌∷◌, ◌++◌, append-nil, append_assoc,
  length, take, drop, take-drop, length-drop, take-split, drop-split, arith, Option-cases,
}
use two_phase_commit_protoco.Socket.{Wire, send_loop, send_all, recv_loop, recv_all}

-- `send` takes at least one of the bytes that it is offered, and no more than these, or fails.
abbrev pub Takes : Wire → Type 0
Takes wire = (n a k : ℕ) → wire.takes n (suc a) ≡ some k → (1 ≤ k) × (k ≤ suc a)

-- `recv` hands over at least one of the bytes that have arrived, and no more than these, each time.
abbrev pub HandsOver : Wire → Type 0
HandsOver wire = (n a : ℕ) → (k : ℕ) × (wire.hands_over n (suc a) ≡ some k) × (1 ≤ k) × (k ≤ suc a)

-- What has gone out of a message: all of it, or the front of it.
abbrev pub WentOut : Bool → List ℕ → List ℕ → Type 0
WentOut ok sent buffer =
    ((ok ≡ true) × (sent ≡ buffer)) ⊎ ((ok ≡ false) × (rest : List ℕ) × (sent ++ rest ≡ buffer))

WentOut-take :
    (ok : Bool) (k : ℕ) (sent l : List ℕ)
    → WentOut ok sent (drop k l)
    → WentOut ok (take k l ++ sent) l
WentOut-take ok k sent l (inl (t, whole)) = inl (t, ap (λ x. take k l ++ x) whole ∙ take-drop k l)
WentOut-take ok k sent l (inr (f, rest, front)) =
    inr (f, rest, append_assoc (take k l) sent rest ∙ ap (λ x. take k l ++ x) front ∙ take-drop k l)

module _ (wire : Wire) where
  send_step :
      (n calls k b : ℕ) (bs out : List ℕ)
      → wire.takes calls (length (b ∷ bs)) ≡ some k
      → send_loop wire (suc n) calls (b ∷ bs) out
        ≡ send_loop wire n (suc calls) (drop k (b ∷ bs)) (out ++ take k (b ∷ bs))
  unfolding send_loop
  send_step n calls k b bs out e = rw (send_loop, e) refl

  send_fails :
      (n calls b : ℕ) (bs out : List ℕ)
      → wire.takes calls (length (b ∷ bs)) ≡ none
      → send_loop wire (suc n) calls (b ∷ bs) out ≡ some (false, out)
  unfolding send_loop
  send_fails n calls b bs out e = rw (send_loop, e) refl

  send_loop-WentOut :
      (n calls : ℕ) (buffer out : List ℕ)
      → Takes wire
      → length buffer < n
      → (ok : Bool) × (sent : List ℕ) × (send_loop wire n calls buffer out ≡ some (ok, out ++ sent))
        × WentOut ok sent buffer
  send_loop-WentOut zero calls buffer out h lt = absurd (omega arith)
  send_loop-WentOut (suc n) calls [] out h lt =
      (true, [], unfold send_loop in rw append-nil refl, inl (refl, refl))
  send_loop-WentOut (suc n) calls (b ∷ bs) out h lt =
      elim (Option-cases (wire.takes calls (length (b ∷ bs)))) [
        | inl e ↦ (
          false,
          [],
          send_fails n calls b bs out e ∙ ap (λ l. some (false, l)) (sym (append-nil out)),
          inr (refl, b ∷ bs, refl),
        )
        | inr (k, e) ↦
            let l = b ∷ bs in
            let (low, high) = h calls (length bs) k e in
            let (ok, sent, runs, went) =
              send_loop-WentOut n (suc calls) (drop k l) (out ++ take k l) h
                (omega (arith, length-drop k l)) in
            (
              ok,
              take k l ++ sent,
              send_step n calls k b bs out e
                  ∙ runs
                  ∙ ap (λ x. some (ok, x)) (append_assoc out (take k l) sent),
              WentOut-take ok k sent l went,
            )
      ]

  -- `Send` ends, if every call of `send` takes a byte or fails: it returns 1 and all bytes of the
  -- message have gone out in their order, or it returns 0 and those at its front have.
  pub send_all-WentOut :
      (buffer : List ℕ)
      → Takes wire
      → (ok : Bool) × (sent : List ℕ) × (send_all wire buffer ≡ some (ok, sent))
        × WentOut ok sent buffer
  unfolding send_all
  send_all-WentOut buffer h = send_loop-WentOut (suc (length buffer)) 0 buffer [] h (omega arith)

  recv_step :
      (n calls size k b : ℕ) (bs buffer : List ℕ)
      → wire.hands_over calls (length (take (suc size) (b ∷ bs))) ≡ some k
      → recv_loop wire (suc n) calls (suc size) (b ∷ bs) buffer
        ≡ recv_loop wire n (suc calls) (suc size - k) (drop k (b ∷ bs)) (buffer ++ take k (b ∷ bs))
  unfolding recv_loop
  recv_step n calls size k b bs buffer e = rw (recv_loop, e) refl

  length-take_le : (n : ℕ) (xs : List ℕ) → length (take n xs) ≤ n
  length-take_le zero xs = omega arith
  length-take_le (suc n) [] = omega arith
  length-take_le (suc n) (x ∷ xs) = omega (arith, length-take_le n xs)

  recv_loop-stream :
      (n calls size : ℕ) (stream buffer : List ℕ)
      → HandsOver wire
      → size < n
      → size ≤ length stream
      → recv_loop wire n calls size stream buffer
        ≡ some (true, buffer ++ take size stream, drop size stream)
  recv_loop-stream zero calls size stream buffer h lt le = absurd (omega arith)
  recv_loop-stream (suc n) calls zero stream buffer h lt le =
      unfold recv_loop in ap (λ l. some (true, l, stream)) (sym (append-nil buffer))
  recv_loop-stream (suc n) calls (suc size) [] buffer h lt le = absurd (omega arith)
  recv_loop-stream (suc n) calls (suc size) (b ∷ bs) buffer h lt le =
      let l = b ∷ bs in
      let (k, e, low, high) = h calls (length (take size bs)) in
      let within : k ≤ suc size = omega (arith, length-take_le size bs) in
      recv_step n calls size k b bs buffer e
      ∙ recv_loop-stream n (suc calls) (suc size - k) (drop k l) (buffer ++ take k l) h
          (omega arith) (omega (arith, length-drop k l))
      ∙ ap (λ x. some (true, x, drop (suc size - k) (drop k l)))
          (append_assoc buffer (take k l) (take (suc size - k) (drop k l))
            ∙ ap (λ x. buffer ++ x) (take-split k (suc size) l within))
      ∙ ap (λ x. some (true, buffer ++ take (suc size) l, x)) (drop-split k (suc size) l within)

  -- `Recv` of `size` bytes ends, returns 1 and brings the first `size` bytes of the stream, however
  -- the calls of `recv` cut it up, if these many arrive and each call hands over a byte.
  recv_all-stream :
      (size : ℕ) (stream : List ℕ)
      → HandsOver wire
      → size ≤ length stream
      → recv_all wire size stream ≡ some (true, take size stream, drop size stream)
  unfolding recv_all
  recv_all-stream size stream h le = recv_loop-stream (suc size) 0 size stream [] h (omega arith) le

-- With the result 1 the whole message has gone out.
pub send_all-whole :
    (from : Wire) (message sent : List ℕ)
    → Takes from
    → send_all from message ≡ some (true, sent)
    → sent ≡ message
send_all-whole from message sent h e =
    let (ok, out, runs, went) = send_all-WentOut from message h in
    let same : ◌≡◌ {A = Bool × List ℕ} (ok, out) (true, sent) =
      some-injective (ok, out) (true, sent) (sym runs ∙ e) in
    let same_ok : ok ≡ true = ap (λ (p : Bool × List ℕ). p.0) same in
    elim went [
      | inl (t, all) ↦ sym (ap (λ (p : Bool × List ℕ). p.1) same) ∙ all
      | inr (f, rest, front) ↦ cc (sym f ∙ same_ok)
    ]

-- A message that `Send` has sent with the result 1 is what `Recv` of its length brings on the other
-- side, and what was sent after it is still to be read: if a call of `send` takes a byte or fails,
-- and a call of `recv` hands over a byte, whatever the sizes in which they do so.
pub recv_all-send_all :
    (from to : Wire) (message sent later : List ℕ)
    → Takes from
    → HandsOver to
    → send_all from message ≡ some (true, sent)
    → recv_all to (length message) (sent ++ later) ≡ some (true, message, later)
recv_all-send_all from to message sent later h g e =
    ap (λ l. recv_all to (length message) (l ++ later)) (send_all-whole from message sent h e)
    ∙ recv_all-stream to (length message) (message ++ later) g
        (omega (arith, length-append message later))
    ∙ ap (λ l. some (true, l, drop (length message) (message ++ later))) (take-append message later)
    ∙ ap (λ l. some (true, message, l)) (drop-append message later)
