-- ===== src/Map/Laws.antt =====
-- Look-ups after updates of a `std::map`.
use two_phase_commit_protoco.Base.{◌≡◌, ◌≢◌, refl, none, some, [], ◌∷◌, arith, if◌then◌else◌}
use two_phase_commit_protoco.Base.Int.{ℤ, eqb_ℤ, eqb_ℤ_iff, eqb_ℤ_refl}
use two_phase_commit_protoco.Map.{Map, find, put, insert}

module _ {ℓ} {V : Type ℓ} where
  pub find-put :
      (j k : ℤ) (v : V) (m : Map V) → find j (put k v m) ≡ (if eqb_ℤ k j then some v else find j m)
  unfolding find put
  find-put j k v [] = refl
  find-put j k v ((i, w) ∷ m) =
      ground (arith, eqb_ℤ_iff i k, eqb_ℤ_iff i j, eqb_ℤ_iff k j, find-put j k v m)

  pub find-put_self : (k : ℤ) (v : V) (m : Map V) → find k (put k v m) ≡ some v
  find-put_self k v m = simp (find-put, eqb_ℤ_refl)

  pub find-put_ne : (j k : ℤ) (v : V) (m : Map V) → k ≢ j → find j (put k v m) ≡ find j m
  find-put_ne j k v m h = ground (arith, find-put j k v m, eqb_ℤ_iff k j)

  pub insert_new : (k : ℤ) (v : V) (m : Map V) → find k m ≡ none → insert k v m ≡ put k v m
  unfolding insert
  insert_new k v m h = ground (arith, h)

  pub insert_old : (k : ℤ) {w : V} (v : V) (m : Map V) → find k m ≡ some w → insert k v m ≡ m
  unfolding insert
  insert_old k v m h = ground (arith, h)

  pub find-insert_new :
      (k : ℤ) (v : V) (m : Map V) → find k m ≡ none → find k (insert k v m) ≡ some v
  find-insert_new k v m h = rw (insert_new k v m h) (find-put_self k v m)

  pub find-insert_ne : (j k : ℤ) (v : V) (m : Map V) → k ≢ j → find j (insert k v m) ≡ find j m
  unfolding insert
  find-insert_ne j k v m h = ground (arith, find-put_ne j k v m h)

  pub put-put : (k : ℤ) (v w : V) (m : Map V) → put k w (put k v m) ≡ put k w m
  unfolding put
  put-put k v w [] = rw (eqb_ℤ_refl k)
  put-put k v w ((i, u) ∷ m) = ground (arith, eqb_ℤ_refl k, eqb_ℤ_iff i k, put-put k v w m)
