-- ===== src/Merkle/Binding.antt =====
-- What a root of python/nedb/merkle.py commits to.
use aof_db.Prelude.{
  ℕ, ◌≡◌, refl, sym, subst, ◌⊎◌, inl, inr, true, none, some, List, [], ◌∷◌, ◌++◌, length, arith,
  Option-cases, some-eq, append_inj_left, append_inj_right, ◌∙◌,
}
use aof_db.Prelude.Texts.{text_beq_iff}
use aof_db.Hex.{Bytes, IsBytes, hex, from_hex}
use aof_db.Hex.RoundTrip.{hex_inj, from_hex-IsBytes}
use aof_db.Hash.{Blake, Collide, Collision, digest_inj}
use aof_db.Merkle.{Side, left, right, combine, verify_loop, merkle_verify, check_root}

abbrev pub sides : List (List ℕ × Side) → List Side
sides [] = []
sides ((t, side) ∷ path) = side ∷ sides path

module _ (H : Blake) where
  -- What a round of the loop of `merkle_verify` hashes.
  abbrev pub joined : Side → Bytes → Bytes → Bytes
  joined right h sib = h ++ sib
  joined left h sib = sib ++ h

  -- What the loop of `merkle_verify` hashes along a path, from a leaf.
  unfoldable pub hashed : Bytes → List (List ℕ × Side) → List Bytes
  hashed h [] = []
  hashed h ((t, side) ∷ path) = elim (from_hex t) [
    | none ↦ []
    | some sib ↦ joined side h sib ∷ hashed (combine H side h sib) path
  ]

  combine_inj :
      (side : Side) (x y p q : Bytes)
      → length x ≡ length y
      → combine H side x p ≡ combine H side y q
      → (x ≡ y) ⊎ Collide H (joined side x p) (joined side y q)
  combine_inj right x y p q h e = elim (digest_inj H (x ++ p) (y ++ q) e) [
    | inl same ↦ inl (append_inj_left x y h same).0
    | inr c ↦ inr c
  ]
  combine_inj left x y p q h e = elim (digest_inj H (p ++ x) (q ++ y) e) [
    | inl same ↦ inl (append_inj_right p q x y h same).1
    | inr c ↦ inr c
  ]

  length-combine :
      (side : Side) (x y p q : Bytes) → length (combine H side x p) ≡ length (combine H side y q)
  length-combine right x y p q = omega (arith, H.length-digest (x ++ p), H.length-digest (y ++ q))
  length-combine left x y p q = omega (arith, H.length-digest (p ++ x), H.length-digest (q ++ y))

  verify_inv :
      (h : Bytes) (t : List ℕ) (side : Side) (path : List (List ℕ × Side)) (top : Bytes)
      → verify_loop H h ((t, side) ∷ path) ≡ some top
      → (sib : Bytes) × (verify_loop H (combine H side h sib) path ≡ some top)
        × (hashed h ((t, side) ∷ path) ≡ joined side h sib ∷ hashed (combine H side h sib) path)
  unfolding verify_loop hashed
  verify_inv h t side path top e = elim (Option-cases (from_hex t)) [
    | inl bad ↦ cc (rw (verify_loop, bad) at e)
    | inr (sib, good) ↦ (sib, rw (verify_loop, good) at e, rw (hashed, good) refl)
  ]

  verify_loop_inj :
      (x y : Bytes) (p q : List (List ℕ × Side)) (top : Bytes)
      → length x ≡ length y
      → sides p ≡ sides q
      → verify_loop H x p ≡ some top
      → verify_loop H y q ≡ some top
      → (x ≡ y) ⊎ Collision H (hashed x p) (hashed y q)
  verify_loop_inj x y [] [] top h s ex ey = inl (unfold verify_loop in some-eq (ex ∙ sym ey))
  verify_loop_inj x y [] (b ∷ q) top h s ex ey = cc
  verify_loop_inj x y (a ∷ p) [] top h s ex ey = cc
  verify_loop_inj x y ((t, l) ∷ p) ((u, m) ∷ q) top h s ex ey =
      let (sib, fx, gx) = verify_inv x t l p top ex in
      let (sib', fy, gy) = verify_inv y u m q top ey in
      let same : m ≡ l = cc in
      let fy' = subst (λ k. verify_loop H (combine H k y sib') q ≡ some top) same fy in
      let gy' =
        subst (λ k. hashed y ((u, m) ∷ q) ≡ joined k y sib' ∷ hashed (combine H k y sib') q) same
          gy in
      let rest =
        verify_loop_inj (combine H l x sib) (combine H l y sib') p q top
          (length-combine l x y sib sib') (cc) fx fy' in
      rw (gx, gy')
        (elim rest [
          | inl e ↦ elim (combine_inj l x y sib sib' h e) [
            | inl same ↦ inl same
            | inr c ↦ inr (inl c)
          ]
          | inr c ↦ inr (inr c)
        ])

  verify_loop-IsBytes :
      (x : Bytes) (p : List (List ℕ × Side)) (top : Bytes)
      → IsBytes x
      → verify_loop H x p ≡ some top
      → IsBytes top
  unfolding verify_loop
  verify_loop-IsBytes x [] top h e = subst IsBytes (some-eq e) h
  verify_loop-IsBytes x ((t, right) ∷ p) top h e =
      let (sib, f, g) = verify_inv x t right p top e in
      verify_loop-IsBytes (combine H right x sib) p top (H.digest_IsBytes (x ++ sib)) f
  verify_loop-IsBytes x ((t, left) ∷ p) top h e =
      let (sib, f, g) = verify_inv x t left p top e in
      verify_loop-IsBytes (combine H left x sib) p top (H.digest_IsBytes (sib ++ x)) f

  accept_inv :
      (x : Bytes) (path : List (List ℕ × Side)) (root : List ℕ)
      → check_root H (verify_loop H x path) root ≡ some true
      → (top : Bytes) × (verify_loop H x path ≡ some top) × (hex top ≡ root)
  accept_inv x path root e = elim (Option-cases (verify_loop H x path)) [
    | inl bad ↦ cc (rw bad at e)
    | inr (top, good) ↦ (top, good, (text_beq_iff (hex top) root).0 (some-eq (rw good at e)))
  ]

  -- If one root accepts two leaves of the same number of bytes, each with its path and the same
  -- sides on it, the leaves decode to the same bytes, or at some place of the two what `merkle_verify` hashes there
  -- differs and has one digest.
  pub merkle_verify_binding :
      (root : List ℕ) (leaf leaf' : List ℕ) (x x' : Bytes) (p p' : List (List ℕ × Side))
      → from_hex leaf ≡ some x
      → from_hex leaf' ≡ some x'
      → length x ≡ length x'
      → sides p ≡ sides p'
      → merkle_verify H leaf p root ≡ some true
      → merkle_verify H leaf' p' root ≡ some true
      → (x ≡ x') ⊎ Collision H (hashed x p) (hashed x' p')
  unfolding merkle_verify
  merkle_verify_binding root leaf leaf' x x' p p' d d' l s a a' =
      let (top, c, r) = accept_inv x p root (rw (merkle_verify, d) at a) in
      let (top', c', r') = accept_inv x' p' root (rw (merkle_verify, d') at a') in
      let bytes = verify_loop-IsBytes x p top (from_hex-IsBytes leaf x d) c in
      let bytes' = verify_loop-IsBytes x' p' top' (from_hex-IsBytes leaf' x' d') c' in
      let same : top' ≡ top = hex_inj top' top bytes' bytes (r' ∙ sym r) in
      verify_loop_inj x x' p p' top l s c (subst (λ t. verify_loop H x' p' ≡ some t) same c')
