-- ===== src/Merkle/Paths.antt =====
-- One level of the Merkle tree of python/nedb/merkle.py: where the parent of an entry stands.
use aof_db.Prelude.{
  ℕ, zero, suc, ◌+◌, ◌-◌, ◌*◌, ◌/◌, ◌%◌, ◌≤◌, ◌≡◌, refl, ◌∙◌, Bool-cases, inl, inr, subst, some-eq,
  some, List, [], ◌∷◌, ◌++◌, get_elem?, length, nat_beq, arith, All,
}
use aof_db.Hex.{Bytes, IsBytes}
use aof_db.Hash.{Blake}
use aof_db.Merkle.{Side, left, right, pair_up, sibling, combine}

module _ (H : Blake) where
  sibling-next :
      (x y : Bytes) (rest : List Bytes) (idx : ℕ)
      → sibling H (x ∷ y ∷ rest) (suc (suc idx)) ≡ sibling H rest idx
  unfolding sibling
  sibling-next x y rest idx =
      let parity : suc (suc idx) % 2 ≡ idx % 2 = omega arith in
      let after : suc (suc idx) + 1 ≡ suc (suc (idx + 1)) = omega arith in
      elim (Bool-cases (nat_beq (idx % 2) 0)) [
        | inl even ↦ rw (parity, even, after)
        | inr odd ↦
            let before : suc (suc idx) - 1 ≡ suc (suc (idx - 1)) = ground arith in
            rw (parity, odd, before)
      ]

  -- The entry has a sibling, and its parent stands at half its index in the next level.
  pub parent_at :
      (level : List Bytes) (idx : ℕ) (b : Bytes)
      → get_elem? level idx ≡ some b
      → (s : Bytes × Side) × (sibling H level idx ≡ some s)
        × (get_elem? (pair_up H level) (idx / 2) ≡ some (combine H s.1 b s.0))
  unfolding pair_up sibling
  parent_at [] idx b h = cc
  parent_at (x ∷ []) zero b h = ((x, right), refl, ground arith)
  parent_at (x ∷ []) (suc idx) b h = cc
  parent_at (x ∷ y ∷ rest) zero b h = ((y, right), refl, ground arith)
  parent_at (x ∷ y ∷ rest) (suc zero) b h = ((x, left), refl, ground arith)
  parent_at (x ∷ y ∷ rest) (suc (suc idx)) b h =
      let (s, e, p) = parent_at rest idx b h in
      let half : suc (suc idx) / 2 ≡ suc (idx / 2) = omega arith in
      (s, sibling-next x y rest idx ∙ e, rw half p)

  pub length-pair_up : (level : List Bytes) → 2 * length (pair_up H level) ≤ length level + 1
  unfolding pair_up
  length-pair_up [] = omega arith
  length-pair_up (x ∷ []) = omega arith
  length-pair_up (x ∷ y ∷ rest) = omega (arith, length-pair_up rest)

  pub All-pair_up : (level : List Bytes) → All IsBytes (pair_up H level)
  unfolding pair_up
  All-pair_up [] = tt
  All-pair_up (x ∷ []) = (H.digest_IsBytes (x ++ x), tt)
  All-pair_up (x ∷ y ∷ rest) = (H.digest_IsBytes (x ++ y), All-pair_up rest)

All-get_elem? :
    (level : List Bytes) (i : ℕ) (b : Bytes)
    → All IsBytes level
    → get_elem? level i ≡ some b
    → IsBytes b
All-get_elem? [] i b h e = cc
All-get_elem? (x ∷ xs) zero b h e = subst IsBytes (some-eq e) h.0
All-get_elem? (x ∷ xs) (suc i) b h e = All-get_elem? xs i b h.1 e

module _ (H : Blake) where
  pub sibling-IsBytes :
      (level : List Bytes) (idx : ℕ) (s : Bytes × Side)
      → All IsBytes level
      → sibling H level idx ≡ some s
      → IsBytes s.0
  unfolding sibling
  sibling-IsBytes level idx s h e = ground (
    arith,
    All-get_elem? level (idx + 1) s.0 h,
    All-get_elem? level idx s.0 h,
    All-get_elem? level (idx - 1) s.0 h,
  )
