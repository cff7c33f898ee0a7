-- ===== src/Hash.antt =====
-- `hashlib.blake2b(data, digest_size=32)`, which the source takes from the standard library: any
-- function to digests of 32 bytes. Two inputs with one digest are a collision. Any such function has
-- collisions, so a theorem never says only that there is one: it says between which of the inputs
-- that the code has hashed.
use aof_db.Prelude.{
  ℕ, zero, suc, ◌+◌, ◌*◌, ◌%◌, ◌≡◌, ◌≢◌, refl, List, ◌⊎◌, inl, inr, [], ◌∷◌, arith, length,
}
use aof_db.Prelude.Texts.{text_cases}
use aof_db.Hex.{Bytes, IsBytes}

pub record Blake : Type 0 where
  pub digest : Bytes → Bytes
  pub digest_IsBytes : (b : Bytes) → IsBytes (digest b)
  pub length-digest : (b : Bytes) → length (digest b) ≡ 32

-- These two inputs differ, and have one digest.
abbrev pub Collide : Blake → Bytes → Bytes → Type 0
Collide H x y = (x ≢ y) × (H.digest x ≡ H.digest y)

-- At some place of these two lists of inputs stand two that collide.
abbrev pub Collision : Blake → List Bytes → List Bytes → Type 0
Collision H [] ys = ⊥
Collision H (x ∷ xs) [] = ⊥
Collision H (x ∷ xs) (y ∷ ys) = Collide H x y ⊎ Collision H xs ys

-- Two inputs with one digest are the same, or they collide.
pub digest_inj : (H : Blake) (x y : Bytes) → H.digest x ≡ H.digest y → (x ≡ y) ⊎ Collide H x y
digest_inj H x y e = elim (text_cases x y) [ inl same ↦ inl same | inr other ↦ inr (other, e) ]

pub sum : Bytes → ℕ
sum [] = 0
sum (b ∷ bs) = b + 3 * sum bs

abbrev pub zeros : ℕ → Bytes
zeros zero = []
zeros (suc n) = 0 ∷ zeros n

-- A weak hash for the concrete runs.
unfoldable pub weak_digest : Bytes → Bytes
unfolding sum
weak_digest b = (sum b % 256) ∷ zeros 31

pub weak_IsBytes : (b : Bytes) → IsBytes (weak_digest b)
unfolding weak_digest
weak_IsBytes b = omega arith

pub length-weak_digest : (b : Bytes) → length (weak_digest b) ≡ 32
unfolding weak_digest
length-weak_digest b = refl

abbrev pub weak : Blake
weak = record {
  digest = weak_digest;
  digest_IsBytes = weak_IsBytes;
  length-digest = length-weak_digest;
}
