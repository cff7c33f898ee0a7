-- ===== src/Merkle.antt =====
-- python/nedb/merkle.py: the Merkle tree over content-addressed chunk hashes. A leaf is a text of
-- hex digits; none is the ValueError of a malformed text, or the IndexError of an index that is out
-- of range. An index is a natural number.
pub mod Paths
pub mod Inclusion
pub mod Binding
mod Tests
use aof_db.Prelude.{
  ℕ, zero, suc, ◌+◌, ◌-◌, ◌/◌, ◌%◌, Bool, Option, none, some, List, [], ◌∷◌, ◌++◌, get_elem?,
  length, ltb, nat_beq, if◌then◌else◌,
}
use aof_db.Hex.{Bytes, hex, from_hex}
use aof_db.Hash.{Blake}
use aof_db.Prelude.Texts.{text_beq, repeat}

pub data Side : Type 0 where
  left right : Side

abbrev pub cons_decoded : Option Bytes → Option (List Bytes) → Option (List Bytes)
cons_decoded none level = none
cons_decoded (some b) none = none
cons_decoded (some b) (some bs) = some (b ∷ bs)

-- `[_to_bytes(x) for x in leaves]`
unfoldable pub decode_all : List (List ℕ) → Option (List Bytes)
decode_all [] = some []
decode_all (x ∷ xs) = cons_decoded (from_hex x) (decode_all xs)

module _ (H : Blake) where
  open H use {digest}

  -- One round of the `while` loop: `nxt` from `level`.
  unfoldable pub pair_up : List Bytes → List Bytes
  pair_up [] = []
  pair_up (a ∷ []) = digest (a ++ a) ∷ []
  pair_up (a ∷ b ∷ rest) = digest (a ++ b) ∷ pair_up rest

  -- `while len(level) > 1`, on fuel.
  unfoldable pub root_loop : ℕ → List Bytes → List Bytes
  unfolding pair_up
  root_loop zero level = level
  root_loop (suc fuel) level =
      let next = root_loop fuel (pair_up level) in if ltb 1 (length level) then next else level

  abbrev pub first_hex : List Bytes → List ℕ
  first_hex [] = []
  first_hex (b ∷ bs) = hex b

  abbrev root_of : Option (List Bytes) → Option (List ℕ)
  root_of none = none
  root_of (some level) = some (first_hex (root_loop (length level) level))

  unfoldable pub merkle_root : List (List ℕ) → Option (List ℕ)
  unfolding root_loop
  merkle_root [] = some (repeat b'0' 64)
  merkle_root (x ∷ xs) = root_of (decode_all (x ∷ xs))

  -- The pair that one round appends to the path, with the sibling still as bytes.
  unfoldable pub sibling : List Bytes → ℕ → Option (Bytes × Side)
  sibling level idx =
      if nat_beq (idx % 2) 0
      then elim (get_elem? level (idx + 1)) [
        | some b ↦ some (b, right)
        | none ↦ elim (get_elem? level idx) [ some b ↦ some (b, right) | none ↦ none ]
      ]
      else elim (get_elem? level (idx - 1)) [ some b ↦ some (b, left) | none ↦ none ]

  abbrev pub cons_step :
      Option (Bytes × Side) → Option (List (List ℕ × Side)) → Option (List (List ℕ × Side))
  cons_step none path = none
  cons_step (some s) none = none
  cons_step (some (b, side)) (some path) = some ((hex b, side) ∷ path)

  unfoldable pub proof_loop : ℕ → List Bytes → ℕ → Option (List (List ℕ × Side))
  unfolding pair_up sibling
  proof_loop zero level idx = some []
  proof_loop (suc fuel) level idx =
      let path = cons_step (sibling level idx) (proof_loop fuel (pair_up level) (idx / 2)) in
      if ltb 1 (length level) then path else some []

  abbrev proof_of : Option (List Bytes) → ℕ → Option (List (List ℕ × Side))
  proof_of none idx = none
  proof_of (some level) idx = proof_loop (length level) level idx

  unfoldable pub merkle_proof : List (List ℕ) → ℕ → Option (List (List ℕ × Side))
  unfolding proof_loop
  merkle_proof leaves idx = proof_of (decode_all leaves) idx

  -- `_h(h + sib) if side == "R" else _h(sib + h)`
  abbrev pub combine : Side → Bytes → Bytes → Bytes
  combine right h sib = digest (h ++ sib)
  combine left h sib = digest (sib ++ h)

  unfoldable pub verify_loop : Bytes → List (List ℕ × Side) → Option Bytes
  verify_loop h [] = some h
  verify_loop h ((sib_hex, side) ∷ path) = elim (from_hex sib_hex) [
    | none ↦ none
    | some sib ↦ verify_loop (combine side h sib) path
  ]

  abbrev pub check_root : Option Bytes → List ℕ → Option Bool
  check_root none root = none
  check_root (some h) root = some (text_beq (hex h) root)

  abbrev pub verify_from : Option Bytes → List (List ℕ × Side) → List ℕ → Option Bool
  verify_from none path root = none
  verify_from (some h) path root = check_root (verify_loop h path) root

  unfoldable pub merkle_verify : List ℕ → List (List ℕ × Side) → List ℕ → Option Bool
  unfolding verify_loop
  merkle_verify leaf path root = verify_from (from_hex leaf) path root
