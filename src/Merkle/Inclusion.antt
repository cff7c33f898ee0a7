-- ===== src/Merkle/Inclusion.antt =====
-- Every proof that python/nedb/merkle.py makes for a leaf verifies against the tree's root.
use aof_db.Prelude.{
  ℕ, zero, suc, ◌/◌, ◌≤◌, ◌≡◌, refl, ap, true, Option, none, some, List, [], ◌∷◌, get_elem?, length,
  ltb, arith, All, subst, sym, some-eq,
}
use aof_db.Prelude.Texts.{text_beq_iff}
use aof_db.Hex.{Bytes, IsBytes, hex, from_hex}
use aof_db.Hex.RoundTrip.{from_hex-hex, from_hex-IsBytes}
use aof_db.Hash.{Blake}
use aof_db.Merkle.{
  Side, pair_up, sibling, combine, root_loop, proof_loop, verify_loop, decode_all, merkle_root,
  merkle_proof, merkle_verify, cons_decoded,
}
use aof_db.Merkle.Paths.{parent_at, length-pair_up, All-pair_up, sibling-IsBytes}

cons_decoded_inv :
    (o : Option Bytes) (p : Option (List Bytes)) {level : List Bytes}
    → cons_decoded o p ≡ some level
    → (b : Bytes) × (bs : List Bytes) × (o ≡ some b) × (p ≡ some bs) × (level ≡ b ∷ bs)
cons_decoded_inv none p d = cc
cons_decoded_inv (some b) none d = cc
cons_decoded_inv (some b) (some bs) d = (b, bs, refl, refl, sym (some-eq d))

-- What a successful decoding of the leaves says of their head.
decode_inv :
    (x : List ℕ) (xs : List (List ℕ)) (level : List Bytes)
    → decode_all (x ∷ xs) ≡ some level
    → (b : Bytes) × (bs : List Bytes) × (from_hex x ≡ some b)
      × (decode_all xs ≡ some bs)
      × (level ≡ b ∷ bs)
unfolding decode_all
decode_inv x xs level d = cons_decoded_inv (from_hex x) (decode_all xs) d

decode_all-IsBytes :
    (xs : List (List ℕ)) (level : List Bytes) → decode_all xs ≡ some level → All IsBytes level
unfolding decode_all
decode_all-IsBytes [] level d = subst (All IsBytes) (some-eq d) tt
decode_all-IsBytes (x ∷ xs) level d =
    let (b, bs, eb, ebs, el) = decode_inv x xs level d in
    subst (All IsBytes) (sym el) (from_hex-IsBytes x b eb, decode_all-IsBytes xs bs ebs)

decode_all-get_elem? :
    (xs : List (List ℕ)) (level : List Bytes) (i : ℕ) (leaf : List ℕ)
    → decode_all xs ≡ some level
    → get_elem? xs i ≡ some leaf
    → (b : Bytes) × (from_hex leaf ≡ some b) × (get_elem? level i ≡ some b)
decode_all-get_elem? [] level i leaf d e = cc
decode_all-get_elem? (x ∷ xs) level zero leaf d e =
    let (b, bs, eb, ebs, el) = decode_inv x xs level d in (b, cc (eb, e), rw el)
decode_all-get_elem? (x ∷ xs) level (suc i) leaf d e =
    let (b, bs, eb, ebs, el) = decode_inv x xs level d in
    let (c, ec, found) = decode_all-get_elem? xs bs i leaf ebs e in (c, ec, rw el found)

module _ (H : Blake) where
  -- The path of an entry leads from it to the one entry of the last level.
  record Climbs (fuel : ℕ) (level : List Bytes) (idx : ℕ) (b : Bytes) : Type 0 where
    path : List (List ℕ × Side)
    top : Bytes
    made : proof_loop H fuel level idx ≡ some path
    checked : verify_loop H b path ≡ some top
    root : root_loop H fuel level ≡ top ∷ []

  Climbs-step :
      (fuel : ℕ) (level : List Bytes) (idx : ℕ) (b : Bytes) (s : Bytes × Side)
      → ltb 1 (length level) ≡ true
      → IsBytes s.0
      → sibling H level idx ≡ some s
      → Climbs fuel (pair_up H level) (idx / 2) (combine H s.1 b s.0)
      → Climbs (suc fuel) level idx b
  unfolding proof_loop verify_loop root_loop
  Climbs-step fuel level idx b s long bytes sib c = record {
    path = (hex s.0, s.1) ∷ c.path;
    top = c.top;
    made = rw (long, sib, c.made);
    checked = rw (verify_loop, from_hex-hex s.0 bytes) c.checked;
    root = rw long c.root;
  }

  climbs :
      (fuel : ℕ) (level : List Bytes) (idx : ℕ) (b : Bytes)
      → length level ≤ suc fuel
      → All IsBytes level
      → get_elem? level idx ≡ some b
      → Climbs fuel level idx b
  unfolding proof_loop verify_loop root_loop
  climbs fuel [] idx b f h e = cc
  climbs zero (x ∷ []) zero b f h e = record {
    path = [];
    top = b;
    made = refl;
    checked = refl;
    root = ap (λ t. t ∷ []) (some-eq e);
  }
  climbs (suc fuel) (x ∷ []) zero b f h e = record {
    path = [];
    top = b;
    made = refl;
    checked = refl;
    root = ap (λ t. t ∷ []) (some-eq e);
  }
  climbs fuel (x ∷ []) (suc idx) b f h e = cc
  climbs zero (x ∷ y ∷ rest) idx b f h e = absurd (omega arith)
  climbs (suc fuel) (x ∷ y ∷ rest) idx b f h e =
      let (s, sib, up) = parent_at H (x ∷ y ∷ rest) idx b e in
      Climbs-step fuel (x ∷ y ∷ rest) idx b s (ground arith)
        (sibling-IsBytes H (x ∷ y ∷ rest) idx s h sib) sib
        (climbs fuel (pair_up H (x ∷ y ∷ rest)) (idx / 2) (combine H s.1 b s.0)
          (omega (arith, length-pair_up H (x ∷ y ∷ rest))) (All-pair_up H (x ∷ y ∷ rest)) up)

  -- For every tree of well-formed leaves and every index in it, `merkle_proof` makes a path, the
  -- tree has a root, and `merkle_verify` accepts the leaf with that path against that root.
  pub merkle_verify-merkle_proof :
      (leaves : List (List ℕ)) (level : List Bytes) (idx : ℕ) (leaf : List ℕ)
      → decode_all leaves ≡ some level
      → get_elem? leaves idx ≡ some leaf
      → (path : List (List ℕ × Side)) × (root : List ℕ) × (merkle_proof H leaves idx ≡ some path)
        × (merkle_root H leaves ≡ some root)
        × (merkle_verify H leaf path root ≡ some true)
  unfolding merkle_proof merkle_root merkle_verify
  merkle_verify-merkle_proof [] level idx leaf d e = cc
  merkle_verify-merkle_proof (x ∷ xs) level idx leaf d e =
      let (b, eb, found) = decode_all-get_elem? (x ∷ xs) level idx leaf d e in
      let c =
        climbs (length level) level idx b (omega arith) (decode_all-IsBytes (x ∷ xs) level d)
          found in
      (
        c.path,
        hex c.top,
        rw d c.made,
        rw (d, c.root),
        rw (merkle_verify, eb, c.checked, (text_beq_iff (hex c.top) (hex c.top)).1 refl),
      )
