-- ===== src/Proof/Verdict.antt =====
-- When `verify_proof` of python/nedb/proof.py accepts.
use aof_db.Prelude.{
  ℕ, ◌≡◌, ◌↔◌, refl, ap, Bool, true, false, Option, none, some, List, [], ◌∷◌, ◌++◌, map, Dict,
  lookup, ◌&&◌, All, arith, String, string_eq, Bool-cases, Option-cases, inl, inr, some-eq,
  if◌then◌else◌,
}
use aof_db.Prelude.Texts.{text_beq, text_beq_iff}
use aof_db.Hex.{Bytes, hex, from_hex}
use aof_db.Hex.RoundTrip.{from_hex-hex}
use aof_db.Hash.{Blake}
use aof_db.Proof.{
  Text, Item, Field, Candidate, dict, no_dict, is_hex32_text, is_hex32, all_hex32, is_seq, items_of,
  text_of, texts, chain_step, fold_head, compare_head, derive, check_shape, has_required,
  verify_proof, proof_dict,
}
use aof_db.Proof.Item.{str}

-- 64 characters that `bytes.fromhex` reads
abbrev pub IsHex32 : Text → Type 0
IsHex32 t = is_hex32_text t ≡ true

pub IsHex32-decodes : (t : Text) → IsHex32 t → (x : Bytes) × (from_hex t ≡ some x)
unfolding is_hex32_text
IsHex32-decodes t h = elim (Option-cases (from_hex t)) [
  | inl bad ↦ absurd (ground (arith, bad))
  | inr good ↦ good
]

is_hex32-text_of : (f : Option Field) → is_hex32 f ≡ true → IsHex32 (text_of f)
unfolding is_hex32
is_hex32-text_of (some (Field.str s)) h = h
is_hex32-text_of none h = cc
is_hex32-text_of (some _) h = cc

module _ (H : Blake) where
  pub chain_step-decodes :
      (h t : Text) (x y : Bytes)
      → from_hex h ≡ some x
      → from_hex t ≡ some y
      → (r : Text) × (z : Bytes) × (chain_step H h t ≡ some r) × (from_hex r ≡ some z)
  unfolding chain_step
  chain_step-decodes h t x y hx hy =
      let z = H.digest (x ++ y) in
      (hex z, z, rw (hx, hy), from_hex-hex z (H.digest_IsBytes (x ++ y)))

  -- The fold over well-formed op hashes raises nothing, and its result is a text of hex digits.
  pub fold_head_total :
      (hs : List Text) (h : Text) (x : Bytes)
      → All IsHex32 hs
      → from_hex h ≡ some x
      → (r : Text) × (z : Bytes) × (fold_head H hs (some h) ≡ some r) × (from_hex r ≡ some z)
  unfolding fold_head
  fold_head_total [] h x ok hx = (h, x, refl, hx)
  fold_head_total (t ∷ ts) h x ok hx =
      let (y, hy) = IsHex32-decodes t ok.0 in
      let (h', x', eh, hx') = chain_step-decodes h t x y hx hy in
      let (r, z, er, hz) = fold_head_total ts h' x' ok.1 hx' in (r, z, rw eh er, hz)

  derive_total :
      (prev hash head : Text) (subs : List Text)
      → IsHex32 prev
      → IsHex32 hash
      → All IsHex32 subs
      → (b : Bool) × (derive H prev hash subs head ≡ some b)
  unfolding derive
  derive_total prev hash head subs p h s =
      let (x, hx) = IsHex32-decodes prev p in
      let (r, z, er, hz) = fold_head_total (hash ∷ subs) prev x (h, s) hx in
      (text_beq r head, rw er)

  all_hex32-texts : (items : List Item) → all_hex32 items ≡ true → All IsHex32 (texts H items)
  unfolding all_hex32
  all_hex32-texts [] h = tt
  all_hex32-texts (str s ∷ rest) h = (ground arith, all_hex32-texts rest (ground arith))
  all_hex32-texts (Item.other ∷ rest) h = cc

  check_shape_total :
      (proof : Dict String Field) (items : Option (List Item))
      → (b : Bool) × (check_shape H proof items ≡ some b)
  check_shape_total proof none = (false, refl)
  check_shape_total proof (some items) = elim (Bool-cases (is_hex32 (lookup "hash" proof))) [
    | inr bad ↦ (false, rw bad)
    | inl h ↦ elim (Bool-cases (is_hex32 (lookup "prev_head" proof))) [
      | inr bad ↦ (false, rw (h, bad))
      | inl p ↦ elim (Bool-cases (is_hex32 (lookup "head" proof))) [
        | inr bad ↦ (false, rw (h, p, bad))
        | inl e ↦ elim (Bool-cases (all_hex32 items)) [
          | inr bad ↦ (false, rw (h, p, e, bad))
          | inl s ↦
              let (b, d) =
                derive_total (text_of (lookup "prev_head" proof)) (text_of (lookup "hash" proof))
                  (text_of (lookup "head" proof)) (texts H items)
                  (is_hex32-text_of (lookup "prev_head" proof) p)
                  (is_hex32-text_of (lookup "hash" proof) h) (all_hex32-texts items s) in
              (b, rw (h, p, e, s) d)
        ]
      ]
    ]
  ]

  -- `verify_proof` raises nothing: every argument gets a verdict.
  pub verify_proof_total : (c : Candidate) → (b : Bool) × (verify_proof H c ≡ some b)
  unfolding verify_proof
  verify_proof_total no_dict = (false, refl)
  verify_proof_total (dict proof) = elim (Bool-cases (has_required H proof)) [
    | inr bad ↦ (false, rw bad)
    | inl r ↦ elim (Bool-cases (is_seq (lookup "seq" proof))) [
      | inr bad ↦ (false, rw (r, bad))
      | inl s ↦
          let (b, e) = check_shape_total proof (items_of (lookup "subsequent" proof)) in
          (b, rw (r, s) e)
    ]
  ]

  all_hex32-map : (ts : List Text) → (all_hex32 (map str ts) ≡ true) ↔ All IsHex32 ts
  unfolding all_hex32
  all_hex32-map [] = (λ h. tt, λ h. refl)
  all_hex32-map (t ∷ ts) =
      let (to, from) = all_hex32-map ts in
      (λ h. (ground arith, to (ground arith)), λ h. ground (arith, from h.1))

  texts-map : (ts : List Text) → texts H (map str ts) ≡ ts
  texts-map [] = refl
  texts-map (t ∷ ts) = ap (λ l. t ∷ l) (texts-map ts)

  compare_head_iff :
      (o : Option Text) (head : Text) → (compare_head H o head ≡ some true) ↔ (o ≡ some head)
  compare_head_iff none head = (λ e. cc, λ e. cc)
  compare_head_iff (some h) head = (
    λ e. ap some ((text_beq_iff h head).0 (some-eq e)),
    λ e. ap some ((text_beq_iff h head).1 (some-eq e)),
  )

  abbrev has_shape : Text → Text → Text → List Text → Bool
  has_shape hash prev head subs =
      is_hex32_text hash && (is_hex32_text prev && (is_hex32_text head && all_hex32 (map str subs)))

  verdict :
      (n : ℕ) (hash prev head : Text) (subs : List Text)
      → verify_proof H (dict (proof_dict (n, hash) prev subs head)) ≡ (
          if has_shape hash prev head subs
          then compare_head H (fold_head H (hash ∷ subs) (some prev)) head
          else some false)
  unfolding verify_proof lookup
  verdict n hash prev head subs = rw (texts-map subs) (ground arith)

  -- A proof dict with these fields is accepted exactly when all its hashes have the shape of a
  -- digest and the fold of its op hashes, from the head before the op, is the head it claims;
  -- whatever natural number its seq is.
  pub verify_proof_iff :
      (n : ℕ) (hash prev head : Text) (subs : List Text)
      → (verify_proof H (dict (proof_dict (n, hash) prev subs head)) ≡ some true) ↔ (
          IsHex32 prev
          × IsHex32 head
          × All IsHex32 (hash ∷ subs)
          × (fold_head H (hash ∷ subs) (some prev) ≡ some head))
  verify_proof_iff n hash prev head subs =
      let (decide, claim) = compare_head_iff (fold_head H (hash ∷ subs) (some prev)) head in
      let (to, from) = all_hex32-map subs in
      rw (verdict n hash prev head subs) (elim (Bool-cases (has_shape hash prev head subs)) [
        | inl good ↦ rw good (
          λ e. (ground arith, ground arith, (ground arith, to (ground arith)), decide e),
          λ (p, d, a, f). claim f,
        )
        | inr bad ↦ rw bad (λ e. cc, λ (p, d, a, f). absurd (ground (arith, from a.1)))
      ])
