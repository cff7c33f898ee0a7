-- ===== src/Proof/Commitment.antt =====
-- What the head of an accepted proof of python/nedb/proof.py commits to.
use aof_db.Prelude.{
  ℕ, ◌≡◌, refl, ◌⊎◌, inl, inr, sym, ap, ◌∙◌, true, none, some, List, [], ◌∷◌, ◌++◌, All, arith,
  some-eq, length, append_inj_left,
}
use aof_db.Hex.{Bytes, hex, from_hex}
use aof_db.Hex.RoundTrip.{from_hex-hex}
use aof_db.Hash.{Blake, Collide, Collision, digest_inj}
use aof_db.Proof.{Text, dict, chain_step, fold_head, verify_proof, proof_dict}
use aof_db.Proof.Verdict.{verify_proof_iff}

-- The text decodes to 32 bytes.
abbrev pub IsDigest : Text → Type 0
IsDigest t = (x : Bytes) × (from_hex t ≡ some x) × (length x ≡ 32)

abbrev pub SameBytes : Text → Text → Type 0
SameBytes t u = from_hex t ≡ from_hex u

abbrev pub AllSame : List Text → List Text → Type 0
AllSame [] [] = Unit
AllSame (t ∷ ts) (u ∷ us) = SameBytes t u × AllSame ts us
AllSame _ _ = ⊥

module _ (H : Blake) where
  -- What the steps of `fold_head` hash, one after the other, as far as its texts decode.
  unfoldable pub hashed : Text → List Text → List Bytes
  hashed head [] = []
  hashed head (t ∷ ts) = elim (from_hex head) [
    | none ↦ []
    | some x ↦ elim (from_hex t) [
      | none ↦ []
      | some y ↦ (x ++ y) ∷ hashed (hex (H.digest (x ++ y))) ts
    ]
  ]

  step_input : (h t : Text) → IsDigest h → IsDigest t → Bytes
  step_input h t (x, hx, lx) (y, hy, ly) = x ++ y

  step_text : (h t : Text) → IsDigest h → IsDigest t → Text
  step_text h t (x, hx, lx) (y, hy, ly) = hex (H.digest (x ++ y))

  step_text-IsDigest :
      (h t : Text) (dh : IsDigest h) (dt : IsDigest t) → IsDigest (step_text h t dh dt)
  unfolding step_text
  step_text-IsDigest h t (x, hx, lx) (y, hy, ly) =
      (H.digest (x ++ y), from_hex-hex _ (H.digest_IsBytes (x ++ y)), H.length-digest (x ++ y))

  chain_step_lem :
      (h t : Text) (dh : IsDigest h) (dt : IsDigest t)
      → chain_step H h t ≡ some (step_text h t dh dt)
  unfolding step_text chain_step
  chain_step_lem h t (x, hx, lx) (y, hy, ly) = rw (hx, hy)

  hashed_lem :
      (h t : Text) (ts : List Text) (dh : IsDigest h) (dt : IsDigest t)
      → hashed h (t ∷ ts) ≡ step_input h t dh dt ∷ hashed (step_text h t dh dt) ts
  unfolding hashed step_text step_input
  hashed_lem h t ts (x, hx, lx) (y, hy, ly) = rw (hashed, hx, hy) refl

  step_text_inj :
      (h t k u : Text) (dh : IsDigest h) (dt : IsDigest t) (dk : IsDigest k) (du : IsDigest u)
      → SameBytes (step_text h t dh dt) (step_text k u dk du)
      → (SameBytes h k × SameBytes t u) ⊎ Collide H (step_input h t dh dt) (step_input k u dk du)
  unfolding step_text step_input
  step_text_inj h t k u (x, hx, lx) (y, hy, ly) (z, hz, lz) (w, hw, lw) e =
      let digests : H.digest (x ++ y) ≡ H.digest (z ++ w) = some-eq (
        sym (from_hex-hex (H.digest (x ++ y)) (H.digest_IsBytes (x ++ y)))
        ∙ (e ∙ from_hex-hex (H.digest (z ++ w)) (H.digest_IsBytes (z ++ w)))) in
      elim (digest_inj H (x ++ y) (z ++ w) digests) [
        | inl same ↦
            let (xz, yw) = append_inj_left x z (omega arith) same in
            inl (hx ∙ (ap some xz ∙ sym hz), hy ∙ (ap some yw ∙ sym hw))
        | inr c ↦ inr c
      ]

  fold_head_inj :
      (ts us : List Text) (h k r : Text)
      → IsDigest h
      → IsDigest k
      → All IsDigest ts
      → All IsDigest us
      → length ts ≡ length us
      → fold_head H ts (some h) ≡ some r
      → fold_head H us (some k) ≡ some r
      → (SameBytes h k × AllSame ts us) ⊎ Collision H (hashed h ts) (hashed k us)
  unfolding fold_head hashed
  fold_head_inj [] [] h k r dh dk dt du l eh ek = inl (ap from_hex (some-eq (eh ∙ sym ek)), tt)
  fold_head_inj [] (u ∷ us) h k r dh dk dt du l eh ek = absurd (omega arith)
  fold_head_inj (t ∷ ts) [] h k r dh dk dt du l eh ek = absurd (omega arith)
  fold_head_inj (t ∷ ts) (u ∷ us) h k r dh dk dt du l eh ek =
      let rest =
        fold_head_inj ts us (step_text h t dh dt.0) (step_text k u dk du.0) r
          (step_text-IsDigest h t dh dt.0) (step_text-IsDigest k u dk du.0) dt.1 du.1 (omega arith)
          (rw (chain_step_lem h t dh dt.0) at eh) (rw (chain_step_lem k u dk du.0) at ek) in
      rw (hashed_lem h t ts dh dt.0, hashed_lem k u us dk du.0)
        (elim rest [
          | inl (same, tails) ↦ elim (step_text_inj h t k u dh dt.0 dk du.0 same) [
            | inl (heads, hashes) ↦ inl (heads, (hashes, tails))
            | inr c ↦ inr (inl c)
          ]
          | inr c ↦ inr (inr c)
        ])

  -- If two proofs over digests of 32 bytes are accepted with one head and the same number of
  -- subsequent hashes, then their heads before the op, their op hashes and their subsequent hashes
  -- decode to the same bytes, or at some step of the two what `verify_proof` hashes there differs and
  -- has one digest.
  pub verify_proof_binding :
      (n m : ℕ) (hash hash' prev prev' head : Text) (subs subs' : List Text)
      → IsDigest prev
      → IsDigest prev'
      → All IsDigest (hash ∷ subs)
      → All IsDigest (hash' ∷ subs')
      → length subs ≡ length subs'
      → verify_proof H (dict (proof_dict (n, hash) prev subs head)) ≡ some true
      → verify_proof H (dict (proof_dict (m, hash') prev' subs' head)) ≡ some true
      → (SameBytes prev prev' × AllSame (hash ∷ subs) (hash' ∷ subs'))
        ⊎ Collision H (hashed prev (hash ∷ subs)) (hashed prev' (hash' ∷ subs'))
  verify_proof_binding n m hash hash' prev prev' head subs subs' dp dp' d d' l a a' =
      fold_head_inj (hash ∷ subs) (hash' ∷ subs') prev prev' head dp dp' d d' (omega arith)
        ((verify_proof_iff H n hash prev head subs).0 a).3
        ((verify_proof_iff H m hash' prev' head subs').0 a').3
