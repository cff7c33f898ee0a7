-- ===== src/Log/Tamper.antt =====
-- What the head of the log of python/nedb/log.py commits to.
use aof_db.Prelude.{
  ◌≡◌, ◌⊎◌, refl, sym, ap, ◌∙◌, true, List, [], ◌∷◌, ◌++◌, length, get_last?, arith, inl, inr,
  append_inj_left,
}
use aof_db.Hex.{Bytes}
use aof_db.Hex.RoundTrip.{hex_inj, length-hex}
use aof_db.Hash.{Collide, Collision, digest_inj}
use aof_db.Log.{Text, Body, Op, Codec, genesis, head_of, load, verify, chain_hash}
use aof_db.Log.Chain.{end_of, Chained, verify_loop_sound}

module _ {P F : Type 0} (C : Codec P F) where
  pub chain_hash_inj :
      (prev prev' : Text) (b b' : Body P F)
      → length prev ≡ length prev'
      → chain_hash C prev b ≡ chain_hash C prev' b'
      → ((prev ≡ prev') × (C.canon b ≡ C.canon b'))
        ⊎ Collide C.blake (prev ++ C.canon b) (prev' ++ C.canon b')
  unfolding chain_hash
  chain_hash_inj prev prev' b b' l e =
      let x = prev ++ C.canon b in
      let y = prev' ++ C.canon b' in
      let digests = hex_inj _ _ (C.blake.digest_IsBytes x) (C.blake.digest_IsBytes y) e in
      elim (digest_inj C.blake x y digests) [
        | inl same ↦ inl (append_inj_left prev prev' l same)
        | inr c ↦ inr c
      ]

  pub length-chain_hash : (prev : Text) (b : Body P F) → length (chain_hash C prev b) ≡ 64
  unfolding chain_hash
  length-chain_hash prev b = omega (
    arith,
    length-hex (C.blake.digest (prev ++ C.canon b)),
    C.blake.length-digest (prev ++ C.canon b),
  )

  -- The two histories have the same hashes and the same encoded bodies, op by op.
  abbrev pub SameHistory : List (Op P F) → List (Op P F) → Type 0
  SameHistory [] [] = Unit
  SameHistory (o ∷ ops) (p ∷ ps) =
      ((o.hash ≡ p.hash) × (o.prev_hash ≡ p.prev_hash) × (C.canon o.body ≡ C.canon p.body))
      × SameHistory ops ps
  SameHistory _ _ = ⊥

  -- What `verify` hashes on these ops, from a running head.
  abbrev pub hashed : Text → List (Op P F) → List Bytes
  hashed prev [] = []
  hashed prev (o ∷ ops) = (prev ++ C.canon o.body) ∷ hashed o.hash ops

  Chained-inj :
      (ops ps : List (Op P F)) (prev prev' : Text)
      → length prev ≡ length prev'
      → length ops ≡ length ps
      → Chained C prev ops
      → Chained C prev' ps
      → end_of prev ops ≡ end_of prev' ps
      → ((prev ≡ prev') × SameHistory ops ps)
        ⊎ Collision C.blake (hashed prev ops) (hashed prev' ps)
  unfolding end_of
  Chained-inj [] [] prev prev' l n h k e = inl (e, tt)
  Chained-inj [] (p ∷ ps) prev prev' l n h k e = absurd (omega arith)
  Chained-inj (o ∷ ops) [] prev prev' l n h k e = absurd (omega arith)
  Chained-inj (o ∷ ops) (p ∷ ps) prev prev' l n h k e =
      let ol = ap length h.0.1 ∙ length-chain_hash prev o.body in
      let pl = ap length k.0.1 ∙ length-chain_hash prev' p.body in
      elim (Chained-inj ops ps o.hash p.hash (ol ∙ sym pl) (omega arith) h.1 k.1 e) [
        | inr c ↦ inr (inr c)
        | inl (same, rest) ↦
            elim (chain_hash_inj prev prev' o.body p.body l (sym h.0.1 ∙ (same ∙ k.0.1))) [
              | inr c ↦ inr (inl c)
              | inl (prevs, bodies) ↦
                  inl (prevs, ((same, h.0.0 ∙ (prevs ∙ sym k.0.0), bodies), rest))
            ]
      ]

  end_of_lem :
      (prev : Text) (o : Op P F) (ops : List (Op P F))
      → end_of prev (o ∷ ops) ≡ head_of (get_last? (o ∷ ops))
  unfolding end_of
  end_of_lem prev o [] = refl
  end_of_lem prev o (p ∷ ops) = end_of_lem o.hash p ops

  head-load : (ops : List (Op P F)) → end_of genesis ops ≡ (load ops).head
  unfolding load
  head-load [] = unfold end_of in refl
  head-load (o ∷ ops) = end_of_lem genesis o ops

  -- Two logs loaded from the same number of ops, which both verify and have the same head, have the
  -- same history, op by op, or at some place of the two the texts that `verify` hashes there differ
  -- and have one digest.
  pub verify_binding :
      (ops ps : List (Op P F))
      → verify C (load ops) ≡ true
      → verify C (load ps) ≡ true
      → length ops ≡ length ps
      → (load ops).head ≡ (load ps).head
      → SameHistory ops ps ⊎ Collision C.blake (hashed genesis ops) (hashed genesis ps)
  unfolding verify load
  verify_binding ops ps v w n e =
      let h = verify_loop_sound C genesis ops v in
      let k = verify_loop_sound C genesis ps w in
      elim (Chained-inj ops ps genesis genesis refl n h k
        (head-load ops ∙ (e ∙ sym (head-load ps)))) [ inl (same, rest) ↦ inl rest | inr c ↦ inr c ]
