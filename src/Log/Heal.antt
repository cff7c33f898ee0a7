-- ===== src/Log/Heal.antt =====
-- `NEDB._self_heal_if_needed` of python/nedb/engine.py, as it acts on the log: the repair of a chain
-- whose links are broken while each op's content is intact.
use aof_db.Prelude.{
  ◌≡◌, ◌⊎◌, refl, sym, ap, Bool, true, false, not, none, List, [], ◌∷◌, ◌++◌, if◌then◌else◌, ◌&&◌,
  Bool-cases, inl, inr, map, ◌∙◌,
}
use aof_db.Prelude.Texts.{text_beq}
use aof_db.Hex.{Bytes}
use aof_db.Hash.{Collision}
use aof_db.Log.{Text, Body, Op, OpLog, Codec, genesis, verify, chain_hash}
use aof_db.Log.Chain.{Chained, end_of, verify_loop_sound, verify_loop_complete}
use aof_db.Log.Tamper.{chain_hash_inj, hashed}

module _ {P F : Type 0} where
  -- The positional `Op(o.seq, …, o.idem, prev, h)`: the fields after `hash` take their default, None.
  abbrev pub strip : Body P F → Body P F
  strip b = record b {
    caused_by = none;
    evidence = none;
    confidence = none;
    valid_from = none;
    valid_to = none;
  }

module _ {P F : Type 0} (C : Codec P F) where
  -- `all(o.hash == blake(o.prev_hash.encode() + canon(body)))`
  unfoldable pub internally_valid : List (Op P F) → Bool
  internally_valid [] = true
  internally_valid (o ∷ ops) =
      text_beq o.hash (chain_hash C o.prev_hash o.body) && internally_valid ops

  -- The loop that makes `healed`, with the `prev` that it ends with.
  unfoldable pub relink : Text → List (Op P F) → List (Op P F)
  relink prev [] = []
  relink prev (o ∷ ops) =
      let h = chain_hash C prev o.body in
      record { body = strip o.body; prev_hash = prev; hash = h } ∷ relink h ops

  unfoldable pub relink_head : Text → List (Op P F) → Text
  relink_head prev [] = prev
  relink_head prev (o ∷ ops) = relink_head (chain_hash C prev o.body) ops

  unfoldable pub self_heal : OpLog P F → OpLog P F
  unfolding internally_valid relink relink_head
  self_heal l =
      if verify C l
      then l
      else if not (internally_valid l.ops)
      then l
      else record l { ops = relink genesis l.ops; head = relink_head genesis l.ops }

  -- The body of each op is encoded as it would be without its provenance and valid-time fields.
  abbrev pub IsPlain : List (Op P F) → Type 0
  IsPlain [] = Unit
  IsPlain (o ∷ ops) = (C.canon (strip o.body) ≡ C.canon o.body) × IsPlain ops

  -- What the loop that makes `healed` hashes.
  abbrev pub relinked : Text → List (Op P F) → List Bytes
  relinked prev [] = []
  relinked prev (o ∷ ops) = (prev ++ C.canon o.body) ∷ relinked (chain_hash C prev o.body) ops

  relink-Chained :
      (prev : Text) (ops : List (Op P F)) → IsPlain ops → Chained C prev (relink prev ops)
  unfolding relink chain_hash
  relink-Chained prev [] p = tt
  relink-Chained prev (o ∷ ops) p =
      ((refl, rw p.0), relink-Chained (chain_hash C prev o.body) ops p.1)

  relink_inv :
      (prev : Text) (ops : List (Op P F))
      → Chained C prev (relink prev ops)
      → IsPlain ops ⊎ Collision C.blake (relinked prev ops) (hashed C prev (relink prev ops))
  unfolding relink chain_hash
  relink_inv prev [] h = inl tt
  relink_inv prev (o ∷ ops) h = elim (chain_hash_inj C prev prev o.body (strip o.body) refl h.0.1) [
    | inr c ↦ inr (inl c)
    | inl (same, bodies) ↦ elim (relink_inv (chain_hash C prev o.body) ops h.1) [
      | inr c ↦ inr (inr c)
      | inl rest ↦ inl (sym bodies, rest)
    ]
  ]

  relink_head_lem :
      (prev : Text) (ops : List (Op P F)) → relink_head prev ops ≡ end_of prev (relink prev ops)
  unfolding relink relink_head end_of
  relink_head_lem prev [] = refl
  relink_head_lem prev (o ∷ ops) = relink_head_lem (chain_hash C prev o.body) ops

  healed_lem :
      (l : OpLog P F)
      → verify C l ≡ false
      → internally_valid l.ops ≡ true
      → self_heal l ≡ record l { ops = relink genesis l.ops; head = relink_head genesis l.ops }
  unfolding self_heal
  healed_lem l broken intact = rw (broken, intact)

  abbrev pub bodies : List (Op P F) → List (Body P F)
  bodies ops = map (λ o. o.body) ops

  bodies-relink :
      (prev : Text) (ops : List (Op P F)) → bodies (relink prev ops) ≡ map strip (bodies ops)
  unfolding relink
  bodies-relink prev [] = refl
  bodies-relink prev (o ∷ ops) =
      ap (λ bs. strip o.body ∷ bs) (bodies-relink (chain_hash C prev o.body) ops)

  plain_bodies :
      (ops : List (Op P F))
      → IsPlain ops
      → map C.canon (map strip (bodies ops)) ≡ map C.canon (bodies ops)
  plain_bodies [] p = refl
  plain_bodies (o ∷ ops) p = rw (p.0, plain_bodies ops p.1) refl

  -- Take a log that does not verify, whose ops are each internally consistent and of which the
  -- encoding of no op's body has anything of its provenance and valid-time fields in it. After the
  -- healing it verifies, its head is at the end of the chain, and it has the same ops in the same
  -- order: their bodies are the old ones without these fields, and are encoded as the old ones were.
  -- The nonce table and the idempotency table are as they were.
  pub self_heal_repairs :
      (l : OpLog P F)
      → verify C l ≡ false
      → internally_valid l.ops ≡ true
      → IsPlain l.ops
      → (verify C (self_heal l) ≡ true)
        × ((self_heal l).head ≡ end_of genesis (self_heal l).ops)
        × (bodies (self_heal l).ops ≡ map strip (bodies l.ops))
        × (map C.canon (bodies (self_heal l).ops) ≡ map C.canon (bodies l.ops))
        × ((self_heal l).last_nonce ≡ l.last_nonce)
        × ((self_heal l).idem_seqs ≡ l.idem_seqs)
  self_heal_repairs l broken intact p = rw (healed_lem l broken intact) (
    unfold verify in verify_loop_complete C genesis _ (relink-Chained genesis l.ops p),
    relink_head_lem genesis l.ops,
    bodies-relink genesis l.ops,
    ap (map C.canon) (bodies-relink genesis l.ops) ∙ plain_bodies l.ops p,
    refl,
    refl,
  )

  kept_lem :
      (l : OpLog P F) → (verify C l ≡ true) ⊎ (internally_valid l.ops ≡ false) → self_heal l ≡ l
  unfolding self_heal
  kept_lem l (inl good) = rw good
  kept_lem l (inr altered) = elim (Bool-cases (verify C l)) [
    | inl good ↦ rw good
    | inr broken ↦ rw (broken, altered)
  ]

  -- Healing never touches a log that verifies, nor one in which some op's hash does not fit the op's
  -- own content: what was altered stays visible to `verify`.
  pub self_heal_keeps :
      (l : OpLog P F)
      → (verify C l ≡ true) ⊎ (internally_valid l.ops ≡ false)
      → (self_heal l ≡ l) × (verify C (self_heal l) ≡ verify C l)
  self_heal_keeps l h = (kept_lem l h, ap (verify C) (kept_lem l h))

  -- If a healed log verifies, the encoding of no op's body had anything of its provenance and
  -- valid-time fields in it, or at some place what the healing hashed and what `verify` hashes there
  -- differ and have one digest. So, short of that, the healing of a log with such fields leaves a
  -- chain that does not verify.
  pub self_heal_loses_fields :
      (l : OpLog P F)
      → verify C l ≡ false
      → internally_valid l.ops ≡ true
      → verify C (self_heal l) ≡ true
      → IsPlain l.ops
        ⊎ Collision C.blake (relinked genesis l.ops) (hashed C genesis (relink genesis l.ops))
  unfolding verify
  self_heal_loses_fields l broken intact v =
      relink_inv genesis l.ops
        (verify_loop_sound C genesis (relink genesis l.ops) (rw (healed_lem l broken intact) at v))
