-- ===== src/Log/Chain.antt =====
-- What one more op does to the loops of `verify` and `load` of python/nedb/log.py.
use aof_db.Prelude.{ℕ, ◌≡◌, refl, true, String, Dict, List, [], ◌∷◌, ◌++◌, arith}
use aof_db.Prelude.Texts.{text_beq_iff}
use aof_db.Log.{
  Text, Op, Codec, chain_hash, verify_loop, load_nonce, load_nonces, load_idem, load_idems,
}

module _ {P F : Type 0} where
  pub load_nonces-append :
      (ops : List (Op P F)) (o : Op P F) (m : Dict String ℕ)
      → load_nonces (ops ++ o ∷ []) m ≡ load_nonce o (load_nonces ops m)
  unfolding load_nonces
  load_nonces-append [] o m = refl
  load_nonces-append (p ∷ ops) o m = load_nonces-append ops o (load_nonce p m)

  pub load_idems-append :
      (ops : List (Op P F)) (o : Op P F) (m : Dict String ℕ)
      → load_idems (ops ++ o ∷ []) m ≡ load_idem o (load_idems ops m)
  unfolding load_idems
  load_idems-append [] o m = refl
  load_idems-append (p ∷ ops) o m = load_idems-append ops o (load_idem p m)

  -- The head after the ops, from the head before them.
  unfoldable pub end_of : Text → List (Op P F) → Text
  end_of prev [] = prev
  end_of prev (o ∷ ops) = end_of o.hash ops

  pub end_of-append :
      (prev : Text) (ops : List (Op P F)) (o : Op P F) → end_of prev (ops ++ o ∷ []) ≡ o.hash
  unfolding end_of
  end_of-append prev [] o = refl
  end_of-append prev (p ∷ ops) o = end_of-append p.hash ops o

module _ {P F : Type 0} (C : Codec P F) where
  -- The op names the head before it, and its hash is that of the head and the body.
  abbrev pub Links : Text → Op P F → Type 0
  Links prev o = (o.prev_hash ≡ prev) × (o.hash ≡ chain_hash C prev o.body)

  -- `verify` by recursion, as a statement.
  abbrev pub Chained : Text → List (Op P F) → Type 0
  Chained prev [] = Unit
  Chained prev (o ∷ ops) = Links prev o × Chained o.hash ops

  pub verify_loop_sound :
      (prev : Text) (ops : List (Op P F)) → verify_loop C prev ops ≡ true → Chained prev ops
  unfolding verify_loop
  verify_loop_sound prev [] h = tt
  verify_loop_sound prev (o ∷ ops) h = ground (
    arith,
    text_beq_iff o.prev_hash prev,
    text_beq_iff o.hash (chain_hash C prev o.body),
    verify_loop_sound o.hash ops,
  )

  pub verify_loop_complete :
      (prev : Text) (ops : List (Op P F)) → Chained prev ops → verify_loop C prev ops ≡ true
  unfolding verify_loop
  verify_loop_complete prev [] h = refl
  verify_loop_complete prev (o ∷ ops) h = rw (
    (text_beq_iff o.prev_hash prev).1 h.0.0,
    (text_beq_iff o.hash (chain_hash C prev o.body)).1 h.0.1,
    verify_loop_complete o.hash ops h.1,
  )

  pub Chained-append :
      (prev : Text) (ops : List (Op P F)) (o : Op P F)
      → Chained prev ops
      → Links (end_of prev ops) o
      → Chained prev (ops ++ o ∷ [])
  unfolding end_of
  Chained-append prev [] o h k = (k, tt)
  Chained-append prev (p ∷ ops) o h k = (h.0, Chained-append p.hash ops o h.1 k)
