-- ===== src/Log/Slice.antt =====
-- `slice_until` of python/nedb/log.py: the log as of a seq.
use aof_db.Prelude.{
  ℕ, zero, suc, ◌+◌, ◌≡◌, ◌<◌, refl, true, List, [], ◌∷◌, take, arith, get_elem?, some,
}
use aof_db.Log.{Text, Op, OpLog, Codec, slice_until, verify_loop, genesis}
use aof_db.Log.Chain.{Chained, verify_loop_complete}
use aof_db.Log.Recovery.{IsValid}

module _ {P F : Type 0} where
  abbrev pub NumberedFrom : ℕ → List (Op P F) → Type 0
  NumberedFrom k ops = (i : ℕ) (o : Op P F) → get_elem? ops i ≡ some o → o.seq ≡ k + i

  pub NumberedFrom-tail :
      (k : ℕ) (o : Op P F) (ops : List (Op P F))
      → NumberedFrom k (o ∷ ops)
      → NumberedFrom (suc k) ops
  NumberedFrom-tail k o ops h = λ i p e. omega (arith, h (suc i) p e)

  pub slice_until_none :
      (k m : ℕ) (ops : List (Op P F)) → m < k → NumberedFrom k ops → slice_until m ops ≡ []
  unfolding slice_until
  slice_until_none k m [] l h = refl
  slice_until_none k m (o ∷ ops) l h = ground (
    arith,
    h 0 o refl,
    slice_until_none (suc k) m ops (omega arith) (NumberedFrom-tail k o ops h),
  )

  slice_until-take :
      (k n m : ℕ) (ops : List (Op P F))
      → m ≡ k + n
      → NumberedFrom k ops
      → slice_until m ops ≡ take (suc n) ops
  unfolding slice_until
  slice_until-take k n m [] e h = refl
  slice_until-take k zero m (o ∷ ops) e h = ground (
    arith,
    h 0 o refl,
    slice_until_none (suc k) m ops (omega arith) (NumberedFrom-tail k o ops h),
  )
  slice_until-take k (suc n) m (o ∷ ops) e h = ground (
    arith,
    h 0 o refl,
    slice_until-take (suc k) n m ops (omega arith) (NumberedFrom-tail k o ops h),
  )

module _ {P F : Type 0} (C : Codec P F) where
  Chained-take :
      (prev : Text) (n : ℕ) (ops : List (Op P F)) → Chained C prev ops → Chained C prev (take n ops)
  Chained-take prev zero ops h = tt
  Chained-take prev (suc n) [] h = tt
  Chained-take prev (suc n) (o ∷ ops) h = (h.0, Chained-take o.hash n ops h.1)

  -- In a well-formed log the slice as of a seq is the log's first ops up to that seq, and it is
  -- itself a chain that verifies.
  pub slice_until_lem :
      (l : OpLog P F) (as_of : ℕ)
      → IsValid C l
      → (slice_until as_of l.ops ≡ take (suc as_of) l.ops)
        × (verify_loop C genesis (slice_until as_of l.ops) ≡ true)
  slice_until_lem l as_of v =
      let whole =
        slice_until-take 0 as_of as_of l.ops (omega arith)
          (λ i o e. omega (arith, v.numbered i o e)) in
      (
        whole,
        rw whole
            (verify_loop_complete C genesis _ (Chained-take genesis (suc as_of) l.ops v.chained)),
      )
