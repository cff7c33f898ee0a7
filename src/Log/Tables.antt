-- ===== src/Log/Tables.antt =====
-- The two ways in which `append` of python/nedb/log.py returns.
use aof_db.Prelude.{
  ℕ, ◌≡◌, ◌<◌, ◌⊎◌, sym, Bool, true, false, none, some, get_elem?, arith, leb, Bool-cases,
  Option-cases, inl, inr,
}
use aof_db.Log.{
  Op, Request, OpLog, Codec, returned, last_of, known, make_op, extend, append_new, append,
}

module _ {P F : Type 0} (C : Codec P F) (r : Request P F) (now : F) (l : OpLog P F) where
  -- The key of the request was known, and the call gives the op that it stands for.
  pub record Found (o : Op P F) (created : Bool) (l' : OpLog P F) : Type 0 where
    pub seq : ℕ
    pub is_known : known r.idem l.idem_seqs ≡ some seq
    pub at_seq : get_elem? l.ops seq ≡ some o
    pub not_created : created ≡ false
    pub same_log : l' ≡ l

  -- The op was appended.
  pub record Made (o : Op P F) (created : Bool) (l' : OpLog P F) : Type 0 where
    pub is_new : known r.idem l.idem_seqs ≡ none
    pub fresh : last_of r.client l.last_nonce < r.nonce
    pub is_created : created ≡ true
    pub made : o ≡ make_op C r now l
    pub next : l' ≡ extend C r now l

  returned_inj :
      {o o' : Op P F} {b b' : Bool} {m m' : OpLog P F}
      → returned o b m ≡ returned o' b' m'
      → (o ≡ o') × (b ≡ b') × (m ≡ m')
  returned_inj e = (cc, cc, cc)

  pub append_inv :
      (o : Op P F) (created : Bool) (l' : OpLog P F)
      → append C r now l ≡ returned o created l'
      → Found o created l' ⊎ Made o created l'
  unfolding append
  append_inv o created l' e = elim (Option-cases (known r.idem l.idem_seqs)) [
    | inr (seq, k) ↦ elim (Option-cases (get_elem? l.ops seq)) [
      | inl bad ↦ cc (rw (append, k, bad) at e)
      | inr (o', found) ↦
          let (eo, eb, el) = returned_inj (rw (append, k, found) at e) in
          inl (record {
            seq = seq;
            is_known = k;
            at_seq = rw (← eo) found;
            not_created = sym eb;
            same_log = sym el;
          })
    ]
    | inl k ↦ elim (Bool-cases (leb r.nonce (last_of r.client l.last_nonce))) [
      | inl stale ↦ cc (rw (append, k, append_new, stale) at e)
      | inr fresh ↦
          let (eo, eb, el) = returned_inj (rw (append, k, append_new, fresh) at e) in
          inr (record {
            is_new = k;
            fresh = ground arith;
            is_created = sym eb;
            made = sym eo;
            next = sym el;
          })
    ]
  ]
