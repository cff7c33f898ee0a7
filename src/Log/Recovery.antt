-- ===== src/Log/Recovery.antt =====
-- The well-formedness of the log of python/nedb/log.py, and its recovery from the ops alone.
use aof_db.Prelude.{
  ℕ, ◌≡◌, ◌<◌, refl, sym, ap, ◌∙◌, String, Option, none, some, [], ◌∷◌, ◌++◌, Dict, get_elem?,
  get_elem?-append, get_elem?-append_last, get_elem?-append_inv, get_elem?-lt, get_last?,
  get_last?-append, length, lookup, insert, lookup-insert, has_key, arith, Bool-cases, inl, inr,
  some-eq, ◌==◌, string_eq, eq_iff,
}
use aof_db.Log.{
  Op, Request, OpLog, Codec, empty, genesis, last_of, known, record_idem, make_op, extend,
  load_nonce, load_idem, load_idem_key, load_nonces, load_idems, head_of, load, chain_hash,
}
use aof_db.Log.Chain.{
  load_nonces-append, load_idems-append, end_of, end_of-append, Chained, Chained-append,
}

module _ {P F : Type 0} (C : Codec P F) where
  -- The whole log is what `load` makes of its ops; the ops form a chain, each at the place that its
  -- seq says; and each idempotency key stands for an op that carries it.
  pub record IsValid (l : OpLog P F) : Type 0 where
    pub loaded : load l.ops ≡ l
    pub chained : Chained C genesis l.ops
    pub head_end : l.head ≡ end_of genesis l.ops
    pub numbered : (i : ℕ) (o : Op P F) → get_elem? l.ops i ≡ some o → o.seq ≡ i
    pub points :
        (k : String) (i : ℕ)
        → lookup k l.idem_seqs ≡ some i
        → (o : Op P F) × (get_elem? l.ops i ≡ some o) × (o.idem ≡ some k)

  pub IsValid-empty : IsValid empty
  unfolding load lookup end_of
  IsValid-empty = record {
    loaded = refl;
    chained = tt;
    head_end = refl;
    numbered = λ i o e. cc;
    points = λ k i e. cc;
  }

module _ {P F : Type 0} (o : Op P F) (m : Dict String ℕ) where
  load_nonce_fresh : last_of o.client m < o.nonce → load_nonce o m ≡ insert o.client o.nonce m
  unfolding load_nonce
  load_nonce_fresh h = ground arith

  load_idem_new : known o.idem m ≡ none → load_idem o m ≡ record_idem o.idem o.seq m
  unfolding load_idem
  load_idem_new h = load_key o.idem h
    where
      load_key :
          (k : Option String) → known k m ≡ none → load_idem_key k o.seq m ≡ record_idem k o.seq m
      load_key none h = refl
      load_key (some k) h = unfold has_key in rw (h, has_key)

module _ {P F : Type 0} (C : Codec P F) (r : Request P F) (now : F) (l : OpLog P F) where
  extend-loaded :
      known r.idem l.idem_seqs ≡ none
      → last_of r.client l.last_nonce < r.nonce
      → load l.ops ≡ l
      → load (extend C r now l).ops ≡ extend C r now l
  unfolding load extend
  extend-loaded new fresh h =
      let o = make_op C r now l in
      let nonces : load_nonces l.ops [] ≡ l.last_nonce = ap (λ (t : OpLog P F). t.last_nonce) h in
      let idems : load_idems l.ops [] ≡ l.idem_seqs = ap (λ (t : OpLog P F). t.idem_seqs) h in
      let pn : load_nonces (l.ops ++ o ∷ []) [] ≡ insert r.client r.nonce l.last_nonce =
        load_nonces-append l.ops o []
        ∙ (ap (load_nonce o) nonces ∙ load_nonce_fresh o l.last_nonce fresh) in
      let pi : load_idems (l.ops ++ o ∷ []) [] ≡ record_idem r.idem (length l.ops) l.idem_seqs =
        load_idems-append l.ops o [] ∙ (ap (load_idem o) idems ∙ load_idem_new o l.idem_seqs new) in
      let ph : head_of (get_last? (l.ops ++ o ∷ [])) ≡ o.hash =
        ap head_of (get_last?-append l.ops o) in
      λ i. record { ops = l.ops ++ o ∷ []; last_nonce = pn i; idem_seqs = pi i; head = ph i }

  extend-points :
      IsValid C l
      → (k : String) (i : ℕ) → lookup k (record_idem r.idem (length l.ops) l.idem_seqs) ≡ some i
      → (o : Op P F) × (get_elem? (l.ops ++ make_op C r now l ∷ []) i ≡ some o) × (o.idem ≡ some k)
  unfolding make_op
  extend-points v k i e = points_in r.idem refl e
    where
      old_point :
          lookup k l.idem_seqs ≡ some i
          → (o : Op P F) × (get_elem? (l.ops ++ make_op C r now l ∷ []) i ≡ some o)
            × (o.idem ≡ some k)
      old_point e =
          let (o, found, carries) = v.points k i e in
          (
            o,
            get_elem?-append l.ops i (make_op C r now l ∷ []) (get_elem?-lt l.ops i o found)
                ∙ found,
            carries,
          )

      points_in :
          (key : Option String)
          → r.idem ≡ key
          → lookup k (record_idem key (length l.ops) l.idem_seqs) ≡ some i
          → (o : Op P F) × (get_elem? (l.ops ++ make_op C r now l ∷ []) i ≡ some o)
            × (o.idem ≡ some k)
      points_in none none_given e = old_point e
      points_in (some key) given e = elim (Bool-cases (key == k)) [
        | inl same ↦
            let place : length l.ops ≡ i = some-eq (rw (lookup-insert, same) at e) in
            let key_eq : key ≡ k = (eq_iff key k).0 same in
            (
              make_op C r now l,
              rw (← place) (get_elem?-append_last l.ops (make_op C r now l)),
              given ∙ ap some key_eq,
            )
        | inr other ↦ old_point (rw (lookup-insert, other) at e)
      ]

  -- The log after an append that made a new op is well formed again.
  pub extend-IsValid :
      known r.idem l.idem_seqs ≡ none
      → last_of r.client l.last_nonce < r.nonce
      → IsValid C l
      → IsValid C (extend C r now l)
  extend-IsValid new fresh v = record {
    loaded = extend-loaded new fresh v.loaded;
    chained =
        unfold extend make_op in
        Chained-append C genesis l.ops (make_op C r now l) v.chained
          (v.head_end, ap (λ t. chain_hash C t (make_op C r now l).body) v.head_end);
    head_end = unfold extend in sym (end_of-append genesis l.ops (make_op C r now l));
    numbered =
        unfold extend make_op in
        λ i o e. elim (get_elem?-append_inv l.ops (make_op C r now l) i o e) [
          | inl old ↦ v.numbered i o old
          | inr (at, new) ↦ ap (λ (p : Op P F). p.seq) (sym new) ∙ sym at
        ];
    points = unfold extend in extend-points v;
  }
