-- ===== src/Log/Later.antt =====
-- What `append` of python/nedb/log.py promises of every later call: recovery, replay protection and
-- idempotency.
use aof_db.Prelude.{
  ℕ, ◌≡◌, ◌≤◌, refl, sym, ◌∙◌, subst, String, Bool, true, false, Option, none, some, [], ◌∷◌,
  get_elem?, get_elem?-append, get_elem?-append_last, get_elem?-lt, length, lookup, lookup-insert,
  arith, leb, Bool-cases, inl, inr, ◌==◌, string_eq, eq_iff,
}
use aof_db.Log.{
  Op, Request, OpLog, Codec, returned, replay_error, empty, last_of, known, record_idem, make_op,
  extend, append_new, append, load, verify, genesis,
}
use aof_db.Log.Chain.{verify_loop_complete}
use aof_db.Log.Tables.{append_inv}
use aof_db.Log.Recovery.{IsValid, IsValid-empty, extend-IsValid}

module _ {P F : Type 0} (C : Codec P F) where
  -- `m` comes of `l` by calls of `append` that return.
  pub data Later (l : OpLog P F) : OpLog P F → Type 0 where
    here : Later l l
    next :
        {m n : OpLog P F} (r : Request P F) (now : F) (o : Op P F) (created : Bool)
        → Later l m
        → append C r now m ≡ returned o created n
        → Later l n

  pub append-IsValid :
      (r : Request P F) (now : F) (l l' : OpLog P F) (o : Op P F) (created : Bool)
      → append C r now l ≡ returned o created l'
      → IsValid C l
      → IsValid C l'
  append-IsValid r now l l' o created e v = elim (append_inv C r now l o created l' e) [
    | inl f ↦ subst (IsValid C) (sym f.same_log) v
    | inr m ↦ subst (IsValid C) (sym m.next) (extend-IsValid C r now l m.is_new m.fresh v)
  ]

  Later-IsValid : {l m : OpLog P F} → IsValid C l → Later l m → IsValid C m
  Later-IsValid v here = v
  Later-IsValid v (next {m} {n} r now o created s e) =
      append-IsValid r now m n o created e (Later-IsValid v s)

  -- Every log that calls of `append` build from the empty one verifies, and loading its ops alone
  -- gives back the whole log: nonce table, idempotency table and head.
  pub load-Later : (m : OpLog P F) → Later empty m → (verify C m ≡ true) × (load m.ops ≡ m)
  unfolding verify
  load-Later m s =
      let v = Later-IsValid (IsValid-empty C) s in
      (verify_loop_complete C genesis m.ops v.chained, v.loaded)

  nonce_append :
      (r : Request P F) (now : F) (l l' : OpLog P F) (o : Op P F) (created : Bool) (c : String)
      → append C r now l ≡ returned o created l'
      → last_of c l.last_nonce ≤ last_of c l'.last_nonce
  nonce_append r now l l' o created c e = elim (append_inv C r now l o created l' e) [
    | inl f ↦ rw f.same_log (omega arith)
    | inr m ↦
        rw m.next (unfold extend in rw lookup-insert (ground (arith, m.fresh, eq_iff r.client c)))
  ]

  nonce_mono :
      {l m : OpLog P F} (c : String) → Later l m → last_of c l.last_nonce ≤ last_of c m.last_nonce
  nonce_mono c here = omega arith
  nonce_mono c (next {m} {n} r now o created s e) =
      omega (arith, nonce_mono c s, nonce_append r now m n o created c e)

  made_nonce :
      (r : Request P F) (now : F) (l l' : OpLog P F) (o : Op P F)
      → append C r now l ≡ returned o true l'
      → last_of r.client l'.last_nonce ≡ r.nonce
  made_nonce r now l l' o e = elim (append_inv C r now l o true l' e) [
    | inl f ↦ cc (f.not_created)
    | inr m ↦
        rw m.next (unfold extend in rw lookup-insert (ground (arith, eq_iff r.client r.client)))
  ]

  -- Replay protection: once a request has made an op, every later call for the same client with a
  -- nonce that is not larger raises a replay error and changes nothing, unless its idempotency key
  -- is already known.
  pub append_replayed :
      (r q : Request P F) (now now' : F) (l l' m : OpLog P F) (o : Op P F)
      → append C r now l ≡ returned o true l'
      → Later l' m
      → q.client ≡ r.client
      → q.nonce ≤ r.nonce
      → known q.idem m.idem_seqs ≡ none
      → append C q now' m ≡ replay_error
  unfolding append
  append_replayed r q now now' l l' m o e s same old new =
      let after = made_nonce r now l l' o e in
      let stale : leb q.nonce (last_of q.client m.last_nonce) ≡ true =
        rw same (ground (arith, nonce_mono r.client s, after)) in
      rw (append, new, append_new, stale)

  known_append :
      (r : Request P F) (now : F) (l l' : OpLog P F) (o p : Op P F) (created : Bool) (k : String)
      (i : ℕ)
      → append C r now l ≡ returned o created l'
      → lookup k l.idem_seqs ≡ some i
      → get_elem? l.ops i ≡ some p
      → (lookup k l'.idem_seqs ≡ some i) × (get_elem? l'.ops i ≡ some p)
  known_append r now l l' o p created k i e known_k found =
      elim (append_inv C r now l o created l' e) [
        | inl f ↦ (rw f.same_log known_k, rw f.same_log found)
        | inr m ↦ (
          rw m.next (unfold extend in still_known r.idem refl m.is_new),
          rw m.next (
              unfold extend in
              get_elem?-append l.ops i (make_op C r now l ∷ []) (get_elem?-lt l.ops i p found)
              ∙ found),
        )
      ]
    where
      still_known :
          (key : Option String)
          → r.idem ≡ key
          → known key l.idem_seqs ≡ none
          → lookup k (record_idem r.idem (length l.ops) l.idem_seqs) ≡ some i
      still_known none given new = rw given known_k
      still_known (some j) given new = elim (Bool-cases (j == k)) [
        | inl same ↦ let j_eq : j ≡ k = (eq_iff j k).0 same in cc (rw j_eq at new, known_k)
        | inr other ↦ rw (given, lookup-insert, other) known_k
      ]

  known_Later :
      {l m : OpLog P F} (k : String) (i : ℕ) (p : Op P F)
      → Later l m
      → lookup k l.idem_seqs ≡ some i
      → get_elem? l.ops i ≡ some p
      → (lookup k m.idem_seqs ≡ some i) × (get_elem? m.ops i ≡ some p)
  known_Later k i p here a b = (a, b)
  known_Later k i p (next {m} {n} r now o created s e) a b =
      let (a', b') = known_Later k i p s a b in known_append r now m n o p created k i e a' b'

  known_after :
      (r : Request P F) (now : F) (l l' : OpLog P F) (o : Op P F) (created : Bool) (k : String)
      → r.idem ≡ some k
      → append C r now l ≡ returned o created l'
      → (i : ℕ) × (lookup k l'.idem_seqs ≡ some i) × (get_elem? l'.ops i ≡ some o)
  known_after r now l l' o created k given e = elim (append_inv C r now l o created l' e) [
    | inl f ↦ (f.seq, rw f.same_log (rw given at f.is_known), rw f.same_log f.at_seq)
    | inr m ↦ (
      length l.ops,
      rw m.next (unfold extend in rw (given, lookup-insert, (eq_iff k k).1 refl)),
      rw (m.next, m.made) (unfold extend in get_elem?-append_last l.ops (make_op C r now l)),
    )
  ]

  -- Idempotency: once a request with a key has returned an op, every later request with that key,
  -- whatever else it holds, returns that same op, creates none and leaves the log as it is.
  pub append_idempotent :
      (r q : Request P F) (now now' : F) (l l' m : OpLog P F) (o : Op P F) (created : Bool)
      (k : String)
      → r.idem ≡ some k
      → q.idem ≡ some k
      → append C r now l ≡ returned o created l'
      → Later l' m
      → append C q now' m ≡ returned o false m
  unfolding append
  append_idempotent r q now now' l l' m o created k given asked e s =
      let (i, known_k, found) = known_after r now l l' o created k given e in
      let (known_m, found_m) = known_Later k i o s known_k found in
      rw (append, asked, known_m, found_m)
