-- ===== src/Engine/Errors.antt =====
-- The calls of python/nedb/engine.py that raise: what each kind of exception leaves behind.
use aof_db.Prelude.{
  ℕ, ◌≡◌, refl, ap, String, true, false, Option, none, some, List, [], ◌∷◌, ◌++◌, Option-cases,
  Bool-cases, inl, inr, leb, get_elem?, ◌≢◌, length, suc,
}
use aof_db.Index.{Values, Indexes}
use aof_db.Log.{
  Request, Codec, OpLog, Op, Appended, append, append_new, returned, replay_error, index_error,
  make_op, extend, known, last_of,
}
use aof_db.Log.Tables.{append_inv}
use aof_db.Log.Recovery.{IsValid}
use aof_db.Engine.{
  Payload, Nedb, Outcome, done, replayed, lost, type_error, commit, apply_op, fresh, fold_created,
  next, next_nonce,
}
use aof_db.Engine.Mutations.{Call, perform}
use aof_db.Engine.Recovery.{IsFold, Reaches, Reaches-IsFold, perform-commit, replay-append, reopen}

-- In a well-formed log each idempotency key stands for an op, so `append` raises no IndexError.
points_at :
    {P F : Type 0} (C : Codec P F) (r : Request P F) (now : F) (l : OpLog P F) (k : Option String)
    → IsValid C l
    → (i : ℕ) → known k l.idem_seqs ≡ some i
    → (o : Op P F) × (get_elem? l.ops i ≡ some o)
points_at C r now l none v i e = cc e
points_at C r now l (some k) v i e = let (o, at, same) = v.points k i e in (o, at)

length-append_last {ℓ} :
    {A : Type ℓ} (xs : List A) (x : A) → length (xs ++ x ∷ []) ≡ suc (length xs)
length-append_last [] x = refl
length-append_last (y ∷ xs) x = ap suc (length-append_last xs x)

append-index_error :
    {P F : Type 0} (C : Codec P F) (r : Request P F) (now : F) (l : OpLog P F)
    → IsValid C l
    → append C r now l ≢ index_error
unfolding append append_new
append-index_error C r now l v e = elim (Option-cases (known r.idem l.idem_seqs)) [
  | inl new ↦ elim (Bool-cases (leb r.nonce (last_of r.client l.last_nonce))) [
    | inl stale ↦ cc (rw (append, new, append_new, stale) at e)
    | inr good ↦ cc (rw (append, new, append_new, good) at e)
  ]
  | inr (i, old) ↦
      let (o, at) = points_at C r now l r.idem v i old in cc (rw (append, old, at) at e)
]

module _ {F : Type 0} (V : Values F) (C : Codec (Payload V) F) (ix : Indexes V) where
  -- What an exception means for the database `db` that the call was made on.
  abbrev pub Raised : Nedb V → Outcome V → Type 0
  Raised db (done db') = Unit
  Raised db (replayed db') = (db'.log ≡ db.log) × (db'.state ≡ db.state)
  Raised db (lost db') = ⊥
  Raised db (type_error l) = (reopen V ix l.ops ≡ none) × (length l.ops ≡ suc (length db.log.ops))

  extend-Raised :
      (r : Request (Payload V) F) (now : F) (db : Nedb V)
      → IsFold V C ix db
      → apply_op V (make_op C r now db.log) db.state ≡ none
      → Raised db (type_error (extend C r now db.log))
  unfolding extend reopen
  extend-Raised r now db h raised = (
    rw (replay-append V db.log.ops (make_op C r now db.log) (fresh V ix) db.state h.folds, raised),
    length-append_last db.log.ops (make_op C r now db.log),
  )

  fold_created-Raised :
      (r : Request (Payload V) F) (now : F) (db : Nedb V) (a : Appended (Payload V) F)
      → IsFold V C ix db
      → append C r now db.log ≡ a
      → Raised db (fold_created V C a db)
  fold_created-Raised r now db (returned o true l) h p =
      elim (append_inv C r now db.log o true l p) [
        | inl f ↦ cc (f.not_created)
        | inr m ↦ elim (Option-cases (apply_op V o db.state)) [
          | inr (s, good) ↦ rw good tt
          | inl raised ↦ rw (raised, m.next) (extend-Raised r now db h (rw (← m.made) raised))
        ]
      ]
  fold_created-Raised r now db (returned o false l) h p = tt
  fold_created-Raised r now db replay_error h p = (refl, refl)
  fold_created-Raised r now db index_error h p = append-index_error C r now db.log h.log_valid p

  Raised-next :
      (client : String) (db : Nedb V) (out : Outcome V)
      → Raised (next V client db) out
      → Raised db out
  unfolding next
  Raised-next client db (done db') h = h
  Raised-next client db (replayed db') h = h
  Raised-next client db (lost db') h = h
  Raised-next client db (type_error l) h = h

  commit-Raised :
      (request : ℕ → Request (Payload V) F) (client : String) (nonce : Option ℕ) (now : F)
      (db : Nedb V)
      → IsFold V C ix db
      → Raised db (commit V C request client nonce now db)
  unfolding commit
  commit-Raised request client (some n) now db h =
      fold_created-Raised (request n) now db (append C (request n) now db.log) h refl
  commit-Raised request client none now db h =
      let n = next_nonce V client db in
      Raised-next client db (fold_created V C (append C (request n) now db.log) (next V client db))
        (fold_created-Raised (request n) now (next V client db) (append C (request n) now db.log)
          (unfold next in record { log_valid = h.log_valid; folds = h.folds })
          (unfold next in refl))

  pub perform-Raised_fold :
      (db : Nedb V) (c : Call V C) (expiry now : F)
      → IsFold V C ix db
      → Raised db (perform V C c expiry now db)
  perform-Raised_fold db c expiry now h =
      let (request, client, nonce, same) = perform-commit V C ix c expiry now db in
      rw same (commit-Raised request client nonce now db h)

  -- In a database that calls have built from an empty one, whatever a call of put, delete, link
  -- or unlink is given, or the op that put_file appends: it raises no IndexError; if it raises a
  -- ReplayError, the log and the documents, the graph and the indexes are as they were; if it raises
  -- a TypeError of the indexes, the log has one op more, and reopening that log raises as well. The
  -- blob store, which put_file writes before it appends its op, is not among these.
  pub perform-Raised :
      (db : Nedb V) (c : Call V C) (expiry now : F)
      → Reaches V C ix db
      → Raised db (perform V C c expiry now db)
  perform-Raised db c expiry now s = perform-Raised_fold db c expiry now (Reaches-IsFold V C ix s)
