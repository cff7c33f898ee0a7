-- ===== src/Engine/Recovery.antt =====
-- Crash recovery of python/nedb/engine.py: what `_load` rebuilds from the ops of a log, where no
-- snapshot is there, and that it is the database that was closed.
use aof_db.Prelude.{
  ℕ, ◌≡◌, refl, ap, sym, ◌∙◌, subst, String, true, false, Option, none, some, List, [], ◌∷◌, ◌++◌,
  Option-cases, inl, inr, some-eq,
}
use aof_db.Index.{Values, Indexes}
use aof_db.Log.{
  Request, Codec, OpLog, Op, Appended, append, returned, replay_error, index_error, load, verify,
  genesis, make_op, extend,
}
use aof_db.Log.Chain.{verify_loop_complete}
use aof_db.Log.Tables.{append_inv}
use aof_db.Log.Recovery.{IsValid, IsValid-empty}
use aof_db.Log.Later.{append-IsValid}
use aof_db.Engine.{
  Payload, Nedb, State, done, commit, replay, apply_op, fresh, opened, fold_created, next,
  next_nonce,
}
use aof_db.Engine.Mutations.{
  Call, put_call, delete_call, link_call, unlink_call, append_file_call, perform, put, delete, link,
  unlink, append_file, put_request, stored_doc, plain, key_of,
}

module _ {F : Type 0} (V : Values F) where
  abbrev reopened : Option (State V) → OpLog (Payload V) F → Option (Nedb V)
  reopened none l = none
  reopened (some s) l = some (record { log = l; state = s; nonces = l.last_nonce })

  -- `_load` on the ops of the file, with the indexes that the meta file declares.
  unfoldable pub reopen : Indexes V → List (Op (Payload V) F) → Option (Nedb V)
  unfolding load replay
  reopen ix ops = reopened (replay V ops (some (fresh V ix))) (load ops)

  pub replay-none : (ops : List (Op (Payload V) F)) → replay V ops none ≡ none
  unfolding replay
  replay-none [] = refl
  replay-none (o ∷ ops) = refl

  pub replay-append :
      (ops : List (Op (Payload V) F)) (o : Op (Payload V) F) (s t : State V)
      → replay V ops (some s) ≡ some t
      → replay V (ops ++ o ∷ []) (some s) ≡ apply_op V o t
  unfolding replay
  replay-append [] o s t e = ap (apply_op V o) (some-eq e)
  replay-append (p ∷ ops) o s t e = elim (Option-cases (apply_op V p s)) [
    | inl raised ↦ cc (rw raised at e, replay-none ops)
    | inr (u, step) ↦ rw (replay, step) (replay-append ops o u t (rw (replay, step) at e))
  ]

  -- The log is well formed, and the state is the fold of its ops from declared indexes.
  pub record IsFold (C : Codec (Payload V) F) (ix : Indexes V) (db : Nedb V) : Type 0 where
    pub log_valid : IsValid C db.log
    pub folds : replay V db.log.ops (some (fresh V ix)) ≡ some db.state

  module _ (C : Codec (Payload V) F) (ix : Indexes V) where
    IsFold-opened : IsFold C ix (opened V ix)
    IsFold-opened = record { log_valid = IsValid-empty C; folds = unfold replay in refl }

    pub extend-folds :
        (r : Request (Payload V) F) (now : F) (db : Nedb V) (s : State V)
        → IsFold C ix db
        → apply_op V (make_op C r now db.log) db.state ≡ some s
        → replay V (extend C r now db.log).ops (some (fresh V ix)) ≡ some s
    unfolding extend
    extend-folds r now db s h good =
        replay-append db.log.ops (make_op C r now db.log) (fresh V ix) db.state h.folds ∙ good

    fold_created-IsFold :
        (r : Request (Payload V) F) (now : F) (db db' : Nedb V) (a : Appended (Payload V) F)
        → IsFold C ix db
        → append C r now db.log ≡ a
        → fold_created V C a db ≡ done db'
        → IsFold C ix db'
    fold_created-IsFold r now db db' (returned o true l) h p e =
        elim (append_inv C r now db.log o true l p) [
          | inl f ↦ cc (f.not_created)
          | inr m ↦ elim (Option-cases (apply_op V o db.state)) [
            | inl raised ↦ cc (rw raised at e)
            | inr (s, good) ↦
                let same : record db { log = l; state = s } ≡ db' = cc (rw good at e) in
                subst (IsFold C ix) same (record {
                  log_valid = append-IsValid C r now db.log l o true p h.log_valid;
                  folds = rw m.next (extend-folds r now db s h (rw m.made at good));
                })
          ]
        ]
    fold_created-IsFold r now db db' (returned o false l) h p e =
        elim (append_inv C r now db.log o false l p) [
          | inr m ↦ cc (m.is_created)
          | inl f ↦
              let same : record db { log = l } ≡ db' = cc e in
              subst (IsFold C ix) same (record {
                log_valid = append-IsValid C r now db.log l o false p h.log_valid;
                folds = rw f.same_log h.folds;
              })
        ]
    fold_created-IsFold r now db db' replay_error h p e = cc e
    fold_created-IsFold r now db db' index_error h p e = cc e

    commit-IsFold :
        (request : ℕ → Request (Payload V) F) (client : String) (nonce : Option ℕ) (now : F)
        (db db' : Nedb V)
        → IsFold C ix db
        → commit V C request client nonce now db ≡ done db'
        → IsFold C ix db'
    unfolding commit
    commit-IsFold request client (some n) now db db' h e =
        fold_created-IsFold (request n) now db db' (append C (request n) now db.log) h refl e
    commit-IsFold request client none now db db' h e =
        fold_created-IsFold (request (next_nonce V client db)) now (next V client db) db'
          (append C (request (next_nonce V client db)) now db.log)
          (unfold next in record { log_valid = h.log_valid; folds = h.folds }) (unfold next in refl)
          e

    -- What comes of the opened database by calls that return.
    pub data Reaches : Nedb V → Type 0 where
      start : Reaches (opened V ix)
      call :
          {db db' : Nedb V} (c : Call V C) (expiry now : F)
          → Reaches db
          → perform V C c expiry now db ≡ done db'
          → Reaches db'

    -- Each call ends in a commit of its request.
    pub perform-commit :
        (c : Call V C) (expiry now : F) (db : Nedb V)
        → (request : ℕ → Request (Payload V) F) × (client : String) × (nonce : Option ℕ) × (perform
              V C c expiry now db
            ≡ commit V C request client nonce now db)
    unfolding perform put delete link unlink append_file
    perform-commit (put_call coll id doc o) expiry now db =
        (put_request V coll id (stored_doc V id o expiry doc) o, o.client, o.nonce, refl)
    perform-commit (delete_call coll id client nonce idem) expiry now db =
        (plain V client idem (Payload.delete (key_of coll id) coll id), client, nonce, refl)
    perform-commit (link_call frm rel to client nonce) expiry now db =
        (plain V client none (Payload.link frm rel to), client, nonce, refl)
    perform-commit (unlink_call frm rel to client nonce) expiry now db =
        (plain V client none (Payload.unlink frm rel to), client, nonce, refl)
    perform-commit (append_file_call name tier version root client nonce idem) expiry now db =
        (plain V client idem (Payload.put_file name tier version root), client, nonce, refl)

    pub perform-IsFold :
        (c : Call V C) (expiry now : F) (db db' : Nedb V)
        → IsFold C ix db
        → perform V C c expiry now db ≡ done db'
        → IsFold C ix db'
    perform-IsFold c expiry now db db' h e =
        let (request, client, nonce, same) = perform-commit c expiry now db in
        commit-IsFold request client nonce now db db' h (sym same ∙ e)

    pub Reaches-IsFold : {db : Nedb V} → Reaches db → IsFold C ix db
    Reaches-IsFold start = IsFold-opened
    Reaches-IsFold (call {db} {db'} c expiry now s e) =
        perform-IsFold c expiry now db db' (Reaches-IsFold s) e

    -- Crash recovery: a database that calls have built from an empty one with declared indexes
    -- verifies, and reopening it from its ops alone gives back its log and its whole materialized
    -- state, with each client's counter at the last nonce of the log.
    pub reopen-Reaches :
        (db : Nedb V)
        → Reaches db
        → (verify C db.log ≡ true)
          × (reopen ix db.log.ops ≡ some (record db { nonces = db.log.last_nonce }))
    unfolding verify reopen
    reopen-Reaches db s =
        let h = Reaches-IsFold s in
        (
          verify_loop_complete C genesis db.log.ops h.log_valid.chained,
          rw h.folds (ap (reopened (some db.state)) h.log_valid.loaded),
        )
