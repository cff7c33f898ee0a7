-- ===== src/Sequencer/Snapshot.antt =====
-- What a reader of the sequencer of python/nedb/concurrent.py sees while the committer works.
use aof_db.Prelude.{
  ℕ, zero, suc, ◌≡◌, refl, ap, sym, ◌∙◌, subst, String, true, false, Option, none, some, List, [],
  ◌∷◌, ◌++◌, length, take, append_assoc, append-nil, contains, Option-cases, inl, inr, some-eq,
  string_eq, lookup_list, lookup, arith,
}
use aof_db.Prelude.Int.{ℤ, negsuc}
use aof_db.Store as Store
use aof_db.Relations.{neighbors}
use aof_db.Relations as Graph
use aof_db.Index.{Values, Indexes}
use aof_db.Log.{
  Op, Codec, Request, Appended, append, returned, replay_error, index_error, extend, slice_until,
}
use aof_db.Log.Slice.{slice_until_lem}
use aof_db.Log.Tables.{append_inv}
use aof_db.Engine.{
  Payload, State, Nedb, Outcome, done, commit, fold_created, apply_op, next, next_nonce, replay,
  fresh,
}
use aof_db.Engine.Mutations.{Call, perform, key_of}
use aof_db.Engine.Recovery.{IsFold, Reaches, Reaches-IsFold, perform-commit, perform-IsFold}
use aof_db.Engine.Errors.{Raised, perform-Raised_fold}
use aof_db.Engine.AsOf.{reads_as_of-IsFold}
use aof_db.Sequencer.{
  Sequencer, Answer, Step, submit, close, take as take_step, finish, apply, skip, publish, Runs,
  at_start, then_step, Applied, returns, replays, loses, started, take_batch, seq_of, seq_of_length,
  get, neighbors_of, doc_at, neighbors_at,
}

take-append {ℓ} : {A : Type ℓ} (xs ys : List A) → take (length xs) (xs ++ ys) ≡ xs
take-append [] ys = refl
take-append (x ∷ xs) ys = ap (λ t. x ∷ t) (take-append xs ys)

is_nil {ℓ} : {A : Type ℓ} (xs : List A) → length xs ≡ 0 → xs ≡ []
is_nil [] e = refl
is_nil (x ∷ xs) e = absurd (omega (arith, e))

module _ {F : Type 0} (V : Values F) (C : Codec (Payload V) F) (ix : Indexes V) where
  -- The log of one database goes on from that of the other.
  abbrev pub Follows : Nedb V → Nedb V → Type 0
  Follows db db' = (later : List (Op (Payload V) F)) × (db'.log.ops ≡ db.log.ops ++ later)

  same-Follows : (db db' : Nedb V) → db'.log.ops ≡ db.log.ops → Follows db db'
  same-Follows db db' e = ([], e ∙ sym (append-nil db.log.ops))

  trans-Follows : (a b c : Nedb V) → Follows a b → Follows b c → Follows a c
  trans-Follows a b c (xs, e) (ys, f) =
      (xs ++ ys, f ∙ ap (λ t. t ++ ys) e ∙ append_assoc a.log.ops xs ys)

  fold_created-Follows :
      (r : Request (Payload V) F) (now : F) (db db' : Nedb V) (a : Appended (Payload V) F)
      → append C r now db.log ≡ a
      → fold_created V C a db ≡ done db'
      → Follows db db'
  unfolding extend
  fold_created-Follows r now db db' (returned o true l) p e =
      elim (append_inv C r now db.log o true l p) [
        | inl f ↦ cc (f.not_created)
        | inr m ↦ elim (Option-cases (apply_op V o db.state)) [
          | inl raised ↦ cc (rw raised at e)
          | inr (s, good) ↦
              let same : record db { log = l; state = s } ≡ db' = cc (rw good at e) in
              (_, sym (ap (λ d. d.log.ops) same) ∙ ap (λ x. x.ops) m.next)
        ]
      ]
  fold_created-Follows r now db db' (returned o false l) p e =
      elim (append_inv C r now db.log o false l p) [
        | inr m ↦ cc (m.is_created)
        | inl f ↦
            let same : record db { log = l } ≡ db' = cc e in
            same-Follows db db' (sym (ap (λ d. d.log.ops) same) ∙ ap (λ x. x.ops) f.same_log)
      ]
  fold_created-Follows r now db db' replay_error p e = cc e
  fold_created-Follows r now db db' index_error p e = cc e

  commit-Follows :
      (request : ℕ → Request (Payload V) F) (client : String) (nonce : Option ℕ) (now : F)
      (db db' : Nedb V)
      → commit V C request client nonce now db ≡ done db'
      → Follows db db'
  unfolding commit next
  commit-Follows request client (some n) now db db' e =
      fold_created-Follows (request n) now db db' (append C (request n) now db.log) refl e
  commit-Follows request client none now db db' e =
      fold_created-Follows (request (next_nonce V client db)) now (next V client db) db'
        (append C (request (next_nonce V client db)) now db.log) refl e

  perform-Follows :
      (c : Call V C) (expiry now : F) (db db' : Nedb V)
      → perform V C c expiry now db ≡ done db'
      → Follows db db'
  perform-Follows c expiry now db db' e =
      let (request, client, nonce, same) = perform-commit V C ix c expiry now db in
      commit-Follows request client nonce now db db' (sym same ∙ e)

  -- What an intent leaves is well formed again, and its log goes on.
  Applied-kept :
      (db db' : Nedb V) (out : Outcome V) (reply : Answer V C)
      → ((d : Nedb V) → out ≡ done d → IsFold V C ix d × Follows db d)
      → IsFold V C ix db
      → Raised V C ix db out
      → Applied V C out db' reply
      → IsFold V C ix db' × Follows db db'
  Applied-kept db db' _ _ good h r returns = good db' refl
  Applied-kept db db' _ _ good h r replays = (
    record { log_valid = rw (r.0) h.log_valid; folds = rw (r.0, r.1) h.folds },
    same-Follows db db' (ap (λ l. l.ops) r.0),
  )
  Applied-kept db db' _ _ good h r loses = absurd r

  -- The database whose head the readers see: the log of the committer's goes on from its log, and
  -- the committed seq is its seq.
  pub record Published (s : Sequencer V C) (shown : Nedb V) : Type 0 where
    pub working : IsFold V C ix s.db
    pub fold : IsFold V C ix shown
    pub goes_on : Follows shown s.db
    pub at : s.committed_seq ≡ seq_of V C shown

  Published-started :
      (db : Nedb V) (max_batch : ℕ) → IsFold V C ix db → Published (started V C db max_batch) db
  unfolding started
  Published-started db max_batch h = record {
    working = h;
    fold = h;
    goes_on = same-Follows db db refl;
    at = refl;
  }

  Published-step :
      (s t : Sequencer V C) (shown : Nedb V)
      → Published s shown
      → Step V C s t
      → (shown' : Nedb V) × Published t shown'
  Published-step s _ shown p (submit c expiry now open_still) =
      (shown, record { working = p.working; fold = p.fold; goes_on = p.goes_on; at = p.at })
  Published-step s _ shown p (close open_still) =
      (shown, record { working = p.working; fold = p.fold; goes_on = p.goes_on; at = p.at })
  Published-step s _ shown p (take_step first rest idle real at) = (
    shown,
    unfold take_batch in
        record { working = p.working; fold = p.fold; goes_on = p.goes_on; at = p.at },
  )
  Published-step s _ shown p (finish rest idle at) =
      (shown, record { working = p.working; fold = p.fold; goes_on = p.goes_on; at = p.at })
  Published-step s _ shown p (apply c expiry now rest db reply at done_it) =
      let (h, follows) =
        Applied-kept s.db db (perform V C c expiry now s.db) reply
          (λ d e. (
            perform-IsFold V C ix c expiry now s.db d p.working e,
            perform-Follows c expiry now s.db d e,
          ))
          p.working (perform-Raised_fold V C ix s.db c expiry now p.working) done_it in
      (
        shown,
        record {
          working = h;
          fold = p.fold;
          goes_on = trans-Follows shown s.db db p.goes_on follows;
          at = p.at;
        },
      )
  Published-step s _ shown p (skip rest at) =
      (shown, record { working = p.working; fold = p.fold; goes_on = p.goes_on; at = p.at })
  Published-step s _ shown p (publish saw_stop busy at) = (
    s.db,
    record {
      working = p.working;
      fold = p.working;
      goes_on = same-Follows s.db s.db refl;
      at = refl;
    },
  )

  Published-Runs :
      (db : Nedb V) (max_batch : ℕ) (s : Sequencer V C)
      → IsFold V C ix db
      → Runs V C (started V C db max_batch) s
      → (shown : Nedb V) × Published s shown
  Published-Runs db max_batch _ h at_start = (db, Published-started db max_batch h)
  Published-Runs db max_batch s h (then_step {t} run step) =
      let (shown, p) = Published-Runs db max_batch t h run in Published-step t s shown p step

  -- The reads as of the seq of a database whose log goes on are the reads at its head.
  record Same (c : ℤ) (s t : State V) : Type 0 where
    docs : (key : String) → doc_at V C key c s ≡ Store.get key none t.store
    edges :
        (frm rel to : String)
        → contains (neighbors_at V C frm rel c s) to
          ≡ contains (neighbors frm rel none t.relations) to

  Same-fresh : (s : State V) → Same (negsuc 0) s (fresh V ix)
  unfolding Store.get neighbors Graph.live lookup_list lookup contains
  Same-fresh s = record { docs = λ key. refl; edges = λ frm rel to. refl }

  pinned :
      (db shown : Nedb V) (n : ℕ)
      → IsFold V C ix db
      → IsFold V C ix shown
      → Follows shown db
      → length shown.log.ops ≡ n
      → Same (seq_of_length V C n) db.state shown.state
  unfolding replay
  pinned db shown zero h k f e =
      let none_yet = is_nil shown.log.ops e in
      let same : fresh V ix ≡ shown.state =
        some-eq (sym (ap (λ l. replay V l (some (fresh V ix))) none_yet) ∙ k.folds) in
      subst (Same (negsuc 0) db.state) same (Same-fresh db.state)
  pinned db shown (suc n) h k (later, f) e =
      let (past, folded, agree) = reads_as_of-IsFold V C ix db n h in
      let sliced = (slice_until_lem C db.log n h.log_valid).0 in
      let ops : slice_until n db.log.ops ≡ shown.log.ops =
        sliced
        ∙ ap (take (suc n)) f
        ∙ ap (λ m. take m (shown.log.ops ++ later)) (sym e)
        ∙ take-append shown.log.ops later in
      let same : past ≡ shown.state =
        some-eq (sym folded ∙ ap (λ l. replay V l (some (fresh V ix))) ops ∙ k.folds) in
      record {
        docs = λ key. agree.docs key ∙ ap (λ s. Store.get key none s.store) same;
        edges = λ frm rel to.
            agree.edges frm rel to
            ∙ ap (λ s. contains (neighbors frm rel none s.relations) to) same;
      }

  reads-Published :
      (s : Sequencer V C) (shown : Nedb V)
      → Published s shown
      → Same s.committed_seq s.db.state shown.state
  unfolding seq_of
  reads-Published s shown p =
      subst (λ c. Same c s.db.state shown.state) (sym p.at)
        (pinned s.db shown (length shown.log.ops) p.working p.fold p.goes_on refl)

  -- Snapshot isolation: whatever steps the writers and the committer of a sequencer take over a
  -- database that calls have built, also in the middle of a batch, there is one well-formed
  -- database whose log is a prefix of the log in work and whose seq is the committed one, such that
  -- each `get` and each edge of `neighbors` is the read at its head.
  pub reads-Runs :
      (db : Nedb V) (max_batch : ℕ) (s : Sequencer V C)
      → Reaches V C ix db
      → Runs V C (started V C db max_batch) s
      → (shown : Nedb V) × Published s shown
        × ((coll id : String)
            → get V C coll id none s ≡ Store.get (key_of coll id) none shown.state.store)
        × ((frm rel to : String)
            → contains (neighbors_of V C frm rel none s) to
              ≡ contains (neighbors frm rel none shown.state.relations) to)
  unfolding get neighbors_of
  reads-Runs db max_batch s reached run =
      let (shown, p) = Published-Runs db max_batch s (Reaches-IsFold V C ix reached) run in
      let same = reads-Published s shown p in
      (shown, p, (λ coll id. same.docs (key_of coll id)), same.edges)
