-- ===== src/Snapshot/Opening.antt =====
-- The open of a database with a snapshot of python/nedb/snapshot.py, against the fold of its whole log.
use aof_db.Prelude.{
  ℕ, zero, suc, ◌+◌, ◌≡◌, refl, ap, sym, subst, ◌∙◌, true, Option, some, List, [], ◌∷◌, ◌++◌, All,
  length, Option-cases, inl, inr, some-eq, arith, sees, ltb, false, string_eq,
}
use aof_db.Store as Store
use aof_db.Store.Invariant as Stored
use aof_db.Relations as Graph
use aof_db.Relations.History as History
use aof_db.Index.{Values, Indexes}
use aof_db.Log.{Op}
use aof_db.Log.Slice.{NumberedFrom, NumberedFrom-tail}
use aof_db.Engine.{Payload, State, apply_op, replay, fresh}
use aof_db.Engine.Recovery.{replay-none}
use aof_db.Engine.TimeTravel.{store_mono, graph_mono}
use aof_db.Engine.AsOf.{Agree, IsValid, IsValid-fresh, apply_op-steps, OpSteps-IsValid}
use aof_db.Snapshot.{
  Snapshot, save_store, save_relations, save_snapshot, load_snapshot, replay_after, load_store,
  load_relations,
}
use aof_db.Snapshot.Documents.{save_store_total, load_store-IsValid, get-load_store}
use aof_db.Snapshot.Edges.{load_relations-IsValid, neighbors-load_relations}
use aof_db.Snapshot.Kept.{IsKept, IsPlainPayload, replay-IsKept, IsKept-fresh}
use aof_db.Snapshot.Resume.{replay-Agree, replay_after-past, replay_after-later, loaded_state_inv}

module _ {F : Type 0} (V : Values F) where
  replay-IsValid :
      (ops : List (Op (Payload V) F)) (q : ℕ) (s t : State V)
      → NumberedFrom q ops
      → IsValid V q s
      → replay V ops (some s) ≡ some t
      → IsValid V (q + length ops) t
  unfolding replay
  replay-IsValid [] q s t num v e =
      let same : q ≡ q + length {A = Op (Payload V) F} [] = omega arith in
      subst (λ m. IsValid V m t) same (rw (← some-eq e) v)
  replay-IsValid (o ∷ ops) q s t num v e = elim (Option-cases (apply_op V o s)) [
    | inl raised ↦ cc (rw (replay, raised) at e, replay-none V ops)
    | inr (u, step) ↦
        let steps = apply_op-steps V o q s u (omega (arith, num 0 o refl)) v step in
        let same : suc q + length ops ≡ q + length (o ∷ ops) = omega arith in
        subst (λ m. IsValid V m t) same
          (replay-IsValid ops (suc q) u t (NumberedFrom-tail q o ops num)
            (OpSteps-IsValid V q s u steps) (rw (replay, step) at e))
  ]

  NumberedFrom-append :
      (xs ys : List (Op (Payload V) F)) (k : ℕ)
      → NumberedFrom k (xs ++ ys)
      → NumberedFrom k xs × NumberedFrom (k + length xs) ys
  NumberedFrom-append [] ys k num = ((λ i o e. cc e), λ i o e. omega (arith, num i o e))
  NumberedFrom-append (x ∷ xs) ys k num =
      let (front, back) =
        NumberedFrom-append xs ys (suc k) (NumberedFrom-tail k x (xs ++ ys) num) in
      (both k x xs (num 0 x refl) front, λ i o e. omega (arith, back i o e))
    where
      both :
          (k : ℕ) (x : Op (Payload V) F) (xs : List (Op (Payload V) F))
          → x.seq ≡ k + 0
          → NumberedFrom (suc k) xs
          → NumberedFrom k (x ∷ xs)
      both k x xs first later zero o e = subst (λ y. y.seq ≡ k + 0) (some-eq e) first
      both k x xs first later (suc i) o e = omega (arith, later i o e)

  -- A snapshot of a state that ops have made can be saved.
  pub save_snapshot_total :
      (q : ℕ) (s : State V) → IsKept V s → (snap : Snapshot V) × (save_snapshot V q s ≡ some snap)
  unfolding save_snapshot
  save_snapshot_total q s k =
      let (d, e) = save_store_total s.store.versions k.documents.written in
      (
        record {
          checkpoint_seq = q;
          store = d;
          relations = save_relations s.relations.adj [];
          index_config = s.indexes.config;
        },
        rw e refl,
      )

  -- What `load_snapshot` makes of what was saved reads like the state that was saved.
  load_snapshot-save_snapshot :
      (q : ℕ) (s t : State V) (snap : Snapshot V) (n : Option ℕ)
      → IsKept V s
      → IsValid V q s
      → save_snapshot V q s ≡ some snap
      → load_snapshot V snap ≡ some t
      → sees n q ≡ true
      → (snap.checkpoint_seq ≡ q) × (IsValid V q t) × Agree V n t n s
  unfolding save_snapshot load_snapshot
  load_snapshot-save_snapshot q s t snap n k v e f late =
      elim (Option-cases (save_store s.store.versions)) [
        | inl raised ↦ cc (rw raised at e)
        | inr (d, good) ↦
            let saved = some-eq (rw good at e) in
            let (es, er) = loaded_state_inv V snap _ t f in
            let store : load_store d Store.empty ≡ t.store =
              ap (λ u. load_store u.store Store.empty) saved ∙ es in
            let graph : load_relations (save_relations s.relations.adj []) Graph.empty
                ≡ t.relations =
              ap (λ u. load_relations u.relations Graph.empty) saved ∙ er in
            (
              ap (λ u. u.checkpoint_seq) (sym saved),
              record {
                stored =
                    subst (Stored.IsValid q) store
                      (load_store-IsValid s.store d k.documents good q v.stored);
                linked =
                    subst (History.IsValid q) graph
                      (load_relations-IsValid s.relations k.edges q v.linked);
              },
              record {
                docs = λ key.
                    rw (← store) (get-load_store s.store d k.documents good q v.stored key n late);
                edges =
                    λ a l b. rw (← graph) (neighbors-load_relations s.relations k.edges a l b n);
              },
            )
      ]

  suc-IsValid : (q : ℕ) (s : State V) → IsValid V q s → IsValid V (suc q) s
  suc-IsValid q s v = record {
    stored = store_mono q (suc q) s.store (omega arith) v.stored;
    linked = graph_mono q (suc q) s.relations (omega arith) v.linked;
  }

  skip_checkpoint :
      (q : ℕ) (o : Op (Payload V) F) (after : List (Op (Payload V) F)) (t : State V)
      → o.seq ≡ q
      → replay_after V q (o ∷ after) (some t) ≡ replay_after V q after (some t)
  unfolding replay_after
  skip_checkpoint q o after t e =
      let old : ltb q o.seq ≡ false = ground arith in rw (replay_after, old) refl

  -- Opening from a snapshot. Where the log is `before`, the checkpoint op and `after`, no op
  -- before the checkpoint links a node with a bar in its name, and the save, the load and the
  -- folds do not raise: the state that is loaded from the snapshot and folds the log after the
  -- checkpoint reads as the state of the whole log does, every document and every edge, at the
  -- head and as of the checkpoint's seq or a later one.
  pub load_snapshot-replay :
      (ix : Indexes V) (before after : List (Op (Payload V) F)) (checkpoint : Op (Payload V) F)
      (s whole t opened : State V) (snap : Snapshot V) (n : Option ℕ)
      → NumberedFrom 0 (before ++ checkpoint ∷ after)
      → All (λ o. IsPlainPayload V o.payload) before
      → replay V before (some (fresh V ix)) ≡ some s
      → replay V after (some s) ≡ some whole
      → save_snapshot V checkpoint.seq s ≡ some snap
      → load_snapshot V snap ≡ some t
      → replay_after V snap.checkpoint_seq (before ++ checkpoint ∷ after) (some t) ≡ some opened
      → sees n checkpoint.seq ≡ true
      → Agree V n opened n whole
  load_snapshot-replay ix before after checkpoint s whole t opened snap n num plain made goes saved
        loads folds late =
      let q = 0 + length before in
      let (front, back) = NumberedFrom-append before (checkpoint ∷ after) 0 num in
      let at_q : checkpoint.seq ≡ q = omega (arith, back 0 checkpoint refl) in
      let valid : IsValid V q s =
        replay-IsValid before 0 (fresh V ix) s front (IsValid-fresh V ix) made in
      let kept = replay-IsKept V before (fresh V ix) s plain (IsKept-fresh V ix) made in
      let (at, valid_t, same) =
        load_snapshot-save_snapshot q s t snap n kept valid (rw at_q at saved) loads
          (rw at_q at late) in
      let later = NumberedFrom-tail q checkpoint after back in
      let skips : replay_after V q (before ++ checkpoint ∷ after) (some t)
          ≡ replay V after (some t) =
        replay_after-past V before (checkpoint ∷ after) 0 q t num (omega arith)
        ∙ skip_checkpoint q checkpoint after t at_q
        ∙ replay_after-later V after (suc q) q (some t) later (omega arith) in
      replay-Agree V after (suc q) n t opened s whole later (suc-IsValid q t valid_t)
        (suc-IsValid q s valid) same
        (sym skips
          ∙ ap (λ k. replay_after V k (before ++ checkpoint ∷ after) (some t)) (sym at)
          ∙ folds)
        goes
