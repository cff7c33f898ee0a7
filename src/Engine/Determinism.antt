-- ===== src/Engine/Determinism.antt =====
-- `rebuild` of python/nedb/engine.py: the log replayed into fresh state, with no map of causes.
use aof_db.Prelude.{
  ◌≡◌, refl, ap, sym, ◌∙◌, ℕ, String, Dict, Option, none, some, List, [], ◌∷◌, Option-cases, inl,
  inr, some-eq,
}
use aof_db.Index.{
  Values, Doc, Ids, Indexes, Ensured, ensured, value_error, ensure, with_all, add, remove,
}
use aof_db.Index as Index
use aof_db.Log.{Op, Codec}
use aof_db.Engine.{
  Payload, put, delete, link, unlink, put_file, Nedb, State, replay, apply_op, apply_payload, fresh,
  with_indexes, re_index, add_after,
}
use aof_db.Engine.Recovery.{Reaches, Reaches-IsFold, replay-none}

module _ {F : Type 0} (V : Values F) where
  -- `for (c, f, k) in self.indexes.config: indexes.ensure(c, f, k)`
  unfoldable pub ensure_all : List ((String × String) × String) → Ensured V → Ensured V
  ensure_all [] ix = ix
  ensure_all (((coll, field), kind) ∷ config) (ensured ix) =
      ensure_all config (ensure V coll field kind ix)
  ensure_all (((coll, field), kind) ∷ config) (value_error ix) = value_error ix

  -- `for op in self.log.ops: apply_op(store, relations, indexes, op)`
  unfoldable pub refold : List (Op (Payload V) F) → Option (State V) → Option (State V)
  refold [] s = s
  refold (o ∷ ops) none = none
  refold (o ∷ ops) (some s) = refold ops (apply_payload V o.payload o.seq s)

  abbrev rebuild_on : Ensured V → List (Op (Payload V) F) → Option (State V)
  rebuild_on (value_error ix) ops = none
  rebuild_on (ensured ix) ops = refold ops (some (fresh V ix))

  -- none is an exception.
  unfoldable pub rebuild : Nedb V → Option (State V)
  unfolding ensure_all refold
  rebuild db = rebuild_on (ensure_all db.state.indexes.config (ensured (Index.empty V))) db.log.ops

  abbrev pub no_causes : State V → State V
  no_causes s = record s { cause_map = [] }

  with_indexes-no_causes :
      (ix : Option (Indexes V)) (s t : State V)
      → with_indexes V ix s ≡ some t
      → with_indexes V ix (no_causes s) ≡ some (no_causes t)
  with_indexes-no_causes none s t e = cc e
  with_indexes-no_causes (some ix) s t e = ap (λ u. some (no_causes u)) (some-eq e)

  apply_payload-no_causes :
      (p : Payload V) (q : ℕ) (s t : State V)
      → apply_payload V p q s ≡ some t
      → apply_payload V p q (no_causes s) ≡ some (no_causes t)
  unfolding apply_payload
  apply_payload-no_causes (put key coll id doc) q s t e = with_indexes-no_causes _ _ t e
  apply_payload-no_causes (delete key coll id) q s t e = with_indexes-no_causes _ _ t e
  apply_payload-no_causes (link frm rel to) q s t e = ap (λ u. some (no_causes u)) (some-eq e)
  apply_payload-no_causes (unlink frm rel to) q s t e = ap (λ u. some (no_causes u)) (some-eq e)
  apply_payload-no_causes (put_file name tier version root) q s t e =
      ap (λ u. some (no_causes u)) (some-eq e)

  with_all-config :
      (e : Option (Dict String (Dict V.Value Ids)))
      (o : Option (Dict String (List (V.Value × String))))
      (i : Option (Dict String (Dict (List ℕ) Ids))) (ix ix' : Indexes V)
      → with_all V e o i ix ≡ some ix'
      → ix'.config ≡ ix.config
  with_all-config none o i ix ix' e = cc e
  with_all-config (some a) none i ix ix' e = cc e
  with_all-config (some a) (some b) none ix ix' e = cc e
  with_all-config (some a) (some b) (some c) ix ix' e = sym (ap (λ x. x.config) (some-eq e))

  re_index-config :
      (coll key : String) (old : Option (Doc V)) (ix ix' : Indexes V)
      → re_index V coll key old ix ≡ some ix'
      → ix'.config ≡ ix.config
  unfolding remove
  re_index-config coll key none ix ix' e = sym (ap (λ x. x.config) (some-eq e))
  re_index-config coll key (some old) ix ix' e = with_all-config _ _ _ ix ix' e

  add_after-config :
      (coll key : String) (doc : Doc V) (ix : Indexes V) (mid : Option (Indexes V))
      (ix' : Indexes V)
      → ((x : Indexes V) → mid ≡ some x → x.config ≡ ix.config)
      → add_after V coll key doc mid ≡ some ix'
      → ix'.config ≡ ix.config
  unfolding add
  add_after-config coll key doc ix none ix' h e = cc e
  add_after-config coll key doc ix (some x) ix' h e = with_all-config _ _ _ x ix' e ∙ h x refl

  with_indexes-config :
      (ix : Option (Indexes V)) (s s' t : State V)
      → ((x : Indexes V) → ix ≡ some x → x.config ≡ s.indexes.config)
      → with_indexes V ix s' ≡ some t
      → t.indexes.config ≡ s.indexes.config
  with_indexes-config none s s' t h e = cc e
  with_indexes-config (some x) s s' t h e = sym (ap (λ u. u.indexes.config) (some-eq e)) ∙ h x refl

  apply_payload-config :
      (p : Payload V) (q : ℕ) (s t : State V)
      → apply_payload V p q s ≡ some t
      → t.indexes.config ≡ s.indexes.config
  unfolding apply_payload
  apply_payload-config (put key coll id doc) q s t e =
      with_indexes-config _ s _ t
        (λ x.
          add_after-config coll key _ s.indexes _ x (λ y. re_index-config coll key _ s.indexes y))
        e
  apply_payload-config (delete key coll id) q s t e =
      with_indexes-config _ s _ t (λ x. re_index-config coll key _ s.indexes x) e
  apply_payload-config (link frm rel to) q s t e = sym (ap (λ u. u.indexes.config) (some-eq e))
  apply_payload-config (unlink frm rel to) q s t e = sym (ap (λ u. u.indexes.config) (some-eq e))
  apply_payload-config (put_file name tier version root) q s t e =
      sym (ap (λ u. u.indexes.config) (some-eq e))

  replay-refold :
      (ops : List (Op (Payload V) F)) (s t : State V)
      → replay V ops (some s) ≡ some t
      → (refold ops (some (no_causes s)) ≡ some (no_causes t))
        × (t.indexes.config ≡ s.indexes.config)
  unfolding replay refold apply_op
  replay-refold [] s t e =
      (ap (λ u. some (no_causes u)) (some-eq e), sym (ap (λ u. u.indexes.config) (some-eq e)))
  replay-refold (o ∷ ops) s t e = elim (Option-cases (apply_payload V o.payload o.seq s)) [
    | inl raised ↦ cc (rw (replay, apply_op, raised) at e, replay-none V ops)
    | inr (m, step) ↦
        let (folded, config) = replay-refold ops _ t (rw (replay, apply_op, step) at e) in
        (
          rw (refold, apply_payload-no_causes o.payload o.seq s m step) folded,
          config ∙ apply_payload-config o.payload o.seq s m step,
        )
  ]

  -- Determinism: in a database that calls have built from one with no more than declared indexes,
  -- `rebuild` returns, and what it returns is the database's store, graph and indexes.
  pub rebuild-Reaches :
      (C : Codec (Payload V) F) (ix : Indexes V) (db : Nedb V)
      → ensure_all ix.config (ensured (Index.empty V)) ≡ ensured ix
      → Reaches V C ix db
      → rebuild db ≡ some (no_causes db.state)
  unfolding rebuild
  rebuild-Reaches C ix db declared s =
      let h = Reaches-IsFold V C ix s in
      let (folded, config) = replay-refold db.log.ops (fresh V ix) db.state h.folds in
      ap (λ c. rebuild_on (ensure_all c (ensured (Index.empty V))) db.log.ops) config
      ∙ ap (λ e. rebuild_on e db.log.ops) declared
      ∙ folded
