-- ===== src/Execute/Found.antt =====
-- The rows that `execute` of python/nedb/engine.py finds, whichever way it takes its candidates.
use text.Mathlib.Text.{starts_with}
use aof_db.Prelude.{
  ◌≡◌, ◌≢◌, refl, ap, sym, ◌∙◌, String, Bool, true, false, Option, none, some, List, [], ◌∷◌,
  contains, Option-cases, Bool-cases, inl, inr, some-eq, arith, All, lookup, string_eq, ◌==◌, ◌&&◌,
}
use aof_db.Store as Store
use aof_db.Store.{MvccStore}
use aof_db.Index.{Values, Doc, Indexes, held_ids, eq_lookup, has_eq}
use aof_db.Log.{Codec}
use aof_db.Engine.{Payload, State, Nedb}
use aof_db.Engine.Recovery.{Reaches}
use aof_db.Execute.{
  Comparisons, Condition, Plan, prefix_of, cmp, value_at, matches, accepts, Rows, load_rows,
  by_search, by_equality, scan, candidates, found_rows,
}
use aof_db.Execute.Listing.{IsName, Listed}
use aof_db.Execute.Reach.{NamedOp, HasNoEntry, Listed-Reaches}
use aof_db.Execute.Scan.{row_keys, passes, contains-load_rows, found_by_scan}

module _ {F : Type 0} {V : Values F} (K : Comparisons V) where
  -- An equality is not with None, which a document without the field has too.
  abbrev pub IsDefinite : Condition K → Type 0
  IsDefinite c = (c.op == "=" && V.equal.same c.value K.null) ≡ false

  -- The value of the condition can be hashed.
  abbrev pub IsHashable : Condition K → Type 0
  IsHashable c = V.hashable c.value ≡ true

  -- What `by_equality` finds is the lookup of a condition of the plan.
  record Looked (ix : Indexes V) (coll : String) (cs : List (Condition K)) (ids : List String)
      : Type 0 where
    field : String
    value : V.Value
    has_index : has_eq V coll field ix ≡ true
    looked : ids ≡ held_ids V coll field value ix
    asked : (doc : Doc V) → matches K cs doc ≡ true → value_at K field doc ≡ value
    definite : V.equal.same value K.null ≡ false

  by_equality-Looked :
      (ix : Indexes V) (coll : String) (cs : List (Condition K)) (ids : List String)
      → All IsDefinite cs
      → All IsHashable cs
      → by_equality K ix coll cs ≡ some (some ids)
      → Looked ix coll cs ids
  unfolding by_equality eq_lookup matches cmp
  by_equality-Looked ix coll [] ids h hh e = cc e
  by_equality-Looked ix coll (c ∷ cs) ids h hh e =
      elim (Bool-cases (c.op == "=" && has_eq V coll c.field ix)) [
        | inl chosen ↦
            let op_is : (c.op == "=") ≡ true = ground (arith, chosen) in
            record {
              field = c.field;
              value = c.value;
              has_index = ground (arith, chosen);
              looked = sym (some-eq (some-eq (rw (chosen, hh.0) at e)));
              asked = λ doc m.
                  (V.equal.same_iff (value_at K c.field doc) c.value).0
                    (ground (arith, rw op_is at m));
              definite = ground (arith, h.0, op_is);
            }
        | inr passed ↦
            let l = by_equality-Looked ix coll cs ids h.1 hh.1 (rw passed at e) in
            record {
              field = l.field;
              value = l.value;
              has_index = l.has_index;
              looked = l.looked;
              asked = λ doc m. l.asked doc (ground (arith, m));
              definite = l.definite;
            }
      ]

  -- A lookup in an index does not raise.
  no_error :
      (ix : Indexes V) (coll : String) (cs : List (Condition K))
      → All IsHashable cs
      → by_equality K ix coll cs ≢ some none
  unfolding by_equality eq_lookup
  no_error ix coll [] hh e = cc e
  no_error ix coll (c ∷ cs) hh e = elim (Bool-cases (c.op == "=" && has_eq V coll c.field ix)) [
    | inl chosen ↦ cc (rw (chosen, hh.0) at e)
    | inr passed ↦ no_error ix coll cs hh.1 (rw passed at e)
  ]

  value_at-lookup :
      (field : String) (doc : Doc V) (v : V.Value)
      → V.equal.same v K.null ≡ false
      → value_at K field doc ≡ v
      → lookup field doc ≡ some v
  value_at-lookup field doc v definite e = elim (Option-cases (lookup field doc)) [
    | inl absent ↦
        let null_is : K.null ≡ v = rw absent at e in
        cc ((V.equal.same_iff v K.null).1 (sym null_is), definite)
    | inr (x, at) ↦ let same : x ≡ v = rw at at e in at ∙ ap some same
  ]

  module _ (s : State V) (h : Listed V s) (p : Plan K) (n : IsName p.coll) where
    -- The candidates of an equality index, among the documents that the conditions pass.
    found_by_index :
        (test : Doc V → Bool) (ids : List String) (key : String)
        → ((doc : Doc V) → test doc ≡ true → matches K p.conditions doc ≡ true)
        → Looked s.indexes p.coll p.conditions ids
        → contains (row_keys K (load_rows K test none s.store ids)) key
          ≡ (starts_with key (prefix_of p.coll) && passes K test (Store.get key none s.store))
    found_by_index test ids key passed l =
        contains-load_rows K test none s.store ids key
        ∙ elim (Option-cases (Store.get key none s.store)) [
          | inl absent ↦ rw absent (ground arith)
          | inr (doc, at) ↦ elim (Bool-cases (test doc)) [
            | inr bad ↦ rw (at, bad) (ground arith)
            | inl good ↦
                let held =
                  value_at-lookup l.field doc l.value l.definite (l.asked doc (passed doc good)) in
                rw (at, good, l.looked)
                  (elim (Bool-cases (starts_with key (prefix_of p.coll))) [
                    | inl begins ↦
                        rw
                          (
                            begins,
                            h.complete p.coll key l.field doc l.value n begins l.has_index at held,
                          )
                          refl
                    | inr other ↦
                        elim (Bool-cases
                          (contains (held_ids V p.coll l.field l.value s.indexes) key)) [
                            | inl listed ↦
                                cc (h.within p.coll key l.field l.value n l.has_index listed)
                            | inr unlisted ↦ rw (other, unlisted) refl
                          ]
                  ])
          ]
        ]

    module _ (plain : p.search ≡ none) (definite : All IsDefinite p.conditions)
        (hashable : All IsHashable p.conditions) where
      not_searched : by_search K s.indexes p ≡ none
      unfolding by_search
      not_searched = rw plain refl

      passes-accepts :
          (found : Option (Doc V))
          → passes K (accepts K s.indexes p) found ≡ passes K (matches K p.conditions) found
      unfolding accepts
      passes-accepts none = refl
      passes-accepts (some doc) = rw plain (ground arith)

      accepts-matches :
          (doc : Doc V) → accepts K s.indexes p doc ≡ true → matches K p.conditions doc ≡ true
      accepts-matches doc e = sym (passes-accepts (some doc)) ∙ e

      abbrev Answers : Rows K → Type 0
      Answers rows =
          (key : String)
          → contains (row_keys K rows) key ≡ (
              starts_with key (prefix_of p.coll)
              && passes K (accepts K s.indexes p) (Store.get key p.as_of s.store))

      by_candidates : (rows : Rows K) × (found_rows K s p ≡ some rows) × Answers rows
      unfolding found_rows candidates scan
      by_candidates = elim (Option-cases p.as_of) [
        | inr (n, past) ↦ (
          load_rows K (accepts K s.indexes p) p.as_of s.store (scan K s.store p),
          rw not_searched (rw past refl),
          λ key. found_by_scan K (accepts K s.indexes p) s.store p key,
        )
        | inl head ↦ elim (Option-cases (by_equality K s.indexes p.coll p.conditions)) [
          | inl unindexed ↦ (
            load_rows K (accepts K s.indexes p) p.as_of s.store (scan K s.store p),
            rw not_searched (rw (head, unindexed) refl),
            λ key. found_by_scan K (accepts K s.indexes p) s.store p key,
          )
          | inr (none, raised) ↦ absurd (no_error s.indexes p.coll p.conditions hashable raised)
          | inr (some ids, indexed) ↦ (
            load_rows K (accepts K s.indexes p) p.as_of s.store ids,
            rw not_searched (rw (head, indexed) refl),
            λ key. rw head (
                found_by_index (accepts K s.indexes p) ids key accepts-matches
                  (by_equality-Looked s.indexes p.coll p.conditions ids definite hashable indexed)),
          )
        ]
      ]

  -- In a database that calls have built, over collections whose names have no dot and no colon, a
  -- plan without SEARCH, of which the values can be hashed and no equality is with None, finds rows,
  -- and a key is in one of them exactly when it has the collection's prefix and the document that a
  -- read of it finds, as of the plan's seq, passes the conditions: whether an index or the scan gave
  -- the candidates.
  pub contains-found_rows :
      (C : Codec (Payload V) F) (ix : Indexes V) (db : Nedb V) (p : Plan K)
      → HasNoEntry V ix
      → All (NamedOp V) db.log.ops
      → Reaches V C ix db
      → IsName p.coll
      → p.search ≡ none
      → All IsDefinite p.conditions
      → All IsHashable p.conditions
      → (rows : Rows K) × (found_rows K db.state p ≡ some rows)
        × ((key : String)
            → contains (row_keys K rows) key ≡ (
                starts_with key (prefix_of p.coll)
                && passes K (matches K p.conditions) (Store.get key p.as_of db.state.store)))
  contains-found_rows C ix db p no_entry named reached n plain definite hashable =
      let h = Listed-Reaches V C ix db no_entry named reached in
      let (rows, found, answers) = by_candidates db.state h p n plain definite hashable in
      (
        rows,
        found,
        λ key.
            answers key
            ∙ ap (λ b. starts_with key (prefix_of p.coll) && b)
                (passes-accepts db.state h p n plain definite hashable
                  (Store.get key p.as_of db.state.store)),
      )
