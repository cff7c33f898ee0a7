-- ===== src/Index/Others.antt =====
-- The entries of an equality index that `add` and `remove` of python/nedb/index.py leave as they are.
use aof_db.Prelude.{
  ◌≡◌, ◌≢◌, refl, ap, sym, ◌∙◌, String, true, Option, some, Dict, lookup, lookup_list, contains,
  string_eq, arith, eq_iff, Option-cases, Bool-cases, ◌⊎◌, inl, inr, has_key, subst, String-cases,
}
use aof_db.Index.{
  Values, Doc, Ids, Indexes, index_key, is_of, each_index, add_eq, remove_eq, add, remove, held_ids,
  has_eq,
}
use aof_db.Index.Names.{same_prefix}
use aof_db.Index.Lookup.{
  IsPlain, lookup-each_index, with_all-eq, held_ids-add, held_ids-remove, is_of-index_key,
}

module _ {F : Type 0} (V : Values F) where
  -- A collection's documents do not touch another collection's indexes.
  untouched :
      (step : Option V.Value → Dict V.Value Ids → Option (Dict V.Value Ids)) (coll coll' : String)
      (doc : Doc V) (field : String) (m m' : Dict String (Dict V.Value Ids))
      → IsPlain coll
      → IsPlain coll'
      → coll ≢ coll'
      → each_index V step coll doc m ≡ some m'
      → lookup_list (index_key coll' field) m' ≡ lookup_list (index_key coll' field) m
  unfolding lookup_list
  untouched step coll coll' doc field m m' h k other e =
      let key = index_key coll' field in
      let after = lookup-each_index V step coll doc m m' key e in
      elim (Bool-cases (is_of key coll)) [
        | inl same ↦
            absurd (other (same_prefix "." coll coll' key h k same (is_of-index_key coll' field)))
        | inr apart ↦ elim (Option-cases (lookup key m)) [
          | inl absent ↦ rw (absent, rw absent at after) refl
          | inr (a, at) ↦ rw (at, rw (at, apart) at after) refl
        ]
      ]

  known_before :
      (step : Option V.Value → Dict V.Value Ids → Option (Dict V.Value Ids)) (coll : String)
      (doc : Doc V) (k : String) (m m' : Dict String (Dict V.Value Ids))
      → each_index V step coll doc m ≡ some m'
      → has_key k m' ≡ true
      → has_key k m ≡ true
  unfolding has_key
  known_before step coll doc k m m' e known =
      let after = lookup-each_index V step coll doc m m' k e in
      elim (Option-cases (lookup k m)) [
        | inl absent ↦ cc (rw (has_key, rw absent at after) at known)
        | inr (a, at) ↦ rw (has_key, at) refl
      ]

  pub has_eq_before_add :
      (coll key : String) (doc : Doc V) (ix ix' : Indexes V) (coll' field : String)
      → add V coll key doc ix ≡ some ix'
      → has_eq V coll' field ix' ≡ true
      → has_eq V coll' field ix ≡ true
  unfolding add has_eq
  has_eq_before_add coll key doc ix ix' coll' field e known =
      known_before (add_eq V key) coll doc (index_key coll' field) ix.eq ix'.eq
        (with_all-eq V _ _ _ ix ix' e) known

  pub has_eq_before_remove :
      (coll key : String) (doc : Doc V) (ix ix' : Indexes V) (coll' field : String)
      → remove V coll key doc ix ≡ some ix'
      → has_eq V coll' field ix' ≡ true
      → has_eq V coll' field ix ≡ true
  unfolding remove has_eq
  has_eq_before_remove coll key doc ix ix' coll' field e known =
      known_before (remove_eq V key) coll doc (index_key coll' field) ix.eq ix'.eq
        (with_all-eq V _ _ _ ix ix' e) known

  other_add :
      (coll key : String) (doc : Doc V) (ix ix' : Indexes V) (coll' field : String) (v : V.Value)
      → IsPlain coll
      → IsPlain coll'
      → coll ≢ coll'
      → add V coll key doc ix ≡ some ix'
      → held_ids V coll' field v ix' ≡ held_ids V coll' field v ix
  unfolding add held_ids
  other_add coll key doc ix ix' coll' field v h k other e = ap (lookup_list ⦃e = V.equal⦄ v) (
      untouched (add_eq V key) coll coll' doc field ix.eq ix'.eq h k other
        (with_all-eq V _ _ _ ix ix' e))

  other_remove :
      (coll key : String) (doc : Doc V) (ix ix' : Indexes V) (coll' field : String) (v : V.Value)
      → IsPlain coll
      → IsPlain coll'
      → coll ≢ coll'
      → remove V coll key doc ix ≡ some ix'
      → held_ids V coll' field v ix' ≡ held_ids V coll' field v ix
  unfolding remove held_ids
  other_remove coll key doc ix ix' coll' field v h k other e = ap (lookup_list ⦃e = V.equal⦄ v) (
      untouched (remove_eq V key) coll coll' doc field ix.eq ix'.eq h k other
        (with_all-eq V _ _ _ ix ix' e))

  -- `add` takes no entry away.
  pub add_kept :
      (coll key : String) (doc : Doc V) (ix ix' : Indexes V) (coll' field : String) (v : V.Value)
      (j : String)
      → IsPlain coll
      → IsPlain coll'
      → add V coll key doc ix ≡ some ix'
      → has_eq V coll' field ix' ≡ true
      → contains (held_ids V coll' field v ix) j ≡ true
      → contains (held_ids V coll' field v ix') j ≡ true
  add_kept coll key doc ix ix' coll' field v j h k e known held = elim (String-cases coll coll') [
    | inr other ↦
        subst (λ ids. contains ids j ≡ true)
          (sym (other_add coll key doc ix ix' coll' field v h k other e)) held
    | inl same ↦
        let before = has_eq_before_add coll key doc ix ix' coll' field e known in
        let after =
          held_ids-add V coll key doc ix ix' h e field v j
            (subst (λ c. has_eq V c field ix ≡ true) (sym same) before) in
        let held_here = subst (λ c. contains (held_ids V c field v ix) j ≡ true) (sym same) held in
        subst (λ c. contains (held_ids V c field v ix') j ≡ true) same
          (after ∙ ground (arith, held_here))
  ]

  -- `remove` of one key takes no other key away.
  pub remove_kept :
      (coll key : String) (doc : Doc V) (ix ix' : Indexes V) (coll' field : String) (v : V.Value)
      (j : String)
      → key ≢ j
      → IsPlain coll
      → IsPlain coll'
      → remove V coll key doc ix ≡ some ix'
      → has_eq V coll' field ix' ≡ true
      → contains (held_ids V coll' field v ix) j ≡ true
      → contains (held_ids V coll' field v ix') j ≡ true
  remove_kept coll key doc ix ix' coll' field v j apart h k e known held =
      elim (String-cases coll coll') [
        | inr other ↦
            subst (λ ids. contains ids j ≡ true)
              (sym (other_remove coll key doc ix ix' coll' field v h k other e)) held
        | inl same ↦
            let before = has_eq_before_remove coll key doc ix ix' coll' field e known in
            let after =
              held_ids-remove V coll key doc ix ix' h e field v j
                (subst (λ c. has_eq V c field ix ≡ true) (sym same) before) in
            let held_here =
              subst (λ c. contains (held_ids V c field v ix) j ≡ true) (sym same) held in
            subst (λ c. contains (held_ids V c field v ix') j ≡ true) same
              (after ∙ ground (arith, held_here, eq_iff key j, apart))
      ]

  -- After `add`, the key is listed under each value that its document has in an indexed field.
  pub add_listed :
      (coll key : String) (doc : Doc V) (ix ix' : Indexes V) (field : String) (v : V.Value)
      → IsPlain coll
      → add V coll key doc ix ≡ some ix'
      → has_eq V coll field ix' ≡ true
      → lookup field doc ≡ some v
      → contains (held_ids V coll field v ix') key ≡ true
  add_listed coll key doc ix ix' field v h e known at =
      let before = has_eq_before_add coll key doc ix ix' coll field e known in
      held_ids-add V coll key doc ix ix' h e field v key before
      ∙ rw at (rw ((V.equal.same_iff v v).1 refl, (eq_iff key key).1 refl) refl)

  -- A key that is listed after `add` is the key that was added, or was listed before.
  pub add_source :
      (coll key : String) (doc : Doc V) (ix ix' : Indexes V) (coll' field : String) (v : V.Value)
      (j : String)
      → IsPlain coll
      → IsPlain coll'
      → add V coll key doc ix ≡ some ix'
      → has_eq V coll' field ix' ≡ true
      → contains (held_ids V coll' field v ix') j ≡ true
      → ((coll ≡ coll') × (key ≡ j)) ⊎ (contains (held_ids V coll' field v ix) j ≡ true)
  add_source coll key doc ix ix' coll' field v j h k e known held = elim (String-cases coll coll') [
    | inr other ↦ inr (
        subst (λ ids. contains ids j ≡ true)
          (other_add coll key doc ix ix' coll' field v h k other e) held)
    | inl same ↦
        let before = has_eq_before_add coll key doc ix ix' coll' field e known in
        let after =
          held_ids-add V coll key doc ix ix' h e field v j
            (subst (λ c. has_eq V c field ix ≡ true) (sym same) before) in
        let held_here = subst (λ c. contains (held_ids V c field v ix') j ≡ true) (sym same) held in
        elim (String-cases key j) [
          | inl it ↦ inl (same, it)
          | inr apart ↦ inr (
              subst (λ c. contains (held_ids V c field v ix) j ≡ true) same
                (ground (arith, after, held_here, eq_iff key j, apart)))
        ]
  ]

  -- `remove` lists no key that was not listed.
  pub remove_source :
      (coll key : String) (doc : Doc V) (ix ix' : Indexes V) (coll' field : String) (v : V.Value)
      (j : String)
      → IsPlain coll
      → IsPlain coll'
      → remove V coll key doc ix ≡ some ix'
      → has_eq V coll' field ix' ≡ true
      → contains (held_ids V coll' field v ix') j ≡ true
      → contains (held_ids V coll' field v ix) j ≡ true
  remove_source coll key doc ix ix' coll' field v j h k e known held =
      elim (String-cases coll coll') [
        | inr other ↦
            subst (λ ids. contains ids j ≡ true)
              (other_remove coll key doc ix ix' coll' field v h k other e) held
        | inl same ↦
            let before = has_eq_before_remove coll key doc ix ix' coll' field e known in
            let after =
              held_ids-remove V coll key doc ix ix' h e field v j
                (subst (λ c. has_eq V c field ix ≡ true) (sym same) before) in
            let held_here =
              subst (λ c. contains (held_ids V c field v ix') j ≡ true) (sym same) held in
            subst (λ c. contains (held_ids V c field v ix) j ≡ true) same
              (ground (arith, after, held_here))
      ]
