-- ===== src/Index/Lookup.antt =====
-- What `add` and `remove` of python/nedb/index.py do to the lookups of an equality index.
use Prim.Native.Char.{code}
use Prim.Native.String.{◌++◌ as joined}
use text.Mathlib.TextLemmas.{append_assoc as joined_assoc, cons-append, nil-append}
use text.Mathlib.TextPositions.{starts_with-append}
use aof_db.Prelude.{
  ℕ, ◌≡◌, refl, ap, sym, ◌∙◌, subst, String, Bool, true, false, Option, none, some, List, [], ◌∷◌,
  Dict, lookup, lookup-insert, lookup_list, contains, Equality, nat_beq, if◌then◌else◌, ◌==◌, ◌&&◌,
  string_eq, arith, eq_iff, Option-cases, Bool-cases, inl, inr, some-eq, ◌||◌, not, contains-append,
  ◌≢◌, has_key,
}
use aof_db.Index.{
  Values, Doc, Ids, Indexes, after_dot, index_key, is_of, each_index, add_eq, remove_eq, add,
  remove, held_ids, has_eq, with_all, set_add, discard,
}

-- No character of the text has the code `n`.
abbrev pub Lacks : ℕ → String → Type 0
Lacks n String.[] = Unit
Lacks n (String.◌∷◌ c s) = (nat_beq (code c) n ≡ false) × Lacks n s

-- A collection's name with no dot in it.
abbrev pub IsPlain : String → Type 0
IsPlain s = Lacks 46 s

dot_first : (t : String) → after_dot (joined "." t) ≡ t
unfolding after_dot
dot_first t = ap after_dot (cons-append "." String.[] t ∙ ap (λ s. String.◌∷◌ "." s) (nil-append t))

after_dot-index_key :
    (coll field : String) → IsPlain coll → after_dot (index_key coll field) ≡ field
unfolding after_dot
after_dot-index_key String.[] field h = rw (nil-append (joined "." field)) (dot_first field)
after_dot-index_key (String.◌∷◌ c s) field h =
    rw (cons-append c s (joined "." field), h.0) (after_dot-index_key s field h.1)

pub is_of-index_key : (coll field : String) → is_of (index_key coll field) coll ≡ true
is_of-index_key coll field =
    rw (← joined_assoc coll "." field) (starts_with-append (joined coll ".") field)

module _ {ℓ} {A : Type ℓ} ⦃e : Equality A⦄ where
  contains-set_add : (x y : A) (s : List A) → contains (set_add x s) y ≡ (x == y || contains s y)
  unfolding set_add
  contains-set_add x y s = elim (Bool-cases (contains s x)) [
    | inr new ↦ rw (new, contains-append) (unfold contains in ground arith)
    | inl old ↦ elim (Bool-cases (x == y)) [
      | inr other ↦ rw (old, other)
      | inl same ↦ rw (old, same, ← (e.same_iff x y).0 same) old
    ]
  ]

  contains-discard :
      (x y : A) (s : List A) → contains (discard x s) y ≡ (not (x == y) && contains s y)
  unfolding discard contains
  contains-discard x y [] = ground arith
  contains-discard x y (z ∷ s) =
      ground (arith, contains-discard x y s, e.same_iff x y, e.same_iff z x, e.same_iff z y)

module _ {F : Type 0} (V : Values F) where
  abbrev pub with_step {ℓ} :
      {A : Type ℓ} → (Option V.Value → A → Option A) → String → Doc V → String → Option A → Option A
  with_step step coll doc k none = none
  with_step step coll doc k (some a) =
      if is_of k coll then step (lookup (after_dot k) doc) a else some a

  pub lookup-each_index {ℓ} :
      {A : Type ℓ} (step : Option V.Value → A → Option A) (coll : String) (doc : Doc V)
      (m m' : Dict String A) (k : String)
      → each_index V step coll doc m ≡ some m'
      → lookup k m' ≡ with_step step coll doc k (lookup k m)
  unfolding each_index lookup
  lookup-each_index step coll doc [] m' k e = rw (← some-eq e)
  lookup-each_index step coll doc ((f, a) ∷ m) m' k e =
      elim (Option-cases (if is_of f coll then step (lookup (after_dot f) doc) a else some a)) [
        | inl raised ↦ cc (rw (each_index, raised) at e)
        | inr (b, changed) ↦ elim (Option-cases (each_index V step coll doc m)) [
          | inl raised ↦ cc (rw (each_index, changed, raised) at e)
          | inr (rest, others) ↦ elim (Bool-cases (f == k)) [
            | inl same ↦
                rw (← some-eq (rw (each_index, changed, others) at e), same)
                  (subst (λ x. some b ≡ with_step step coll doc x (some a)) ((eq_iff f k).0 same)
                    (sym changed))
            | inr other ↦
                rw (← some-eq (rw (each_index, changed, others) at e), other)
                  (lookup-each_index step coll doc m rest k others)
          ]
        ]
      ]

  each_index_kept {ℓ} :
      {A : Type ℓ} (step : Option V.Value → A → Option A) (coll : String) (doc : Doc V)
      (m m' : Dict String A) (k : String) (a : A)
      → each_index V step coll doc m ≡ some m'
      → lookup k m ≡ some a
      → lookup k m' ≢ none
  unfolding each_index lookup
  each_index_kept step coll doc [] m' k a e at gone = cc at
  each_index_kept step coll doc ((f, a') ∷ m) m' k a e at gone =
      elim (Option-cases (if is_of f coll then step (lookup (after_dot f) doc) a' else some a')) [
        | inl raised ↦ cc (rw (each_index, raised) at e)
        | inr (b, changed) ↦ elim (Option-cases (each_index V step coll doc m)) [
          | inl raised ↦ cc (rw (each_index, changed, raised) at e)
          | inr (rest, others) ↦
              let shown = rw (← some-eq (rw (each_index, changed, others) at e)) at gone in
              elim (Bool-cases (f == k)) [
                | inl same ↦ cc (rw same at shown)
                | inr other ↦
                    each_index_kept step coll doc m rest k a others (rw other at at)
                      (rw other at shown)
              ]
        ]
      ]

  lookup_list-each_index :
      (step : Option V.Value → Dict V.Value Ids → Option (Dict V.Value Ids)) (coll field : String)
      (doc : Doc V) (m m' : Dict String (Dict V.Value Ids))
      → IsPlain coll
      → has_key (index_key coll field) m ≡ true
      → each_index V step coll doc m ≡ some m'
      → step (lookup field doc) (lookup_list (index_key coll field) m)
        ≡ some (lookup_list (index_key coll field) m')
  unfolding lookup_list has_key
  lookup_list-each_index step coll field doc m m' plain known e =
      let k = index_key coll field in
      let after = lookup-each_index step coll doc m m' k e in
      elim (Option-cases (lookup k m)) [
        | inl absent ↦ cc (rw (has_key, absent) at known)
        | inr (a, at) ↦
            let here =
              rw (at, is_of-index_key coll field, after_dot-index_key coll field plain) at after in
            elim (Option-cases (step (lookup field doc) a)) [
              | inl raised ↦ absurd (each_index_kept step coll doc m m' k a e at (here ∙ raised))
              | inr (b, good) ↦ rw (at, here, good)
            ]
      ]

  pub with_all-eq :
      (e : Option (Dict String (Dict V.Value Ids)))
      (o : Option (Dict String (List (V.Value × String))))
      (i : Option (Dict String (Dict (List ℕ) Ids))) (ix ix' : Indexes V)
      → with_all V e o i ix ≡ some ix'
      → e ≡ some ix'.eq
  with_all-eq none o i ix ix' h = cc h
  with_all-eq (some a) none i ix ix' h = cc h
  with_all-eq (some a) (some b) none ix ix' h = cc h
  with_all-eq (some a) (some b) (some c) ix ix' h = ap (λ x. some x.eq) (some-eq h)

  abbrev pub is_value : V.Value → Option V.Value → Bool
  is_value v none = false
  is_value v (some x) = V.equal.same x v

  add_eq_lem :
      (key : String) (w : Option V.Value) (m m' : Dict V.Value Ids) (v : V.Value) (j : String)
      → add_eq V key w m ≡ some m'
      → contains (lookup_list ⦃e = V.equal⦄ v m') j
        ≡ (is_value v w && key == j || contains (lookup_list ⦃e = V.equal⦄ v m) j)
  unfolding add_eq lookup_list
  add_eq_lem key none m m' v j e = rw (← some-eq e)
  add_eq_lem key (some x) m m' v j e = elim (Bool-cases (V.hashable x)) [
    | inr bad ↦ cc (rw (add_eq, bad) at e)
    | inl good ↦
        rw (← some-eq (rw (add_eq, good) at e), lookup-insert ⦃e = V.equal⦄)
          (elim (Bool-cases (V.equal.same x v)) [
            | inl same ↦ rw (same, contains-set_add, (V.equal.same_iff x v).0 same) refl
            | inr other ↦ rw other refl
          ])
  ]

  -- Once `add` has returned, a lookup of a value in an equality index gives the key that was added
  -- if the document has that value in the index's field, and gives every other key as before; for a
  -- collection whose name has no dot.
  pub held_ids-add :
      (coll key : String) (doc : Doc V) (ix ix' : Indexes V)
      → IsPlain coll
      → add V coll key doc ix ≡ some ix'
      → (field : String) (v : V.Value) (j : String) → has_eq V coll field ix ≡ true
      → contains (held_ids V coll field v ix') j
        ≡ (is_value v (lookup field doc) && key == j || contains (held_ids V coll field v ix) j)
  unfolding add has_eq held_ids
  held_ids-add coll key doc ix ix' plain e field v j known =
      add_eq_lem key (lookup field doc) (lookup_list (index_key coll field) ix.eq)
        (lookup_list (index_key coll field) ix'.eq) v j
        (lookup_list-each_index (add_eq V key) coll field doc ix.eq ix'.eq plain known
          (with_all-eq _ _ _ ix ix' e))

  not_listed :
      (key : String) (x : V.Value) (m : Dict V.Value Ids) (v : V.Value) (j : String)
      → has_key ⦃e = V.equal⦄ x m ≡ false
      → contains (lookup_list ⦃e = V.equal⦄ v m) j
        ≡ (not (V.equal.same x v && key == j) && contains (lookup_list ⦃e = V.equal⦄ v m) j)
  unfolding has_key lookup_list contains
  not_listed key x m v j absent = elim (Bool-cases (V.equal.same x v)) [
    | inr other ↦ rw other refl
    | inl same ↦ elim (Option-cases (lookup ⦃e = V.equal⦄ v m)) [
      | inl gone ↦ rw (same, gone) (ground arith)
      | inr (ids, found) ↦
          let listed =
            subst (λ y. has_key ⦃e = V.equal⦄ y m ≡ false) ((V.equal.same_iff x v).0 same) absent in
          cc (rw (has_key, found) at listed)
    ]
  ]

  remove_eq_lem :
      (key : String) (w : Option V.Value) (m m' : Dict V.Value Ids) (v : V.Value) (j : String)
      → remove_eq V key w m ≡ some m'
      → contains (lookup_list ⦃e = V.equal⦄ v m') j
        ≡ (not (is_value v w && key == j) && contains (lookup_list ⦃e = V.equal⦄ v m) j)
  unfolding remove_eq lookup_list has_key
  remove_eq_lem key none m m' v j e = rw (← some-eq e)
  remove_eq_lem key (some x) m m' v j e = elim (Bool-cases (V.hashable x)) [
    | inr bad ↦ cc (rw (remove_eq, bad) at e)
    | inl good ↦ elim (Bool-cases (has_key ⦃e = V.equal⦄ x m)) [
      | inr absent ↦
          rw (← some-eq (rw (remove_eq, good, absent) at e)) (not_listed key x m v j absent)
      | inl present ↦
          rw (← some-eq (rw (remove_eq, good, present) at e), lookup-insert ⦃e = V.equal⦄)
            (elim (Bool-cases (V.equal.same x v)) [
              | inl same ↦ rw (same, contains-discard, (V.equal.same_iff x v).0 same) refl
              | inr other ↦ rw other refl
            ])
    ]
  ]

  -- Once `remove` has returned, a lookup of a value in an equality index no longer gives the key that
  -- was removed if the document has that value in the index's field, and gives every other key as
  -- before; for a collection whose name has no dot.
  pub held_ids-remove :
      (coll key : String) (doc : Doc V) (ix ix' : Indexes V)
      → IsPlain coll
      → remove V coll key doc ix ≡ some ix'
      → (field : String) (v : V.Value) (j : String) → has_eq V coll field ix ≡ true
      → contains (held_ids V coll field v ix') j ≡ (
          not (is_value v (lookup field doc) && key == j)
          && contains (held_ids V coll field v ix) j)
  unfolding remove has_eq held_ids
  held_ids-remove coll key doc ix ix' plain e field v j known =
      remove_eq_lem key (lookup field doc) (lookup_list (index_key coll field) ix.eq)
        (lookup_list (index_key coll field) ix'.eq) v j
        (lookup_list-each_index (remove_eq V key) coll field doc ix.eq ix'.eq plain known
          (with_all-eq _ _ _ ix ix' e))
