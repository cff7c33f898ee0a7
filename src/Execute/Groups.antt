-- ===== src/Execute/Groups.antt =====
-- GROUP BY of `execute` of python/nedb/engine.py, and what its groups hold.
use Prim.Native.String.{◌++◌ as joined}
use aof_db.Prelude.{
  ℕ, ◌≡◌, ◌<◌, refl, subst, false, arith, length-append, lookup-insert, sym, ◌∙◌, ap, String, Bool,
  Option, none, some, List, [], ◌∷◌, ◌++◌, Dict, lookup, insert, lookup_list, append_to,
  lookup_list-append_to, length, if◌then◌else◌, string_eq, Bool-cases, Option-cases, inl, inr,
  append_assoc, append-nil, some-eq,
}
use aof_db.Index.{Values, Doc}
use aof_db.Query.{Fn, sum, avg, min, max}
use aof_db.Execute.{Comparisons, value_at}

-- What an aggregate does with values: `isinstance(v, (int, float))`, and `sum`, the mean, `min` and
-- `max` of a list of numbers.
pub record Arithmetic {F : Type 0} (V : Values F) : Type 0 where
  pub is_number : V.Value → Bool
  pub of_count : ℕ → V.Value
  pub sum_of : List V.Value → V.Value
  pub mean_of : List V.Value → V.Value
  pub least_of : List V.Value → V.Value
  pub greatest_of : List V.Value → V.Value

-- `("count", None)`, or a function with the field that it is taken of
pub data Aggregated : Type 0 where
  counted : Aggregated
  taken_of : Fn → String → Aggregated

module _ {F : Type 0} {V : Values F} (K : Comparisons V) (N : Arithmetic V) where
  abbrev pub Groups : Type 0
  Groups = Dict V.Value (List (Doc V))

  -- The loop that makes the groups; none is a TypeError of a value that cannot be hashed.
  unfoldable pub group_loop : String → List (Doc V) → Groups → Option Groups
  group_loop f [] groups = some groups
  group_loop f (d ∷ docs) groups =
      let rest = group_loop f docs (append_to ⦃e = V.equal⦄ (value_at K f d) d groups) in
      if V.hashable (value_at K f d) then rest else none

  abbrev number_in : Option V.Value → List V.Value → List V.Value
  number_in none rest = rest
  number_in (some v) rest = if N.is_number v then v ∷ rest else rest

  -- `[d[af] for d in gdocs if af in d and isinstance(d[af], (int, float))]`
  unfoldable pub numbers_of : String → List (Doc V) → List V.Value
  numbers_of af [] = []
  numbers_of af (d ∷ docs) = number_in (lookup af d) (numbers_of af docs)

  -- `x if nums else None`
  abbrev if_any : List V.Value → V.Value → V.Value
  if_any [] x = K.null
  if_any (v ∷ nums) x = x

  abbrev aggregate_entry : Fn → String → List V.Value → Doc V → Doc V
  aggregate_entry sum af nums entry = insert (joined "sum_" af) (N.sum_of nums) entry
  aggregate_entry avg af nums entry = insert (joined "avg_" af) (if_any nums (N.mean_of nums)) entry
  aggregate_entry min af nums entry =
      insert (joined "min_" af) (if_any nums (N.least_of nums)) entry
  aggregate_entry max af nums entry =
      insert (joined "max_" af) (if_any nums (N.greatest_of nums)) entry

  abbrev with_aggregate : Option Aggregated → List (Doc V) → Doc V → Doc V
  with_aggregate none docs entry = entry
  with_aggregate (some counted) docs entry = entry
  with_aggregate (some (taken_of fn af)) docs entry =
      aggregate_entry fn af (numbers_of af docs) entry

  unfoldable pub group_entries : String → Option Aggregated → Groups → List (Doc V)
  unfolding numbers_of
  group_entries f agg [] = []
  group_entries f agg ((v, docs) ∷ groups) =
      with_aggregate agg docs (insert "count" (N.of_count (length docs)) (insert f v []))
      ∷ group_entries f agg groups

  abbrev entries_of : String → Option Aggregated → Option Groups → Option (List (Doc V))
  entries_of f agg none = none
  entries_of f agg (some groups) = some (group_entries f agg groups)

  unfoldable pub grouped : String → Option Aggregated → List (Doc V) → Option (List (Doc V))
  unfolding group_loop group_entries
  grouped f agg docs = entries_of f agg (group_loop f docs [])

  -- The documents with a value in a field, in their order.
  unfoldable pub having : String → V.Value → List (Doc V) → List (Doc V)
  having f v [] = []
  having f v (d ∷ docs) =
      let rest = having f v docs in if V.equal.same (value_at K f d) v then d ∷ rest else rest

  group_loop-having :
      (f : String) (docs : List (Doc V)) (before after : Groups) (v : V.Value)
      → group_loop f docs before ≡ some after
      → lookup_list ⦃e = V.equal⦄ v after ≡ lookup_list ⦃e = V.equal⦄ v before ++ having f v docs
  unfolding group_loop having
  group_loop-having f [] before after v e =
      ap (lookup_list ⦃e = V.equal⦄ v) (sym (some-eq e))
      ∙ sym (append-nil (lookup_list ⦃e = V.equal⦄ v before))
  group_loop-having f (d ∷ docs) before after v e =
      elim (Bool-cases (V.hashable (value_at K f d))) [
        | inr bad ↦ cc (rw bad at e)
        | inl good ↦
            let x = value_at K f d in
            let grown = append_to ⦃e = V.equal⦄ x d before in
            let rest = group_loop-having f docs grown after v (rw good at e) in
            elim (Bool-cases (V.equal.same x v)) [
              | inr other ↦ rw other (
                  rest
                  ∙ ap (λ l. l ++ having f v docs)
                      (lookup_list-append_to ⦃e = V.equal⦄ x v d before ∙ rw other refl))
              | inl same ↦ rw same (
                  rest
                  ∙ ap (λ l. l ++ having f v docs)
                      (lookup_list-append_to ⦃e = V.equal⦄ x v d before
                        ∙ rw same (
                            ap (λ y. lookup_list ⦃e = V.equal⦄ y before ++ d ∷ [])
                              ((V.equal.same_iff x v).0 same)))
                  ∙ append_assoc (lookup_list ⦃e = V.equal⦄ v before) (d ∷ []) (having f v docs))
            ]
      ]

  -- No value has two groups, and no group is empty.
  abbrev pub IsGrouping : Groups → Type 0
  IsGrouping [] = Unit
  IsGrouping ((v, docs) ∷ groups) =
      ((lookup ⦃e = V.equal⦄ v groups ≡ none) × (0 < length docs)) × IsGrouping groups

  insert-IsGrouping :
      (v : V.Value) (docs : List (Doc V)) (groups : Groups)
      → 0 < length docs
      → IsGrouping groups
      → IsGrouping (insert ⦃e = V.equal⦄ v docs groups)
  unfolding insert lookup
  insert-IsGrouping v docs [] l h = ((refl, l), tt)
  insert-IsGrouping v docs ((w, held) ∷ groups) l h = elim (Bool-cases (V.equal.same w v)) [
    | inl same ↦ rw same ((h.0.0, l), h.1)
    | inr other ↦ rw other (
      (lookup-insert ⦃e = V.equal⦄ v w docs groups ∙ rw (reversed v w other) h.0.0, h.0.1),
      insert-IsGrouping v docs groups l h.1,
    )
  ]
    where
      reversed : (v w : V.Value) → V.equal.same w v ≡ false → V.equal.same v w ≡ false
      reversed v w other = elim (Bool-cases (V.equal.same v w)) [
        | inr differ ↦ differ
        | inl same ↦ cc ((V.equal.same_iff w v).1 (sym ((V.equal.same_iff v w).0 same)), other)
      ]

  group_loop-IsGrouping :
      (f : String) (docs : List (Doc V)) (before after : Groups)
      → IsGrouping before
      → group_loop f docs before ≡ some after
      → IsGrouping after
  unfolding group_loop append_to
  group_loop-IsGrouping f [] before after h e = subst IsGrouping (some-eq e) h
  group_loop-IsGrouping f (d ∷ docs) before after h e =
      let x = value_at K f d in
      elim (Bool-cases (V.hashable x)) [
        | inr bad ↦ cc (rw bad at e)
        | inl good ↦
            let held = lookup_list ⦃e = V.equal⦄ x before in
            group_loop-IsGrouping f docs (append_to ⦃e = V.equal⦄ x d before) after
              (insert-IsGrouping x (held ++ d ∷ []) before
                (omega (arith, length-append held (d ∷ []))) h)
              (rw good at e)
      ]

  -- Where GROUP BY returns, its entries are those of groups in which the documents of each value
  -- are exactly the documents with that value in the field, in the order of the rows: no document
  -- is lost, repeated or put in another group. No value has two groups, and no group is empty.
  pub grouped-having :
      (f : String) (agg : Option Aggregated) (docs entries : List (Doc V))
      → grouped f agg docs ≡ some entries
      → (groups : Groups) × (entries ≡ group_entries f agg groups)
        × IsGrouping groups
        × ((v : V.Value) → lookup_list ⦃e = V.equal⦄ v groups ≡ having f v docs)
  unfolding grouped lookup_list lookup
  grouped-having f agg docs entries e = elim (Option-cases (group_loop f docs [])) [
    | inl raised ↦ cc (rw raised at e)
    | inr (groups, made) ↦ (
      groups,
      sym (some-eq (rw made at e)),
      group_loop-IsGrouping f docs [] groups tt made,
      λ v. group_loop-having f docs [] groups v made,
    )
  ]
