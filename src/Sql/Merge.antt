-- ===== src/Sql/Merge.antt =====
-- The lookups in `{**existing, **updates}` of python/nedb/sql.py: of a dict with distinct keys.
use aof_db.Prelude.{
  ◌≡◌, refl, Option, none, some, [], ◌∷◌, arith, lookup, insert, lookup-insert, ◌==◌, inl, inr,
  Bool-cases,
}
use aof_db.Prelude.Texts.{text_eq}
use aof_db.Sql.{Text, Value}
use aof_db.Sql.Writes.{Row, merge}

-- `a` where it is, or else `b`
abbrev pub or_else : Option Value → Option Value → Option Value
or_else none b = b
or_else (some v) b = some v

-- The keys of a row are distinct.
abbrev pub Distinct : Row → Type 0
Distinct [] = Unit
Distinct ((k, v) ∷ row) = (lookup k row ≡ none) × Distinct row

pub insert-Distinct : (k : Text) (v : Value) (row : Row) → Distinct row → Distinct (insert k v row)
unfolding insert lookup
insert-Distinct k v [] d = (refl, tt)
insert-Distinct k v ((j, w) ∷ row) (new, d) = elim (Bool-cases (j == k)) [
  | inl same ↦ rw same (new, d)
  | inr other ↦ rw other (
    ground (arith, lookup-insert k j v row, text_eq.same_iff j k, text_eq.same_iff k j, new),
    insert-Distinct k v row d,
  )
]

pub lookup-merge :
    (f : Text) (existing updates : Row)
    → Distinct updates
    → lookup f (merge existing updates) ≡ or_else (lookup f updates) (lookup f existing)
unfolding merge lookup
lookup-merge f existing [] d = refl
lookup-merge f existing ((j, w) ∷ updates) (new, d) = elim (Bool-cases (j == f)) [
  | inl same ↦ ground (
    arith,
    lookup-merge f (insert j w existing) updates d,
    lookup-insert j f w existing,
    text_eq.same_iff j f,
    new,
  )
  | inr other ↦
      ground
        (arith, lookup-merge f (insert j w existing) updates d, lookup-insert j f w existing, other)
]
