-- ===== src/Snapshot/Dicts.antt =====
-- Dicts in insertion order, each key once, as the loops of python/nedb/snapshot.py walk them.
use aof_db.Prelude.{
  ◌≡◌, refl, subst, sym, ◌∙◌, false, [], ◌∷◌, Dict, insert, keys, contains, Equality, ◌==◌, ◌||◌,
  arith, All, Bool-cases, inl, inr,
}

module _ {ℓ κ} {K : Type ℓ} {V : Type κ} ⦃e : Equality K⦄ where
  abbrev pub IsDistinct : Dict K V → Type 0
  IsDistinct [] = Unit
  IsDistinct ((k, v) ∷ m) = (contains (keys m) k ≡ false) × IsDistinct m

  contains-insert :
      (k j : K) (v : V) (m : Dict K V)
      → contains (keys (insert k v m)) j ≡ (k == j || contains (keys m) j)
  unfolding insert contains
  contains-insert k j v [] = ground arith
  contains-insert k j v ((h, w) ∷ m) =
      ground (arith, contains-insert k j v m, e.same_iff h k, e.same_iff h j, e.same_iff k j)

  pub insert-IsDistinct : (k : K) (v : V) (m : Dict K V) → IsDistinct m → IsDistinct (insert k v m)
  unfolding insert contains
  insert-IsDistinct k v [] h = (refl, tt)
  insert-IsDistinct k v ((j, w) ∷ m) (a, b) = elim (Bool-cases (j == k)) [
    | inl same ↦ rw same (a, b)
    | inr other ↦ rw other (
      (contains-insert k j v m ∙ ground (arith, e.same_iff k j, e.same_iff j k)),
      insert-IsDistinct k v m b,
    )
  ]

  pub insert-All {π} :
      (P : K × V → Type π) (k : K) (v : V) (m : Dict K V)
      → P (k, v)
      → All P m
      → All P (insert k v m)
  unfolding insert
  insert-All P k v [] p h = (p, tt)
  insert-All P k v ((j, w) ∷ m) p (a, b) = elim (Bool-cases (j == k)) [
    | inl same ↦ rw same (subst (λ i. P (i, v)) (sym ((e.same_iff j k).0 same)) p, b)
    | inr other ↦ rw other (a, insert-All P k v m p b)
  ]
