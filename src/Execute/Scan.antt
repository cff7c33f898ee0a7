-- ===== src/Execute/Scan.antt =====
-- The rows that `execute` of python/nedb/engine.py loads from its candidates, and those of the scan.
use text.Mathlib.Text.{starts_with}
use text.Mathlib.TextPositions.{starts_with-append}
use text.Mathlib.TextLemmas.{nil-append}
use aof_db.Prelude.{
  ℕ, ◌≡◌, refl, ap, sym, ◌∙◌, subst, String, Bool, true, false, Option, none, some, List, [], ◌∷◌,
  contains, Bool-cases, inl, inr, arith, string_eq, ◌==◌, ◌&&◌, ◌||◌, eq_iff,
}
use aof_db.Store as Store
use aof_db.Store.{MvccStore}
use aof_db.Store.Keys.{contains-keys_of, has_prefix, is_found}
use aof_db.Index.{Values, Doc}
use aof_db.Execute.{Comparisons, Plan, Rows, prefix_of, load_rows, scan, row_if}

module _ {F : Type 0} {V : Values F} (K : Comparisons V) where
  abbrev pub row_keys : Rows K → List String
  row_keys [] = []
  row_keys ((key, doc) ∷ rows) = key ∷ row_keys rows

  -- A document is there and passes the test.
  abbrev pub passes : (Doc V → Bool) → Option (Doc V) → Bool
  passes test none = false
  passes test (some doc) = test doc

  contains-row_if :
      (test : Doc V → Bool) (j key : String) (found : Option (Doc V)) (rest : Rows K)
      → contains (row_keys (row_if K test j found rest)) key
        ≡ (j == key && passes test found || contains (row_keys rest) key)
  unfolding contains
  contains-row_if test j key none rest = ground arith
  contains-row_if test j key (some doc) rest = elim (Bool-cases (test doc)) [
    | inl good ↦ rw good (ground arith)
    | inr bad ↦ rw bad (ground arith)
  ]

  pub contains-load_rows :
      (test : Doc V → Bool) (as_of : Option ℕ) (s : MvccStore (Doc V)) (keys : List String)
      (key : String)
      → contains (row_keys (load_rows K test as_of s keys)) key
        ≡ (contains keys key && passes test (Store.get key as_of s))
  unfolding load_rows contains
  contains-load_rows test as_of s [] key = refl
  contains-load_rows test as_of s (j ∷ keys) key =
      contains-row_if test j key (Store.get j as_of s) (load_rows K test as_of s keys)
      ∙ elim (Bool-cases (j == key)) [
        | inr other ↦ rw other (contains-load_rows test as_of s keys key)
        | inl same ↦ rw same (
            subst
              (λ x.
                (passes test (Store.get x as_of s)
                  || contains (row_keys (load_rows K test as_of s keys)) key)
                ≡ passes test (Store.get key as_of s))
              (sym ((eq_iff j key).0 same))
              (ground (arith, contains-load_rows test as_of s keys key)))
      ]

  starts_with_empty : (prefix key : String) → prefix ≡ "" → starts_with key prefix ≡ true
  starts_with_empty prefix key e =
      subst (λ t. starts_with key t ≡ true) (sym e)
        (subst (λ t. starts_with t "" ≡ true) (nil-append key) (starts_with-append "" key))

  has_prefix-eq : (prefix key : String) → has_prefix prefix key ≡ starts_with key prefix
  has_prefix-eq prefix key = elim (Bool-cases (prefix == "")) [
    | inl same ↦ rw same (sym (starts_with_empty prefix key ((eq_iff prefix "").0 same)))
    | inr other ↦ rw other refl
  ]

  passes-is_found :
      (test : Doc V → Bool) (found : Option (Doc V))
      → (is_found found && passes test found) ≡ passes test found
  passes-is_found test none = refl
  passes-is_found test (some doc) = refl

  -- The rows of the scan.
  pub found_by_scan :
      (test : Doc V → Bool) (s : MvccStore (Doc V)) (p : Plan K) (key : String)
      → contains (row_keys (load_rows K test p.as_of s (scan K s p))) key
        ≡ (starts_with key (prefix_of p.coll) && passes test (Store.get key p.as_of s))
  unfolding scan
  found_by_scan test s p key =
      contains-load_rows test p.as_of s (scan K s p) key
      ∙ ap (λ b. b && passes test (Store.get key p.as_of s))
          (contains-keys_of (prefix_of p.coll) p.as_of s key
            ∙ ap (λ b. b && is_found (Store.get key p.as_of s))
                (has_prefix-eq (prefix_of p.coll) key))
      ∙ ground (arith, passes-is_found test (Store.get key p.as_of s))
