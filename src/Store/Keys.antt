-- ===== src/Store/Keys.antt =====
-- The key listing of python/nedb/store.py.
use text.Mathlib.Text.{starts_with}
use aof_db.Prelude.{
  ℕ, ◌≡◌, refl, String, Option, none, some, List, [], ◌∷◌, Bool, true, false, ◌&&◌, ◌||◌, ◌==◌,
  string_eq, arith, contains, keys, lookup, lookup_list, lookup_absent, eq_iff, Bool-cases, inl,
  inr, zero, suc,
}
use aof_db.Store.{MvccStore, get, keys_loop, keys_of, version_before}

abbrev pub is_found {ℓ} : {V : Type ℓ} → Option V → Bool
is_found none = false
is_found (some v) = true

-- the prefix test of `keys`
abbrev pub has_prefix : String → String → Bool
has_prefix prefix k = prefix == "" || starts_with k prefix

module _ {ℓ} {V : Type ℓ} where
  contains-keys_loop :
      (ks : List String) (prefix : String) (as_of : Option ℕ) (s : MvccStore V) (k : String)
      → contains (keys_loop ks prefix as_of s) k
        ≡ (contains ks k && (has_prefix prefix k && is_found (get k as_of s)))
  unfolding keys_loop contains
  contains-keys_loop [] prefix as_of s k = refl
  contains-keys_loop (j ∷ ks) prefix as_of s k = elim (Bool-cases (j == k)) [
    | inl same ↦
        let e : j ≡ k = (eq_iff j k).0 same in
        rw e (ground (arith, contains-keys_loop ks prefix as_of s k, eq_iff k k))
    | inr other ↦ ground (arith, contains-keys_loop ks prefix as_of s k)
  ]

  version_before-nil : (i : ℕ) → version_before {V = V} [] i ≡ none
  version_before-nil zero = refl
  version_before-nil (suc i) = refl

  get_absent :
      (k : String) (as_of : Option ℕ) (s : MvccStore V)
      → lookup k s.versions ≡ none
      → get k as_of s ≡ none
  unfolding get lookup_list
  get_absent k none s h = rw h
  get_absent k (some n) s h = rw (h, version_before-nil)

  -- A key is listed exactly when it has the prefix and a read of it, as of the same seq, finds a
  -- value.
  pub contains-keys_of :
      (prefix : String) (as_of : Option ℕ) (s : MvccStore V) (k : String)
      → contains (keys_of prefix as_of s) k ≡ (has_prefix prefix k && is_found (get k as_of s))
  unfolding keys_of
  contains-keys_of prefix as_of s k = elim (Bool-cases (contains (keys s.versions) k)) [
    | inl known ↦ rw (contains-keys_loop, known)
    | inr absent ↦
        rw (contains-keys_loop, absent, get_absent k as_of s (lookup_absent k s.versions absent))
          (ground arith)
  ]
