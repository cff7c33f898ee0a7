-- ===== src/Store/Invariant.antt =====
-- The well-formedness of the store of python/nedb/store.py, and the history that it stands for.
use aof_db.Prelude.{
  ℕ, ◌≤◌, ◌<◌, ◌≡◌, refl, sym, String, List, [], ◌∷◌, ◌++◌, All, All-append, All-weaken, arith,
  lookup, lookup_list, if◌then◌else◌, ◌==◌, string_eq, lookup_list-append_to, map, map-append_last,
  Bool-cases, inl, inr,
}
use aof_db.Store.{Version, MvccStore, empty, write}
use aof_db.Store.Bisect.{IsSorted}

abbrev pub first {ℓ} : {V : Type ℓ} → ℕ × Version V → ℕ
first p = p.0

IsSorted-append :
    (xs : List ℕ) (n : ℕ) → IsSorted xs → All (λ y. y ≤ n) xs → IsSorted (xs ++ n ∷ [])
IsSorted-append [] n s h = (tt, tt)
IsSorted-append (x ∷ xs) n s h =
    (All-append (λ y. x ≤ y) xs (n ∷ []) s.0 (h.0, tt), IsSorted-append xs n s.1 h.1)

module _ {ℓ} {V : Type ℓ} where
  abbrev pub chain : MvccStore V → String → List (ℕ × Version V)
  chain s k = lookup_list k s.versions

  -- The two dicts run in parallel, every chain ascends, and every seq is below `n`.
  pub record IsValid (n : ℕ) (s : MvccStore V) : Type ℓ where
    pub parallel : (k : String) → lookup_list k s.seqs ≡ map first (chain s k)
    pub sorted : (k : String) → IsSorted (lookup_list k s.seqs)
    pub bounded : (k : String) → All (λ q. q < n) (lookup_list k s.seqs)

  pub IsValid-empty : IsValid 0 (empty {V = V})
  unfolding lookup_list lookup
  IsValid-empty = record { parallel = λ k. refl; sorted = λ k. tt; bounded = λ k. tt }

  pub chain-write :
      (k j : String) (v : Version V) (q : ℕ) (s : MvccStore V)
      → chain (write k v q s) j ≡ (if k == j then chain s k ++ (q, v) ∷ [] else chain s j)
  unfolding write
  chain-write k j v q s = lookup_list-append_to k j (q, v) s.versions

  pub seqs-write :
      (k j : String) (v : Version V) (q : ℕ) (s : MvccStore V)
      → lookup_list j (write k v q s).seqs
        ≡ (if k == j then lookup_list k s.seqs ++ q ∷ [] else lookup_list j s.seqs)
  unfolding write
  seqs-write k j v q s = lookup_list-append_to k j q s.seqs

  -- A write at a seq that no version has passed keeps the store well formed.
  pub write-IsValid :
      (k : String) (v : Version V) (n q m : ℕ) (s : MvccStore V)
      → n ≤ q
      → q < m
      → IsValid n s
      → IsValid m (write k v q s)
  write-IsValid k v n q m s nq qm valid = record {
    parallel = λ j. elim (Bool-cases (k == j)) [
      | inl same ↦
          rw (chain-write, seqs-write, same, valid.parallel k)
            (sym (map-append_last first (chain s k) (q, v)))
      | inr other ↦ rw (chain-write, seqs-write, other) (valid.parallel j)
    ];
    sorted = λ j. elim (Bool-cases (k == j)) [
      | inl same ↦
          rw (seqs-write, same)
            (IsSorted-append (lookup_list k s.seqs) q (valid.sorted k)
              (All-weaken _ (lookup_list k s.seqs) (λ y h. omega arith) (valid.bounded k)))
      | inr other ↦ rw (seqs-write, other) (valid.sorted j)
    ];
    bounded = λ j. elim (Bool-cases (k == j)) [
      | inl same ↦
          rw (seqs-write, same)
            (All-append _ (lookup_list k s.seqs) (q ∷ [])
              (All-weaken _ (lookup_list k s.seqs) (λ y h. omega arith) (valid.bounded k)) (qm, tt))
      | inr other ↦
          rw (seqs-write, other)
            (All-weaken _ (lookup_list j s.seqs) (λ y h. omega arith) (valid.bounded j))
    ];
  }
