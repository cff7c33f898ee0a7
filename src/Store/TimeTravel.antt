-- ===== src/Store/TimeTravel.antt =====
-- Reads of the store of python/nedb/store.py, at the head and in the past.
use aof_db.Prelude.{
  ℕ, zero, suc, ◌≤◌, ◌≡◌, refl, ap, sym, subst, String, Option, none, some, List, [], ◌∷◌, ◌++◌,
  map, arith, get_elem?-some, get_last?, get_last?-append, lookup_list, leb, if◌then◌else◌, ◌==◌,
  string_eq, Bool-cases, inl, inr, ◌&&◌, sees, eq_iff, length-map,
}
use aof_db.Store.{
  Version, MvccStore, write, put, delete, get, live, tomb, value_of, resolve, version_before,
  bisect_right,
}
use aof_db.Store.Bisect.{Splits, Splits-tail_zero, Splits-tail, bisect_right-Splits}
use aof_db.Store.Invariant.{first, chain, IsValid, chain-write, write-IsValid}

module _ {ℓ} {V : Type ℓ} where
  -- the head version if `as_of` is none, else the last one in the chain with seq at most `as_of`
  abbrev pub newer : Option (ℕ × Version V) → ℕ → ℕ × Version V → Option (ℕ × Version V)
  newer (some w) n p = some w
  newer none n p = if leb p.0 n then some p else none

  unfoldable pub newest : ℕ → List (ℕ × Version V) → Option (ℕ × Version V)
  newest n [] = none
  newest n (p ∷ c) = newer (newest n c) n p

  -- The history of a key, as a list searched from its end: no bisection, no parallel list.
  unfoldable pub read : Option ℕ → List (ℕ × Version V) → Option V
  read none c = resolve (get_last? c)
  read (some n) c = resolve (newest n c)

  newest-Splits :
      (n : ℕ) (c : List (ℕ × Version V)) (i : ℕ)
      → Splits (map first c) n i
      → newest n c ≡ version_before c i
  unfolding newest
  newest-Splits n [] zero h = refl
  newest-Splits n [] (suc i) h = absurd (omega (arith, h.within))
  newest-Splits n (p ∷ c) zero h =
      ground
        (arith, newest-Splits n c zero (Splits-tail_zero h), h.above 0 (omega arith) (omega arith))
  newest-Splits n (p ∷ c) (suc zero) h =
      ground (arith, newest-Splits n c zero (Splits-tail h), h.below 0 (omega arith))
  newest-Splits n (p ∷ c) (suc (suc i)) h =
      let (w, found) = get_elem?-some c i (omega (arith, h.within, length-map first c)) in
      rw (newest-Splits n c (suc i) (Splits-tail h), found)

  -- Every read of a well-formed store, at the head or as of any seq, is the read of the key's
  -- history.
  pub get-eq-read :
      {m : ℕ} (s : MvccStore V)
      → IsValid m s
      → (k : String) (as_of : Option ℕ) → get k as_of s ≡ read as_of (chain s k)
  unfolding get read
  get-eq-read s valid k none = refl
  get-eq-read s valid k (some n) =
      let split = bisect_right-Splits (lookup_list k s.seqs) n (valid.sorted k) in
      ap resolve (
        sym (
          newest-Splits n (chain s k) (bisect_right (lookup_list k s.seqs) n) (
            subst (λ t. Splits t n (bisect_right (lookup_list k s.seqs) n)) (valid.parallel k)
              split)))

  newest-append :
      (n q : ℕ) (v : Version V) (c : List (ℕ × Version V))
      → newest n (c ++ (q, v) ∷ []) ≡ (if leb q n then some (q, v) else newest n c)
  unfolding newest
  newest-append n q v [] = refl
  newest-append n q v (p ∷ c) = ground (arith, newest-append n q v c)

  read-append :
      (as_of : Option ℕ) (q : ℕ) (v : Version V) (c : List (ℕ × Version V))
      → read as_of (c ++ (q, v) ∷ []) ≡ (if sees as_of q then value_of v else read as_of c)
  unfolding read
  read-append none q v c = rw get_last?-append
  read-append (some n) q v c = ground (arith, newest-append n q v c)

  get-write :
      (s : MvccStore V) (m q : ℕ)
      → IsValid m s
      → m ≤ q
      → (k j : String) (v : Version V) (as_of : Option ℕ)
      → get j as_of (write k v q s) ≡ (if k == j && sees as_of q then value_of v else get j as_of s)
  get-write s m q valid h k j v as_of =
      let after = write-IsValid k v m q (suc q) s h (omega arith) valid in
      rw (get-eq-read (write k v q s) after j as_of, get-eq-read s valid j as_of, chain-write)
        (elim (Bool-cases (k == j)) [
          | inl same ↦ let e : k ≡ j = (eq_iff k j).0 same in rw same (rw (read-append, e))
          | inr other ↦ rw other
        ])

  -- After a put of `k` at a seq that no version has passed, a read of `j` gives the new value if
  -- `j` is `k` and the read is at the head or as of that seq or a later one; every other read, of
  -- the past or of another key, is as before.
  pub get-put :
      (s : MvccStore V) (m q : ℕ)
      → IsValid m s
      → m ≤ q
      → (k j : String) (v : V) (as_of : Option ℕ)
      → get j as_of (put k v q s) ≡ (if k == j && sees as_of q then some v else get j as_of s)
  unfolding put
  get-put s m q valid h k j v as_of = get-write s m q valid h k j (live v) as_of

  -- After a delete of `k` the same reads find nothing, and all others are as before.
  pub get-delete :
      (s : MvccStore V) (m q : ℕ)
      → IsValid m s
      → m ≤ q
      → (k j : String) (as_of : Option ℕ)
      → get j as_of (delete k q s) ≡ (if k == j && sees as_of q then none else get j as_of s)
  unfolding delete
  get-delete s m q valid h k j as_of = get-write s m q valid h k j tomb as_of
