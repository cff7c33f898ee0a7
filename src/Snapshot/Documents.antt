-- ===== src/Snapshot/Documents.antt =====
-- The documents of a snapshot of python/nedb/snapshot.py: what is saved of a store and loaded again.
use aof_db.Prelude.{
  ℕ, ◌≤◌, ◌<◌, ◌≡◌, refl, ap, sym, subst, ◌∙◌, String, true, false, Option, none, some, List, [],
  ◌∷◌, Dict, lookup, insert, lookup-insert, lookup_list, keys, contains, lookup_absent, get_last?,
  All, All-weaken, sees, arith, map, string_eq, ◌==◌, if◌then◌else◌, Option-cases, Bool-cases, inl,
  inr, eq_iff, some-eq,
}
use aof_db.Store.{MvccStore, Version, tomb, live, empty, get, resolve}
use aof_db.Store.Invariant.{IsValid, chain, first}
use aof_db.Store.TimeTravel.{get-eq-read, read, newest, newer}
use aof_db.Store.Bisect.{IsSorted}
use aof_db.Snapshot.{Saved, saved_version, save_store, loaded_version, load_entry, load_store}
use aof_db.Snapshot.Dicts.{IsDistinct}

lookup_list-insert {ℓ} :
    {A : Type ℓ} (k j : String) (c : List A) (m : Dict String (List A))
    → lookup_list j (insert k c m) ≡ (if k == j then c else lookup_list j m)
unfolding lookup_list
lookup_list-insert k j c m = ground (arith, lookup-insert k j c m)

module _ {ℓ} {D : Type ℓ} where
  abbrev pub HasLast : List (ℕ × Version D) → Type ℓ
  HasLast c = (p : ℕ × Version D) × (get_last? c ≡ some p)

  -- The dict of versions has each key once, and no key without a version.
  pub record IsDict (s : MvccStore D) : Type ℓ where
    pub distinct : IsDistinct s.versions
    pub written : All (λ e. HasLast e.1) s.versions

  -- A saved store always loads: it has the last version of each key.
  pub save_store_total :
      (m : Dict String (List (ℕ × Version D)))
      → All (λ e. HasLast e.1) m
      → (d : Dict String (Saved D)) × (save_store m ≡ some d)
  unfolding save_store
  save_store_total [] h = ([], refl)
  save_store_total ((k, c) ∷ m) ((p, last), h) =
      let (d, e) = save_store_total m h in ((k, saved_version p) ∷ d, rw (last, e) refl)

  loaded-saved :
      (p : ℕ × Version D)
      → ((saved_version p).seq, loaded_version (saved_version p).deleted (saved_version p).v) ≡ p
  loaded-saved (q, tomb) = refl
  loaded-saved (q, live d) = refl

  abbrev last_only : List (ℕ × Version D) → Option (ℕ × Version D) → List (ℕ × Version D)
  last_only c none = c
  last_only c (some p) = p ∷ []

  abbrev found : Option (List (ℕ × Version D)) → List (ℕ × Version D) → List (ℕ × Version D)
  found none old = old
  found (some c) old = last_only [] (get_last? c)

  -- Loading what was saved of `m` puts the last version of each of its keys.
  load_store-save_store :
      (m : Dict String (List (ℕ × Version D))) (d : Dict String (Saved D)) (s : MvccStore D)
      (j : String)
      → IsDistinct m
      → save_store m ≡ some d
      → chain (load_store d s) j ≡ found (lookup j m) (chain s j)
  unfolding save_store load_store lookup
  load_store-save_store [] d s j h e = rw (← some-eq e) refl
  load_store-save_store ((k, c) ∷ m) d s j (absent, h) e = elim (Option-cases (get_last? c)) [
    | inl empty ↦ cc (rw empty at e)
    | inr (p, last) ↦ elim (Option-cases (save_store m)) [
      | inl raised ↦ cc (rw (last, raised) at e)
      | inr (d', good) ↦
          let split : (k, saved_version p) ∷ d' ≡ d = some-eq (rw (last, good) at e) in
          let rest = load_store-save_store m d' (load_entry k (saved_version p) s) j h good in
          let here =
            lookup_list-insert k j
              (((saved_version p).seq, loaded_version (saved_version p).deleted (saved_version p).v)
                ∷ [])
              s.versions in
          let old = chain (load_entry k (saved_version p) s) j in
          rw (← split, rest)
            (elim (Bool-cases (k == j)) [
              | inr other ↦ rw other (ap (found (lookup j m)) (here ∙ rw other refl))
              | inl same ↦
                  let gone : lookup j m ≡ none =
                    lookup_absent j m
                      (subst (λ i. contains (keys m) i ≡ false) ((eq_iff k j).0 same) absent) in
                  rw same (
                    ap (λ o. found o old) gone
                    ∙ here
                    ∙ rw same (ap (λ x. x ∷ []) (loaded-saved p))
                    ∙ sym (ap (last_only []) last))
            ])
    ]
  ]

  load_store-parallel :
      (d : Dict String (Saved D)) (s : MvccStore D)
      → ((k : String) → lookup_list k s.seqs ≡ map first (chain s k))
      → (k : String) → lookup_list k (load_store d s).seqs ≡ map first (chain (load_store d s) k)
  unfolding load_store
  load_store-parallel [] s h k = h k
  load_store-parallel ((j, e) ∷ d) s h k = load_store-parallel d (load_entry j e s) parallel k
    where
      parallel :
          (i : String)
          → lookup_list i (load_entry j e s).seqs ≡ map first (chain (load_entry j e s) i)
      parallel i =
          rw (lookup_list-insert, lookup_list-insert)
            (elim (Bool-cases (j == i)) [ inl same ↦ rw same refl | inr other ↦ rw other (h i) ])

get_last?-some {ℓ} : {A : Type ℓ} (x : A) (xs : List A) → (y : A) × (get_last? (x ∷ xs) ≡ some y)
get_last?-some x [] = (x, refl)
get_last?-some x (y ∷ xs) = get_last?-some y xs

module _ {ℓ} {D : Type ℓ} where
  newest-get_last? :
      (n : ℕ) (c : List (ℕ × Version D)) → All (λ q. q ≤ n) (map first c) → newest n c ≡ get_last? c
  unfolding newest
  newest-get_last? n [] h = refl
  newest-get_last? n (p ∷ []) (h, hs) = ground arith
  newest-get_last? n (p ∷ r ∷ c) (h, hs) =
      let (y, last) = get_last?-some r c in
      ap (λ o. newer o n p) (newest-get_last? n (r ∷ c) hs ∙ last) ∙ sym last

  get_last?-All :
      (P : ℕ → Type 0) (c : List (ℕ × Version D)) (p : ℕ × Version D)
      → All P (map first c)
      → get_last? c ≡ some p
      → P p.0
  get_last?-All P [] p h e = cc e
  get_last?-All P (r ∷ []) p (h, hs) e = subst (λ q. P q.0) (some-eq e) h
  get_last?-All P (r ∷ t ∷ c) p (h, hs) e = get_last?-All P (t ∷ c) p hs e

module _ {ℓ} {D : Type ℓ} (s : MvccStore D) (d : Dict String (Saved D)) (w : IsDict s)
    (e : save_store s.versions ≡ some d) where
  -- What is left of a chain of versions: the last one.
  last_of_chain : (k : String) → chain (load_store d empty) k ≡ last_only [] (get_last? (chain s k))
  unfolding lookup_list lookup
  last_of_chain k =
      load_store-save_store s.versions d empty k w.distinct e
      ∙ elim (Option-cases (lookup k s.versions)) [
        | inl absent ↦ rw absent refl
        | inr (c, there) ↦ rw there refl
      ]

  parallel_loaded :
      (k : String)
      → lookup_list k (load_store d empty).seqs ≡ map first (last_only [] (get_last? (chain s k)))
  parallel_loaded k =
      load_store-parallel d empty (λ j. unfold lookup_list lookup in refl) k
      ∙ ap (map first) (last_of_chain k)

  module _ (n : ℕ) (valid : IsValid n s) where
    bounded_chain : (k : String) → All (λ q. q < n) (map first (chain s k))
    bounded_chain k = subst (All (λ q. q < n)) (valid.parallel k) (valid.bounded k)

    pub load_store-IsValid : IsValid n (load_store d empty)
    load_store-IsValid = record {
      parallel = λ k. parallel_loaded k ∙ sym (ap (map first) (last_of_chain k));
      sorted = λ k. rw (parallel_loaded k) (sorted_last k (get_last? (chain s k)));
      bounded = λ k. rw (parallel_loaded k) (bounded_last k (get_last? (chain s k)) refl);
    }
      where
        sorted_last :
            (k : String) (o : Option (ℕ × Version D)) → IsSorted (map first (last_only [] o))
        sorted_last k none = tt
        sorted_last k (some p) = (tt, tt)

        bounded_last :
            (k : String) (o : Option (ℕ × Version D))
            → get_last? (chain s k) ≡ o
            → All (λ q. q < n) (map first (last_only [] o))
        bounded_last k none h = tt
        bounded_last k (some p) h =
            (get_last?-All (λ q. q < n) (chain s k) p (bounded_chain k) h, tt)

    -- A read at the head, or as of a seq that no version has passed, is as it was before.
    pub get-load_store :
        (k : String) (as_of : Option ℕ)
        → sees as_of n ≡ true
        → get k as_of (load_store d empty) ≡ get k as_of s
    get-load_store k as_of late =
        get-eq-read (load_store d empty) load_store-IsValid k as_of
        ∙ ap (read as_of) (last_of_chain k)
        ∙ read_last as_of late (get_last? (chain s k)) refl
        ∙ sym (get-eq-read s valid k as_of)
      where
        past : (m : ℕ) → sees (some m) n ≡ true → All (λ q. q ≤ m) (map first (chain s k))
        past m late = All-weaken _ _ (λ q h. ground arith) (bounded_chain k)

        at_last :
            (m : ℕ) (p : ℕ × Version D)
            → sees (some m) n ≡ true
            → get_last? (chain s k) ≡ some p
            → p.0 ≤ m
        at_last m p late h = get_last?-All (λ q. q ≤ m) (chain s k) p (past m late) h

        read_last :
            (as_of : Option ℕ)
            → sees as_of n ≡ true
            → (o : Option (ℕ × Version D)) → get_last? (chain s k) ≡ o
            → read as_of (last_only [] o) ≡ read as_of (chain s k)
        read_last none late none h = unfold read in ap resolve (sym h)
        read_last none late (some p) h = unfold read in ap resolve (sym h)
        read_last (some m) late none h =
            unfold read in
            unfold newest in ap resolve (sym (newest-get_last? m (chain s k) (past m late) ∙ h))
        read_last (some m) late (some p) h =
            unfold read in
            ap resolve (
              newest-get_last? m (p ∷ []) (at_last m p late h, tt)
              ∙ sym (newest-get_last? m (chain s k) (past m late) ∙ h))
