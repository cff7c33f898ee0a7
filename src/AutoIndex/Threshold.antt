-- ===== src/AutoIndex/Threshold.antt =====
-- When python/nedb/autoindex.py makes an index.
use aof_db.Prelude.{
  ◌≤◌, ℕ, suc, ◌+◌, ◌≡◌, refl, ap, sym, subst, ◌∙◌, Bool, true, false, not, List, [], ◌∷◌, ◌++◌,
  Dict, lookup, insert, lookup-insert, contains, contains-append, leb, if◌then◌else◌, ◌==◌, ◌&&◌,
  ◌||◌, string_eq, pair_eq, pair_beq_iff, append-nil, append_assoc, Bool-cases, inl, inr, arith,
}
use aof_db.AutoIndex.{
  Signal, Tallies, count_of, is_internal, auto_create, counted, observe, observe_all, opened,
}

signal_eq : (j k : Signal) → (j == k) ≡ true → j ≡ k
signal_eq j k h = (pair_beq_iff pair_eq string_eq j k).0 h

-- How often a signal was seen.
abbrev pub occurrences : Signal → List Signal → ℕ
occurrences k [] = 0
occurrences k (j ∷ signals) = let rest = occurrences k signals in if j == k then suc rest else rest

-- Is the tally at the threshold, of a signal that was seen?
abbrev pub is_due : ℕ → Signal → ℕ → ℕ → Bool
is_due threshold k before times =
    not (is_internal k) && (leb 1 times && leb threshold (before + times))

count_of-insert :
    (j k : Signal) (n : ℕ) (m : Dict Signal ℕ)
    → count_of k (insert j n m) ≡ (if j == k then n else count_of k m)
count_of-insert j k n m = elim (Bool-cases (j == k)) [
  | inl same ↦ rw same (rw (lookup-insert, same) refl)
  | inr other ↦ rw other (rw (lookup-insert, other) refl)
]

or_false : (b : Bool) → b ≡ (b || false)
or_false true = refl
or_false false = refl

contains_last :
    (xs : List Signal) (j k : Signal) → contains (xs ++ j ∷ []) k ≡ (contains xs k || j == k)
contains_last xs j k =
    contains-append xs (j ∷ []) k
    ∙ ap (λ b. contains xs k || b) (unfold contains in sym (or_false (j == k)))

same_signal : (j : Signal) → (j == j) ≡ true
same_signal j = (pair_beq_iff pair_eq string_eq j j).1 refl

count_of_same : (j : Signal) (n : ℕ) (m : Dict Signal ℕ) → count_of j (insert j n m) ≡ n
count_of_same j n m = count_of-insert j j n m ∙ rw (same_signal j) refl

never : (i c b : Bool) → c ≡ (c || (not i && (leb 1 0 && b)))
never i c b = ground arith

unrelated : (c x i d : Bool) → ((c || (x && (not i && false))) || d) ≡ (c || d)
unrelated c x i d = ground arith

one_step :
    (threshold n times : ℕ) (c i : Bool)
    → ((c || (leb threshold (n + 1) && (not i && true)))
        || (not i && (leb 1 times && leb threshold (n + 1 + times))))
      ≡ (c || (not i && (leb 1 (suc times) && leb threshold (n + suc times))))
one_step threshold n times c i = ground arith

from_zero :
    (threshold times : ℕ)
    → 1 ≤ threshold
    → (leb 1 times && leb threshold (0 + times)) ≡ leb threshold times
from_zero threshold times h = ground arith

module _ {S : Type 0} (create_index : Signal → S → S) (threshold : ℕ) where
  abbrev looked : Signal → Tallies S → Bool × ℕ
  looked k t = (contains t.created k, count_of k t.counts)

  auto_create_lem :
      (j k : Signal) (t : Tallies S)
      → looked k (auto_create create_index j t) ≡ (
        contains t.created k || (not (contains t.created j) && (not (is_internal j) && j == k)),
        count_of k t.counts,
      )
  unfolding auto_create
  auto_create_lem j k t = elim (Bool-cases (contains t.created j)) [
    | inl there ↦ rw there (ap (λ b. (b, count_of k t.counts)) (or_false (contains t.created k)))
    | inr new ↦ elim (Bool-cases (is_internal j)) [
      | inl hidden ↦
          rw (new, hidden) (ap (λ b. (b, count_of k t.counts)) (or_false (contains t.created k)))
      | inr open_field ↦
          rw (new, open_field) (ap (λ b. (b, count_of k t.counts)) (contains_last t.created j k))
    ]
  ]

  -- A signal that has its index is passed over.
  observe_created :
      (j : Signal) (t : Tallies S)
      → contains t.created j ≡ true
      → observe create_index threshold j t ≡ t
  unfolding observe
  observe_created j t h = rw h refl

  observe_due :
      (j : Signal) (t : Tallies S)
      → contains t.created j ≡ false
      → leb threshold (count_of j t.counts + 1) ≡ true
      → observe create_index threshold j t ≡ auto_create create_index j (counted j t)
  unfolding observe
  observe_due j t new due = rw (new, count_of_same j (count_of j t.counts + 1) t.counts, due) refl

  observe_early :
      (j : Signal) (t : Tallies S)
      → contains t.created j ≡ false
      → leb threshold (count_of j t.counts + 1) ≡ false
      → observe create_index threshold j t ≡ counted j t
  unfolding observe
  observe_early j t new early =
      rw (new, count_of_same j (count_of j t.counts + 1) t.counts, early) refl

  abbrev count_after : Signal → Signal → Tallies S → ℕ
  count_after j k t = if j == k then count_of j t.counts + 1 else count_of k t.counts

  observe_new :
      (j k : Signal) (t : Tallies S)
      → contains t.created j ≡ false
      → looked k (observe create_index threshold j t) ≡ (
        contains t.created k
            || (leb threshold (count_of j t.counts + 1) && (not (is_internal j) && j == k)),
        count_after j k t,
      )
  observe_new j k t new =
      let counts = count_of-insert j k (count_of j t.counts + 1) t.counts in
      elim (Bool-cases (leb threshold (count_of j t.counts + 1))) [
        | inl due ↦ rw due (
            ap (looked k) (observe_due j t new due)
            ∙ auto_create_lem j k (counted j t)
            ∙ rw new
                (ap (λ n. (contains t.created k || (not (is_internal j) && j == k), n)) counts))
        | inr early ↦ rw early (
            ap (looked k) (observe_early j t new early)
            ∙ ap (λ n. (contains t.created k, n)) counts
            ∙ ap (λ b. (b, count_after j k t)) (or_false (contains t.created k)))
      ]

  created_lem :
      (signals : List Signal) (k : Signal) (t : Tallies S)
      → contains (observe_all create_index threshold signals t).created k
        ≡ (contains t.created k || is_due threshold k (count_of k t.counts) (occurrences k signals))
  unfolding observe_all
  created_lem [] k t =
      never (is_internal k) (contains t.created k) (leb threshold (count_of k t.counts + 0))
  created_lem (j ∷ signals) k t = elim (Bool-cases (contains t.created j)) [
    | inl there ↦
        ap (λ u. contains (observe_all create_index threshold signals u).created k)
          (observe_created j t there)
        ∙ created_lem signals k t
        ∙ elim (Bool-cases (j == k)) [
          | inr other ↦ rw other refl
          | inl same ↦
              let held : contains t.created k ≡ true =
                subst (λ i. contains t.created i ≡ true) (signal_eq j k same) there in
              rw held refl
        ]
    | inr new ↦
        created_lem signals k (observe create_index threshold j t)
        ∙ ap (λ p. p.0 || is_due threshold k p.1 (occurrences k signals)) (observe_new j k t new)
        ∙ elim (Bool-cases (j == k)) [
          | inr other ↦ rw other (
              unrelated (contains t.created k) (leb threshold (count_of j t.counts + 1))
                (is_internal j) (is_due threshold k (count_of k t.counts) (occurrences k signals)))
          | inl same ↦
              rw (same, signal_eq j k same)
                (one_step threshold (count_of k t.counts) (occurrences k signals)
                  (contains t.created k) (is_internal k))
        ]
  ]

-- The database after `create_index` for each of the signals, in their order.
abbrev pub indexed : {S : Type 0} → (Signal → S → S) → List Signal → S → S
indexed create_index [] db = db
indexed create_index (k ∷ signals) db = indexed create_index signals (create_index k db)

-- What became of the tallies: these signals were added to `created`, and no others were indexed.
record Indexed {S : Type 0} (create_index : Signal → S → S) (t u : Tallies S) : Type 0 where
  added : List Signal
  noted : u.created ≡ t.created ++ added
  made : u.db ≡ indexed create_index added t.db

module _ {S : Type 0} (create_index : Signal → S → S) (threshold : ℕ) where
  Indexed-auto_create :
      (k : Signal) (t : Tallies S) → Indexed create_index t (auto_create create_index k t)
  unfolding auto_create
  Indexed-auto_create k t = elim (Bool-cases (contains t.created k)) [
    | inl there ↦ rw there (none_added t)
    | inr new ↦ elim (Bool-cases (is_internal k)) [
      | inl hidden ↦ rw (new, hidden) (none_added t)
      | inr open_field ↦ rw (new, open_field) (record { added = k ∷ []; noted = refl; made = refl })
    ]
  ]
    where
      none_added : (t : Tallies S) → Indexed create_index t t
      none_added t = record { added = []; noted = sym (append-nil t.created); made = refl }

  Indexed-observe :
      (k : Signal) (t : Tallies S) → Indexed create_index t (observe create_index threshold k t)
  Indexed-observe k t = elim (Bool-cases (contains t.created k)) [
    | inl there ↦
        subst (Indexed create_index t) (sym (observe_created create_index threshold k t there))
          (record { added = []; noted = sym (append-nil t.created); made = refl })
    | inr new ↦ elim (Bool-cases (leb threshold (count_of k t.counts + 1))) [
      | inl due ↦
          let i = Indexed-auto_create k (counted k t) in
          subst (Indexed create_index t) (sym (observe_due create_index threshold k t new due))
            (record { added = i.added; noted = i.noted; made = i.made })
      | inr early ↦
          subst (Indexed create_index t) (sym (observe_early create_index threshold k t new early))
            (record { added = []; noted = sym (append-nil t.created); made = refl })
    ]
  ]

  indexed-append :
      (xs ys : List Signal) (db : S)
      → indexed create_index (xs ++ ys) db ≡ indexed create_index ys (indexed create_index xs db)
  indexed-append [] ys db = refl
  indexed-append (k ∷ xs) ys db = indexed-append xs ys (create_index k db)

  Indexed-observe_all :
      (signals : List Signal) (t : Tallies S)
      → Indexed create_index t (observe_all create_index threshold signals t)
  unfolding observe_all
  Indexed-observe_all [] t = record { added = []; noted = sym (append-nil t.created); made = refl }
  Indexed-observe_all (k ∷ signals) t =
      let one = Indexed-observe k t in
      let rest = Indexed-observe_all signals (observe create_index threshold k t) in
      record {
        added = one.added ++ rest.added;
        noted =
            rest.noted
            ∙ ap (λ c. c ++ rest.added) one.noted
            ∙ append_assoc t.created one.added rest.added;
        made =
            rest.made
            ∙ ap (indexed create_index rest.added) one.made
            ∙ sym (indexed-append one.added rest.added t.db);
      }

pub created-observe_all :
    {S : Type 0} (create_index : Signal → S → S) (threshold : ℕ) (config signals : List Signal)
    (db : S) (k : Signal)
    → 1 ≤ threshold
    → (contains (observe_all create_index threshold signals (opened config db)).created k
        ≡ (contains config k || (not (is_internal k) && leb threshold (occurrences k signals))))
      × ((added : List Signal) × ((observe_all create_index threshold signals
              (opened config db)).created
            ≡ config ++ added)
          × ((observe_all create_index threshold signals (opened config db)).db
              ≡ indexed create_index added db))
unfolding contains lookup
created-observe_all create_index threshold config signals db k h =
    let i = Indexed-observe_all create_index threshold signals (opened config db) in
    (
      (created_lem create_index threshold signals k (opened config db)
          ∙ ap (λ b. contains config k || (not (is_internal k) && b))
              (from_zero threshold (occurrences k signals) h)),
      (i.added, i.noted, i.made),
    )
