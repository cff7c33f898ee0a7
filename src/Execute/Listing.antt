-- ===== src/Execute/Listing.antt =====
-- That the equality indexes of python/nedb/engine.py list the documents at the head of the store, for
-- collections whose names have no dot and no colon.
use text.Mathlib.Text.{starts_with}
use text.Mathlib.TextPositions.{starts_with-append}
use text.Mathlib.TextLemmas.{append_assoc as joined_assoc}
use aof_db.Prelude.{
  ℕ, ◌≡◌, ◌≢◌, refl, ap, sym, ◌∙◌, subst, String, true, Option, none, some, lookup, insert,
  contains, inl, inr, some-eq, arith, String-cases, string_eq, eq_iff,
}
use aof_db.Store as Store
use aof_db.Store.Invariant as Stored
use aof_db.Store.TimeTravel.{get-put, get-delete}
use aof_db.Index.{Values, Doc, Indexes, add, held_ids, has_eq}
use aof_db.Index.Lookup.{Lacks, IsPlain}
use aof_db.Index.Names.{same_prefix}
use aof_db.Index.Others.{
  add_kept, remove_kept, add_listed, add_source, remove_source, has_eq_before_add,
  has_eq_before_remove,
}
use aof_db.Engine.{
  Payload, put, delete, link, unlink, put_file, State, apply_payload, re_index, add_after,
  with_indexes,
}
use aof_db.Engine.Mutations.{key_of}
use aof_db.Execute.{prefix_of}

-- A name with no dot and no colon.
abbrev pub IsName : String → Type 0
IsName coll = IsPlain coll × Lacks 58 coll

starts_with-key_of : (coll id : String) → starts_with (key_of coll id) (prefix_of coll) ≡ true
starts_with-key_of coll id =
    rw (← joined_assoc coll ":" id) (starts_with-append (prefix_of coll) id)

module _ {F : Type 0} (V : Values F) where
  -- A put or a delete of `coll:id` in a collection with such a name.
  abbrev pub Named : Payload V → Type 0
  Named (put key coll id doc) = (key ≡ key_of coll id) × IsName coll
  Named (delete key coll id) = (key ≡ key_of coll id) × IsName coll
  Named (link frm rel to) = Unit
  Named (unlink frm rel to) = Unit
  Named (put_file name tier version root) = Unit

  pub record Listed (s : State V) : Type 0 where
    -- A document at the head is listed under the value of each of its indexed fields.
    pub complete :
        (coll key field : String) (doc : Doc V) (v : V.Value)
        → IsName coll
        → starts_with key (prefix_of coll) ≡ true
        → has_eq V coll field s.indexes ≡ true
        → Store.get key none s.store ≡ some doc
        → lookup field doc ≡ some v
        → contains (held_ids V coll field v s.indexes) key ≡ true
    -- What an index lists are keys of its collection.
    pub within :
        (coll key field : String) (v : V.Value)
        → IsName coll
        → has_eq V coll field s.indexes ≡ true
        → contains (held_ids V coll field v s.indexes) key ≡ true
        → starts_with key (prefix_of coll) ≡ true

  -- The same for indexes alone, but for one key.
  record ListedBut (key : String) (s : State V) (ix : Indexes V) : Type 0 where
    others :
        (coll j field : String) (doc : Doc V) (v : V.Value)
        → key ≢ j
        → IsName coll
        → starts_with j (prefix_of coll) ≡ true
        → has_eq V coll field ix ≡ true
        → Store.get j none s.store ≡ some doc
        → lookup field doc ≡ some v
        → contains (held_ids V coll field v ix) j ≡ true
    members :
        (coll j field : String) (v : V.Value)
        → IsName coll
        → has_eq V coll field ix ≡ true
        → contains (held_ids V coll field v ix) j ≡ true
        → starts_with j (prefix_of coll) ≡ true

  re_index-ListedBut :
      (coll key : String) (old : Option (Doc V)) (s : State V) (ix : Indexes V)
      → IsName coll
      → Listed s
      → re_index V coll key old s.indexes ≡ some ix
      → ListedBut key s ix
  re_index-ListedBut coll key none s ix n h e = subst (ListedBut key s) (some-eq e) (record {
    others = λ c j f d v apart m p k g at. h.complete c j f d v m p k g at;
    members = h.within;
  })
  re_index-ListedBut coll key (some old) s ix n h e = record {
    others = λ c j f d v apart m p k g at.
        remove_kept V coll key old s.indexes ix c f v j apart n.0 m.0 e k (
          h.complete c j f d v m p (has_eq_before_remove V coll key old s.indexes ix c f e k) g at);
    members = λ c j f v m k held.
        h.within c j f v m (has_eq_before_remove V coll key old s.indexes ix c f e k)
          (remove_source V coll key old s.indexes ix c f v j n.0 m.0 e k held);
  }

  with_indexes-some :
      (ix : Option (Indexes V)) (s t : State V)
      → with_indexes V ix s ≡ some t
      → (ix' : Indexes V) × (ix ≡ some ix') × (t ≡ record s { indexes = ix' })
  with_indexes-some none s t e = cc e
  with_indexes-some (some ix) s t e = (ix, refl, sym (some-eq e))

  add_after-some :
      (coll key : String) (doc : Doc V) (removed : Option (Indexes V)) (ix : Indexes V)
      → add_after V coll key doc removed ≡ some ix
      → (ix₁ : Indexes V) × (removed ≡ some ix₁) × (add V coll key doc ix₁ ≡ some ix)
  add_after-some coll key doc none ix e = cc e
  add_after-some coll key doc (some ix₁) ix e = (ix₁, refl, e)

  module _ (q : ℕ) (coll id : String) (n : IsName coll) (s : State V) (v : Stored.IsValid q s.store)
      (h : Listed s) where
    put_here :
        (stored : Doc V) (ix₁ ix₂ : Indexes V)
        → add V coll (key_of coll id) stored ix₁ ≡ some ix₂
        → (c j f : String) (d : Doc V) (w : V.Value) → IsName c
        → starts_with j (prefix_of c) ≡ true
        → has_eq V c f ix₂ ≡ true
        → key_of coll id ≡ j
        → stored ≡ d
        → lookup f d ≡ some w
        → contains (held_ids V c f w ix₂) j ≡ true
    put_here stored ix₁ ix₂ e c j f d w m p k it same at =
        let begins =
          subst (λ x. starts_with x (prefix_of coll) ≡ true) it (starts_with-key_of coll id) in
        let here = same_prefix ":" coll c j n.1 m.1 begins p in
        subst (λ x. contains (held_ids V x f w ix₂) j ≡ true) here
          (subst (λ x. contains (held_ids V coll f w ix₂) x ≡ true) it
            (add_listed V coll (key_of coll id) stored ix₁ ix₂ f w n.0 e
              (subst (λ x. has_eq V x f ix₂ ≡ true) (sym here) k) (ap (lookup f) same ∙ at)))

    put-Listed :
        (stored : Doc V) (ix₁ ix₂ : Indexes V)
        → ListedBut (key_of coll id) s ix₁
        → add V coll (key_of coll id) stored ix₁ ≡ some ix₂
        → Listed (record s { store = Store.put (key_of coll id) stored q s.store; indexes = ix₂ })
    put-Listed stored ix₁ ix₂ l e =
        let key = key_of coll id in
        record {
          complete = λ c j f d w m p k g at.
              let read = sym (get-put s.store q q v (omega arith) key j stored none) ∙ g in
              elim (String-cases key j) [
                | inl same ↦
                    put_here stored ix₁ ix₂ e c j f d w m p k same
                      (some-eq (rw ((eq_iff key j).1 same) at read)) at
                | inr apart ↦ add_kept V coll key stored ix₁ ix₂ c f w j n.0 m.0 e k (
                    l.others c j f d w apart m p
                      (has_eq_before_add V coll key stored ix₁ ix₂ c f e k)
                      (ground (arith, read, eq_iff key j, apart)) at)
              ];
          within = λ c j f w m k held.
              elim (add_source V coll key stored ix₁ ix₂ c f w j n.0 m.0 e k held) [
                | inl (same, it) ↦
                    subst (λ x. starts_with j (prefix_of x) ≡ true) same
                      (subst (λ x. starts_with x (prefix_of coll) ≡ true) it
                        (starts_with-key_of coll id))
                | inr before ↦
                    l.members c j f w m (has_eq_before_add V coll key stored ix₁ ix₂ c f e k) before
              ];
        }

    delete-Listed :
        (ix₁ : Indexes V)
        → ListedBut (key_of coll id) s ix₁
        → Listed (record s { store = Store.delete (key_of coll id) q s.store; indexes = ix₁ })
    delete-Listed ix₁ l =
        let key = key_of coll id in
        record {
          complete = λ c j f d w m p k g at.
              let read = sym (get-delete s.store q q v (omega arith) key j none) ∙ g in
              elim (String-cases key j) [
                | inl same ↦ cc (rw ((eq_iff key j).1 same) at read)
                | inr apart ↦
                    l.others c j f d w apart m p k (ground (arith, read, eq_iff key j, apart)) at
              ];
          within = l.members;
        }

  pub same_state : (s t : State V) → Listed s → s.store ≡ t.store → s.indexes ≡ t.indexes → Listed t
  same_state s t h a b = record { complete = rw (← a, ← b) h.complete; within = rw (← b) h.within }

  pub apply_payload-Listed :
      (p : Payload V) (q : ℕ) (s t : State V)
      → Named p
      → Stored.IsValid q s.store
      → Listed s
      → apply_payload V p q s ≡ some t
      → Listed t
  unfolding apply_payload
  apply_payload-Listed (put key coll id doc) q s t (at, n) v h e =
      let (ix₂, changed, same) = with_indexes-some _ _ t e in
      let (ix₁, removed, added) = add_after-some coll key _ _ ix₂ changed in
      let stored = insert "_seq" (V.of_seq q) doc in
      let but = re_index-ListedBut coll key (Store.get key none s.store) s ix₁ n h removed in
      let here =
        put-Listed q coll id n s v h stored ix₁ ix₂ (subst (λ x. ListedBut x s ix₁) at but)
          (subst (λ x. add V coll x stored ix₁ ≡ some ix₂) at added) in
      subst Listed (sym same) (
        subst (λ x. Listed (record s { store = Store.put x stored q s.store; indexes = ix₂ }))
          (sym at) here)
  apply_payload-Listed (delete key coll id) q s t (at, n) v h e =
      let (ix₁, removed, same) = with_indexes-some _ _ t e in
      let but = re_index-ListedBut coll key (Store.get key none s.store) s ix₁ n h removed in
      let here = delete-Listed q coll id n s v h ix₁ (subst (λ x. ListedBut x s ix₁) at but) in
      subst Listed (sym same) (
        subst (λ x. Listed (record s { store = Store.delete x q s.store; indexes = ix₁ })) (sym at)
          here)
  apply_payload-Listed (link frm rel to) q s t n v h e =
      subst Listed (some-eq e) (same_state s _ h refl refl)
  apply_payload-Listed (unlink frm rel to) q s t n v h e =
      subst Listed (some-eq e) (same_state s _ h refl refl)
  apply_payload-Listed (put_file name tier version root) q s t n v h e = subst Listed (some-eq e) h
