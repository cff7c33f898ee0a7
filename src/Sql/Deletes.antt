-- ===== src/Sql/Deletes.antt =====
-- The rows that a statement of python/nedb/sql.py deletes: one that an id condition names.
use aof_db.Prelude.{
  ◌≡◌, refl, true, false, Option, none, some, List, [], ◌∷◌, inl, inr, Bool-cases, arith, ◌⊎◌, sym,
  ap, ◌∙◌, String,
}
use aof_db.Sql.{
  Text, Token, Parsed, Parser, ok, word, kw, string, float, int, op, star, comma, lparen, rparen,
  semi, token_text, sql_error, unsupported, index_error, follow, is_kw, at_kw, eat_kw, eat_ident,
  Condition, Numbers, str_of,
}
use aof_db.Sql.Where.{parse_where}
use aof_db.Sql.Writes.{Call, delete, is_id_condition, found_id, first_id, where_id, exec_delete}

module _ {ℓ} {A : Type ℓ} where
  ok_inj : (a b : A) (ts us : List Token) → ok a ts ≡ ok b us → (a ≡ b) × (ts ≡ us)
  ok_inj a b ts us e = (cc e, cc e)

module _ {ℓ κ} {A : Type ℓ} {B : Type κ} where
  follow-ok :
      (p : Parsed A) (f : A → Parser B) (b : B) (rest : List Token)
      → follow p f ≡ ok b rest
      → (a : A) × (ts : List Token) × (p ≡ ok a ts) × (f a ts ≡ ok b rest)
  follow-ok (ok a ts) f b rest e = (a, ts, refl, e)
  follow-ok sql_error f b rest e = cc
  follow-ok unsupported f b rest e = cc
  follow-ok index_error f b rest e = cc

module _ (N : Numbers) where
  -- A condition of the list is `id = value`, for `id` or `_id` in any case, and `id` is its value.
  unfoldable pub Names : Text → List Condition → Type 0
  Names id [] = ⊥
  Names id (c ∷ cs) = ((is_id_condition c ≡ true) × (id ≡ str_of N c.value)) ⊎ Names id cs

  first_id-Names : (cs : List Condition) (id : Text) → first_id N cs ≡ some id → Names id cs
  unfolding first_id Names
  first_id-Names [] id e = cc
  first_id-Names (c ∷ cs) id e = elim (Bool-cases (is_id_condition c)) [
    | inl named ↦ inl (named, ground (arith, e, named))
    | inr other ↦ inr (first_id-Names cs id (ground (arith, e, other)))
  ]

  found_id-ok :
      (found : Option Text) (id : Text) (us rest : List Token)
      → found_id found us ≡ ok id rest
      → (found ≡ some id) × (us ≡ rest)
  found_id-ok none id us rest e = cc
  found_id-ok (some i) id us rest e = ground (arith, e)

  where_id-where :
      (w : Token) (us : List Token)
      → is_kw "WHERE" w ≡ true
      → where_id N (w ∷ us) ≡ follow (parse_where N us) (λ cs. found_id (first_id N cs))
  unfolding where_id at_kw eat_kw
  where_id-where w us named = rw named refl

  where_id_unless_where :
      (w : Token) (us : List Token) → is_kw "WHERE" w ≡ false → where_id N (w ∷ us) ≡ sql_error
  unfolding where_id at_kw
  where_id_unless_where w us other = rw other refl

  where_id_at_end : where_id N [] ≡ sql_error
  unfolding where_id at_kw
  where_id_at_end = refl

  where_id-ok :
      (ts rest : List Token) (id : Text)
      → where_id N ts ≡ ok id rest
      → (w : Token) × (us : List Token) × (cs : List Condition) × (ts ≡ w ∷ us)
        × (is_kw "WHERE" w ≡ true)
        × (parse_where N us ≡ ok cs rest)
        × Names id cs
  where_id-ok [] rest id e = cc (e, where_id_at_end)
  where_id-ok (w ∷ us) rest id e = elim (Bool-cases (is_kw "WHERE" w)) [
    | inl named ↦
        let ran = sym (where_id-where w us named) ∙ e in
        let (cs, vs, parsed, found) =
          follow-ok (parse_where N us) (λ cs. found_id (first_id N cs)) id rest ran in
        let (same, ends) = found_id-ok (first_id N cs) id vs rest found in
        (w, us, cs, refl, named, parsed ∙ ap (ok cs) ends, first_id-Names cs id same)
    | inr other ↦ cc (e, where_id_unless_where w us other)
  ]

eat_kw-ok :
    (k : String) (ts rest : List Token) (u : Unit {0})
    → eat_kw k ts ≡ ok u rest
    → (t : Token) × (ts ≡ t ∷ rest) × (is_kw k t ≡ true)
unfolding eat_kw
eat_kw-ok k [] rest u e = cc
eat_kw-ok k (t ∷ ts) rest u e = elim (Bool-cases (is_kw k t)) [
  | inl named ↦ (t, ground (arith, e, named), named)
  | inr other ↦ ground (arith, e, other)
]

eat_ident-ok :
    (ts rest : List Token) (name : Text)
    → eat_ident ts ≡ ok name rest
    → (t : Token) × (ts ≡ t ∷ rest) × (token_text t ≡ name)
eat_ident-ok (word v ∷ ts) rest name e = (word v, ground (arith, e), ground (arith, e))
eat_ident-ok (kw v ∷ ts) rest name e = (kw v, ground (arith, e), ground (arith, e))
eat_ident-ok [] rest name e = cc
eat_ident-ok (string v ∷ ts) rest name e = cc
eat_ident-ok (float v ∷ ts) rest name e = cc
eat_ident-ok (int v ∷ ts) rest name e = cc
eat_ident-ok (op v ∷ ts) rest name e = cc
eat_ident-ok (star ∷ ts) rest name e = cc
eat_ident-ok (comma ∷ ts) rest name e = cc
eat_ident-ok (lparen ∷ ts) rest name e = cc
eat_ident-ok (rparen ∷ ts) rest name e = cc
eat_ident-ok (semi ∷ ts) rest name e = cc

module _ (N : Numbers) where
  -- A DELETE that makes a call is `DELETE FROM table WHERE` and conditions of which one is
  -- `id = value`, and the row that it deletes is that value's: no other row of the table goes.
  pub exec_delete-ok :
      (ts rest : List Token) (call : Call)
      → exec_delete N ts ≡ ok call rest
      → (t u v w : Token) × (us : List Token) × (cs : List Condition) × (id : Text) × (ts
          ≡ t ∷ u ∷ v ∷ w ∷ us)
        × ((is_kw "DELETE" t ≡ true) × (is_kw "FROM" u ≡ true) × (is_kw "WHERE" w ≡ true))
        × (parse_where N us ≡ ok cs rest)
        × Names N id cs
        × (call ≡ delete (token_text v) id)
  unfolding exec_delete
  exec_delete-ok ts rest call e =
      let (_, ts₁, e₁, f₁) = follow-ok (eat_kw "DELETE" ts) _ call rest e in
      let (_, ts₂, e₂, f₂) = follow-ok (eat_kw "FROM" ts₁) _ call rest f₁ in
      let (table, ts₃, e₃, f₃) = follow-ok (eat_ident ts₂) _ call rest f₂ in
      let (id, ts₄, e₄, f₄) = follow-ok (where_id N ts₃) _ call rest f₃ in
      let (t, s₁, k₁) = eat_kw-ok "DELETE" ts ts₁ tt e₁ in
      let (u, s₂, k₂) = eat_kw-ok "FROM" ts₁ ts₂ tt e₂ in
      let (v, s₃, k₃) = eat_ident-ok ts₂ ts₃ table e₃ in
      let (w, us, cs, s₄, k₄, parsed, names) = where_id-ok N ts₃ ts₄ id e₄ in
      let (made, ends) = ok_inj (delete table id) call ts₄ rest f₄ in
      (
        t,
        u,
        v,
        w,
        us,
        cs,
        id,
        cc (s₁, s₂, s₃, s₄),
        (k₁, k₂, k₄),
        parsed ∙ ap (ok cs) ends,
        names,
        sym made ∙ ap (λ n. delete n id) (sym k₃),
      )
