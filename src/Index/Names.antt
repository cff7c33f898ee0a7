-- ===== src/Index/Names.antt =====
-- Names before a separator, in the keys of python/nedb/index.py and of python/nedb/engine.py.
use Prim.Native.Char.{Char, code}
use Prim.Native.String.{◌++◌ as joined}
use text.Mathlib.TextLemmas.{
  append_assoc as joined_assoc, cons-append, nil-append, head-eq_of_cons-eq, tail-eq_of_cons-eq,
}
use text.Mathlib.Text.{starts_with}
use text.Mathlib.TextEquality.{starts_with_iff}
use aof_db.Prelude.{
  ℕ, ◌≡◌, refl, ap, sym, ◌∙◌, String, true, false, nat_beq, nat_beq_iff, string_eq,
}
use aof_db.Index.Lookup.{Lacks}

unlike {ℓ} : {A : Type ℓ} (m n : ℕ) → nat_beq m n ≡ false → m ≡ n → A
unlike m n other same = cc (other, (nat_beq_iff m n).1 same)

-- What stands before the first separator is determined.
pub before_separator :
    (c : Char) (s t a b : String)
    → Lacks (code c) s
    → Lacks (code c) t
    → joined s (String.◌∷◌ c a) ≡ joined t (String.◌∷◌ c b)
    → s ≡ t
before_separator c String.[] String.[] a b h k e = refl
before_separator c String.[] (String.◌∷◌ d t) a b h k e =
    let shown = sym (nil-append (String.◌∷◌ c a)) ∙ e ∙ cons-append d t (String.◌∷◌ c b) in
    unlike (code d) (code c) k.0 (ap code (sym (head-eq_of_cons-eq shown)))
before_separator c (String.◌∷◌ d s) String.[] a b h k e =
    let shown = sym (cons-append d s (String.◌∷◌ c a)) ∙ e ∙ nil-append (String.◌∷◌ c b) in
    unlike (code d) (code c) h.0 (ap code (head-eq_of_cons-eq shown))
before_separator c (String.◌∷◌ d s) (String.◌∷◌ f t) a b h k e =
    let shown = sym (cons-append d s (String.◌∷◌ c a)) ∙ e ∙ cons-append f t (String.◌∷◌ c b) in
    let same = before_separator c s t a b h.1 k.1 (tail-eq_of_cons-eq shown) in
    ap (λ x. String.◌∷◌ x s) (head-eq_of_cons-eq shown) ∙ ap (String.◌∷◌ f) same

-- `s` before a one-character text and `t`
joined_separator :
    (c : Char) (s t : String)
    → joined (joined s (String.◌∷◌ c String.[])) t ≡ joined s (String.◌∷◌ c t)
joined_separator c s t =
    joined_assoc s (String.◌∷◌ c String.[]) t
    ∙ ap (joined s) (cons-append c String.[] t ∙ ap (String.◌∷◌ c) (nil-append t))

-- A text that begins with two names and the separator.
pub same_prefix :
    (c : Char) (s t u : String)
    → Lacks (code c) s
    → Lacks (code c) t
    → starts_with u (joined s (String.◌∷◌ c String.[])) ≡ true
    → starts_with u (joined t (String.◌∷◌ c String.[])) ≡ true
    → s ≡ t
same_prefix c s t u h k p q =
    let (a, e) = (starts_with_iff u (joined s (String.◌∷◌ c String.[]))).0 p in
    let (b, f) = (starts_with_iff u (joined t (String.◌∷◌ c String.[]))).0 q in
    before_separator c s t a b h k
      (sym (joined_separator c s a) ∙ e ∙ sym f ∙ joined_separator c t b)
