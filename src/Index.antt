-- ===== src/Index.antt =====
-- python/nedb/index.py: the equality, ordered and full-text indexes. A set of ids is a list without
-- repeats; none is a TypeError, after which the indexes may be changed in part, and that partial
-- state is not modelled.
pub mod Lookup
pub mod Names
pub mod Others
mod Tests
use Prim.Native.Char.{code}
use Prim.Native.String.{◌++◌ as joined}
use text.Mathlib.Text.{starts_with}
use aof_db.Prelude.{
  ℕ, ◌+◌, String, Bool, not, Option, none, some, List, [], ◌∷◌, ◌++◌, Dict, lookup, insert,
  lookup_list, set_default, has_key, keys, contains, Equality, leb, nat_beq, if◌then◌else◌, ◌&&◌,
  ◌||◌, ◌==◌, string_eq, pair_eq,
}
use aof_db.Prelude.Texts.{text_eq}

-- The values of a document's fields, and what the standard library does with them.
pub record Values (F : Type 0) : Type 1 where
  pub Value : Type 0
  -- `==`, which agrees with `hash` on what can be hashed
  pub equal : Equality Value
  pub hashable : Value → Bool
  -- `isinstance(v, str)`, with the text's character codes
  pub text_of : Value → Option (List ℕ)
  -- `isinstance(v, (int, float, str))`
  pub sortable : Value → Bool
  -- `bisect.insort(lst, (v, key))`; none is a TypeError of `<`
  pub insort : Value × String → List (Value × String) → Option (List (Value × String))
  pub of_seq : ℕ → Value
  pub of_text : String → Value
  pub of_seqs : List ℕ → Value
  pub of_float : F → Value
  -- `now + ttl_s`
  pub plus : F → F → F

-- `s.lower()` and `re.findall("[a-z0-9]+", s)` on ASCII text.
abbrev lower : ℕ → ℕ
lower c = if leb 65 c && leb c 90 then c + 32 else c

abbrev in_token : ℕ → Bool
in_token c = leb 97 c && leb c 122 || leb 48 c && leb c 57

module _ {ℓ} {A : Type ℓ} ⦃e : Equality A⦄ where
  -- `s.add(x)` and `s.discard(x)`
  unfoldable pub set_add : A → List A → List A
  set_add x s = if contains s x then s else s ++ x ∷ []

  unfoldable pub discard : A → List A → List A
  discard x [] = []
  discard x (y ∷ s) = let rest = discard x s in if y == x then rest else y ∷ rest

abbrev add_word : List ℕ → List (List ℕ) → List (List ℕ)
add_word [] found = found
add_word (c ∷ word) found = set_add (c ∷ word) found

-- `found` has the words so far, and `word` the one that is being read.
unfoldable tokens_loop : List ℕ → List ℕ → List (List ℕ) → List (List ℕ)
unfolding set_add
tokens_loop [] word found = add_word word found
tokens_loop (c ∷ cs) word found =
    let longer = tokens_loop cs (word ++ lower c ∷ []) found in
    let next = tokens_loop cs [] (add_word word found) in
    if in_token (lower c) then longer else next

unfoldable pub tokenize : List ℕ → List (List ℕ)
unfolding tokens_loop
tokenize text = tokens_loop text [] []

-- `k.split(".", 1)[1]` of a text with a dot in it
unfoldable pub after_dot : String → String
after_dot String.[] = String.[]
after_dot (String.◌∷◌ c s) = if nat_beq (code c) 46 then s else after_dot s

-- `f"{coll}.{field}"`
abbrev pub index_key : String → String → String
index_key coll field = joined coll (joined "." field)

-- `field.startswith(coll + ".")`
abbrev pub is_of : String → String → Bool
is_of field coll = starts_with field (joined coll ".")

abbrev pub Ids : Type 0
Ids = List String

module _ {F : Type 0} (V : Values F) where
  abbrev pub value_eq : Equality V.Value
  value_eq = V.equal

  abbrev pub Doc : Type 0
  Doc = Dict String V.Value

  pub record Indexes : Type 0 where
    pub eq : Dict String (Dict V.Value Ids)
    pub ordered : Dict String (List (V.Value × String))
    pub inv : Dict String (Dict (List ℕ) Ids)
    pub config : List ((String × String) × String)

  abbrev pub empty : Indexes
  empty = record { eq = []; ordered = []; inv = []; config = [] }

  -- What `ensure` does: it returns, or it raises a ValueError; the indexes are changed either way.
  pub data Ensured : Type 0 where
    ensured : Indexes → Ensured
    value_error : Indexes → Ensured

  -- `ensure`, by the kind of the index.
  unfoldable pub ensure : String → String → String → Indexes → Ensured
  unfolding set_default set_add
  ensure coll field kind ix =
      let k = index_key coll field in
      let noted = record ix { config = set_add ((coll, field), kind) ix.config } in
      if kind == "eq"
      then ensured (record noted { eq = set_default k [] ix.eq })
      else if kind == "ordered"
      then ensured (record noted { ordered = set_default k [] ix.ordered })
      else if kind == "search"
      then ensured (record noted { inv = set_default k [] ix.inv })
      else value_error noted

  abbrev cons_entry {ℓ} :
      {A : Type ℓ} → String → Option A → Option (Dict String A) → Option (Dict String A)
  cons_entry k none rest = none
  cons_entry k (some a) none = none
  cons_entry k (some a) (some rest) = some ((k, a) ∷ rest)

  -- A loop over the indexes of one kind: `step` is what is done to each that is of the collection,
  -- with the document's value for its field.
  unfoldable pub each_index {ℓ} :
      {A : Type ℓ}
      → (Option V.Value → A → Option A)
      → String
      → Doc
      → Dict String A
      → Option (Dict String A)
  unfolding after_dot
  each_index step coll doc [] = some []
  each_index step coll doc ((field, a) ∷ rest) =
      let others = each_index step coll doc rest in
      let changed = step (lookup (after_dot field) doc) a in
      cons_entry field (if is_of field coll then changed else some a) others

  unfoldable pub add_eq : String → Option V.Value → Dict V.Value Ids → Option (Dict V.Value Ids)
  unfolding set_add
  add_eq key none vmap = some vmap
  add_eq key (some v) vmap =
      if V.hashable v
      then some (insert ⦃e = V.equal⦄ v (set_add key (lookup_list ⦃e = V.equal⦄ v vmap)) vmap)
      else none

  unfoldable pub add_ordered :
      String → Option V.Value → List (V.Value × String) → Option (List (V.Value × String))
  add_ordered key none lst = some lst
  add_ordered key (some v) lst = if V.sortable v then V.insort (v, key) lst else some lst

  unfoldable pub add_tokens : String → List (List ℕ) → Dict (List ℕ) Ids → Dict (List ℕ) Ids
  unfolding set_add
  add_tokens key [] m = m
  add_tokens key (t ∷ ts) m = add_tokens key ts (insert t (set_add key (lookup_list t m)) m)

  abbrev text_in : Option V.Value → Option (List ℕ)
  text_in none = none
  text_in (some v) = V.text_of v

  abbrev add_text : String → Option (List ℕ) → Dict (List ℕ) Ids → Dict (List ℕ) Ids
  add_text key none m = m
  add_text key (some t) m = add_tokens key (tokenize t) m

  unfoldable pub add_inv : String → Option V.Value → Dict (List ℕ) Ids → Option (Dict (List ℕ) Ids)
  unfolding add_tokens tokenize
  add_inv key v m = some (add_text key (text_in v) m)

  unfoldable pub remove_eq : String → Option V.Value → Dict V.Value Ids → Option (Dict V.Value Ids)
  unfolding has_key discard
  remove_eq key none vmap = some vmap
  remove_eq key (some v) vmap =
      if not (V.hashable v)
      then none
      else if has_key ⦃e = V.equal⦄ v vmap
      then some (insert ⦃e = V.equal⦄ v (discard key (lookup_list ⦃e = V.equal⦄ v vmap)) vmap)
      else some vmap

  -- `lst.remove(x)`, or nothing where `x` is not in the list
  unfoldable pub remove_first : V.Value × String → List (V.Value × String) → List (V.Value × String)
  remove_first x [] = []
  remove_first x (y ∷ lst) =
      let rest = remove_first x lst in if V.equal.same y.0 x.0 && y.1 == x.1 then lst else y ∷ rest

  unfoldable pub remove_ordered :
      String → Option V.Value → List (V.Value × String) → Option (List (V.Value × String))
  unfolding remove_first
  remove_ordered key none lst = some lst
  remove_ordered key (some v) lst = some (remove_first (v, key) lst)

  unfoldable pub remove_tokens : String → List (List ℕ) → Dict (List ℕ) Ids → Dict (List ℕ) Ids
  unfolding has_key discard
  remove_tokens key [] m = m
  remove_tokens key (t ∷ ts) m =
      remove_tokens key ts (if has_key t m then insert t (discard key (lookup_list t m)) m else m)

  abbrev remove_text : String → Option (List ℕ) → Dict (List ℕ) Ids → Dict (List ℕ) Ids
  remove_text key none m = m
  remove_text key (some t) m = remove_tokens key (tokenize t) m

  unfoldable pub remove_inv :
      String → Option V.Value → Dict (List ℕ) Ids → Option (Dict (List ℕ) Ids)
  unfolding remove_tokens tokenize
  remove_inv key v m = some (remove_text key (text_in v) m)

  abbrev pub with_all :
      Option (Dict String (Dict V.Value Ids))
      → Option (Dict String (List (V.Value × String)))
      → Option (Dict String (Dict (List ℕ) Ids))
      → Indexes
      → Option Indexes
  with_all none ordered inv ix = none
  with_all (some eq) none inv ix = none
  with_all (some eq) (some ordered) none ix = none
  with_all (some eq) (some ordered) (some inv) ix =
      some (record ix { eq = eq; ordered = ordered; inv = inv })

  unfoldable pub add : String → String → Doc → Indexes → Option Indexes
  unfolding each_index add_eq add_ordered add_inv
  add coll key doc ix =
      with_all (each_index (add_eq key) coll doc ix.eq)
        (each_index (add_ordered key) coll doc ix.ordered)
        (each_index (add_inv key) coll doc ix.inv) ix

  unfoldable pub remove : String → String → Doc → Indexes → Option Indexes
  unfolding each_index remove_eq remove_ordered remove_inv
  remove coll key doc ix =
      with_all (each_index (remove_eq key) coll doc ix.eq)
        (each_index (remove_ordered key) coll doc ix.ordered)
        (each_index (remove_inv key) coll doc ix.inv) ix

  -- `self.eq.get(f"{coll}.{field}", {}).get(value, set())` of a value that can be hashed
  unfoldable pub held_ids : String → String → V.Value → Indexes → Ids
  held_ids coll field value ix =
      lookup_list ⦃e = V.equal⦄ value (lookup_list (index_key coll field) ix.eq)

  -- none is the TypeError of `get` of a value that cannot be hashed.
  unfoldable pub eq_lookup : String → String → V.Value → Indexes → Option Ids
  unfolding held_ids
  eq_lookup coll field value ix =
      if V.hashable value then some (held_ids coll field value ix) else none

  unfoldable pub search_lookup : String → String → List ℕ → Indexes → Ids
  search_lookup coll field term ix = lookup_list term (lookup_list (index_key coll field) ix.inv)

  unfoldable pub has_eq : String → String → Indexes → Bool
  has_eq coll field ix = has_key (index_key coll field) ix.eq

  unfoldable pub fields_of : List String → String → List String
  unfolding after_dot
  fields_of [] coll = []
  fields_of (k ∷ ks) coll =
      let rest = fields_of ks coll in if is_of k coll then after_dot k ∷ rest else rest

  unfoldable pub search_fields : String → Indexes → List String
  unfolding fields_of
  search_fields coll ix = fields_of (keys ix.inv) coll
