-- ===== src/Prelude/Maps.antt =====
-- A Python dict: an association list in the order of insertion. A write to a key that is there
-- keeps the key's place.
use mathlib.Core.Path.{◌≡◌, refl}
use mathlib.Core.List.{List, [], ◌∷◌, ◌++◌}
use mathlib.Core.Option.{Option, none, some}
use mathlib.Core.Bool.{Bool, true, false}
use native.Mathlib.Omega.{arith}
use aof_db.Prelude.Tests.{Equality, ◌==◌, if◌then◌else◌}
use aof_db.Prelude.Lists.{contains}

abbrev pub Dict {ℓ κ} : Type ℓ → Type κ → Type (ℓ ⊔ κ)
Dict K V = List (K × V)

-- `d.get(k, v)`
abbrev pub or_default {ℓ} : {A : Type ℓ} → A → Option A → A
or_default d none = d
or_default d (some a) = a

module _ {ℓ κ} {K : Type ℓ} {V : Type κ} ⦃e : Equality K⦄ where
  -- `d.get(k)`
  unfoldable pub lookup : K → Dict K V → Option V
  lookup key [] = none
  lookup key ((head, held) ∷ rest) = if head == key then some held else lookup key rest

  -- `d[k] = v`
  unfoldable pub insert : K → V → Dict K V → Dict K V
  insert key new [] = (key, new) ∷ []
  insert key new ((head, held) ∷ rest) =
      if head == key then (head, new) ∷ rest else (head, held) ∷ insert key new rest

  abbrev pub keys : Dict K V → List K
  keys [] = []
  keys ((k, v) ∷ m) = k ∷ keys m

  pub lookup-insert :
      (k j : K) (v : V) (m : Dict K V)
      → lookup j (insert k v m) ≡ (if k == j then some v else lookup j m)
  unfolding lookup insert
  lookup-insert k j new [] = refl
  lookup-insert k j new ((head, held) ∷ rest) =
      ground
        (arith, lookup-insert k j new rest, e.same_iff head j, e.same_iff head k, e.same_iff k j)

module _ {ℓ κ} {K : Type ℓ} {V : Type κ} ⦃e : Equality K⦄ where
  pub lookup_absent : (k : K) (m : Dict K V) → contains (keys m) k ≡ false → lookup k m ≡ none
  unfolding lookup contains
  lookup_absent k [] h = refl
  lookup_absent k ((j, v) ∷ m) h = ground (arith, lookup_absent k m)

module _ {ℓ κ} {K : Type ℓ} {V : Type κ} ⦃e : Equality K⦄ where
  -- `k in d`
  unfoldable pub has_key : K → Dict K V → Bool
  has_key k m = elim (lookup k m) [ none ↦ false | some v ↦ true ]

  -- `d.setdefault(k, v)`, for its effect
  unfoldable pub set_default : K → V → Dict K V → Dict K V
  unfolding has_key
  set_default k v m = if has_key k m then m else insert k v m

module _ {ℓ κ} {K : Type ℓ} {V : Type κ} ⦃e : Equality K⦄ where
  -- `d.get(k, [])`
  unfoldable pub lookup_list : K → Dict K (List V) → List V
  lookup_list k m = or_default [] (lookup k m)

  -- `d.setdefault(k, []).append(v)`
  unfoldable pub append_to : K → V → Dict K (List V) → Dict K (List V)
  unfolding lookup_list
  append_to k v m = insert k (lookup_list k m ++ v ∷ []) m

  pub lookup_list-append_to :
      (k j : K) (v : V) (m : Dict K (List V))
      → lookup_list j (append_to k v m)
        ≡ (if k == j then lookup_list k m ++ v ∷ [] else lookup_list j m)
  unfolding append_to
  lookup_list-append_to k j v m =
      ground (arith, e.same_iff k j, lookup-insert k j (lookup_list k m ++ v ∷ []) m)

  pub lookup-append_to :
      (k j : K) (v : V) (m : Dict K (List V))
      → lookup j (append_to k v m)
        ≡ (if k == j then some (lookup_list k m ++ v ∷ []) else lookup j m)
  unfolding append_to
  lookup-append_to k j v m = lookup-insert k j (lookup_list k m ++ v ∷ []) m
