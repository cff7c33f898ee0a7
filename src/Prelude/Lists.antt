-- ===== src/Prelude/Lists.antt =====
-- Lists measured and indexed by native numbers, and predicates on lists by recursion.
use Prim.Native.Nat.{ℕ, zero, suc, ◌+◌, ◌<◌}
use mathlib.Core.Path.{◌≡◌, refl, ap}
use mathlib.Core.Logic.{◌⊎◌, inl, inr}
use mathlib.Core.List.{List, [], ◌∷◌, ◌++◌, map}
use mathlib.Core.Option.{Option, none, some}
use mathlib.Core.Bool.{Bool, false, ◌||◌}
use native.Mathlib.Omega.{arith}
use aof_db.Prelude.Tests.{Equality, ◌==◌}

module _ {ℓ} {A : Type ℓ} where
  abbrev pub length : List A → ℕ
  length [] = 0
  length (x ∷ xs) = suc (length xs)

  abbrev pub get_elem? : List A → ℕ → Option A
  get_elem? [] i = none
  get_elem? (x ∷ xs) zero = some x
  get_elem? (x ∷ xs) (suc i) = get_elem? xs i

  -- `xs[-1]`
  abbrev pub get_last? : List A → Option A
  get_last? [] = none
  get_last? (x ∷ []) = some x
  get_last? (x ∷ y ∷ ys) = get_last? (y ∷ ys)

  pub length-append : (xs ys : List A) → length (xs ++ ys) ≡ length xs + length ys
  length-append [] ys = omega arith
  length-append (x ∷ xs) ys = omega (arith, length-append xs ys)

module _ {ℓ} {A : Type ℓ} where
  pub get_last?-append : (xs : List A) (x : A) → get_last? (xs ++ x ∷ []) ≡ some x
  get_last?-append [] x = refl
  get_last?-append (y ∷ []) x = refl
  get_last?-append (y ∷ z ∷ zs) x = get_last?-append (z ∷ zs) x

  pub get_elem?-append_last : (xs : List A) (x : A) → get_elem? (xs ++ x ∷ []) (length xs) ≡ some x
  get_elem?-append_last [] x = refl
  get_elem?-append_last (y ∷ ys) x = get_elem?-append_last ys x

  pub get_elem?-append_inv :
      (xs : List A) (x : A) (i : ℕ) (y : A)
      → get_elem? (xs ++ x ∷ []) i ≡ some y
      → (get_elem? xs i ≡ some y) ⊎ ((i ≡ length xs) × (x ≡ y))
  get_elem?-append_inv [] x zero y e = inr (refl, cc)
  get_elem?-append_inv [] x (suc i) y e = cc
  get_elem?-append_inv (z ∷ zs) x zero y e = inl e
  get_elem?-append_inv (z ∷ zs) x (suc i) y e = elim (get_elem?-append_inv zs x i y e) [
    | inl old ↦ inl old
    | inr (at, new) ↦ inr (ap suc at, new)
  ]

  pub get_elem?-lt : (xs : List A) (i : ℕ) (y : A) → get_elem? xs i ≡ some y → i < length xs
  get_elem?-lt [] i y e = cc
  get_elem?-lt (x ∷ xs) zero y e = omega arith
  get_elem?-lt (x ∷ xs) (suc i) y e = omega (arith, get_elem?-lt xs i y e)

  pub get_elem?-append :
      (xs : List A) (i : ℕ) (ys : List A) → i < length xs → get_elem? (xs ++ ys) i ≡ get_elem? xs i
  get_elem?-append [] i ys h = absurd (omega arith)
  get_elem?-append (x ∷ xs) zero ys h = refl
  get_elem?-append (x ∷ xs) (suc i) ys h = get_elem?-append xs i ys (omega arith)

module _ {ℓ} {A : Type ℓ} where
  pub get_elem?-some : (xs : List A) (i : ℕ) → i < length xs → (x : A) × (get_elem? xs i ≡ some x)
  get_elem?-some [] i h = absurd (omega arith)
  get_elem?-some (x ∷ xs) zero h = (x, refl)
  get_elem?-some (x ∷ xs) (suc i) h = get_elem?-some xs i (omega arith)

module _ {ℓ κ} {A : Type ℓ} {B : Type κ} where
  pub length-map : (f : A → B) (xs : List A) → length (map f xs) ≡ length xs
  length-map f [] = refl
  length-map f (x ∷ xs) = ap suc (length-map f xs)

  pub map-append_last :
      (f : A → B) (xs : List A) (x : A) → map f (xs ++ x ∷ []) ≡ map f xs ++ f x ∷ []
  map-append_last f [] x = refl
  map-append_last f (y ∷ ys) x = ap (λ t. f y ∷ t) (map-append_last f ys x)

module _ {ℓ} {A : Type ℓ} where
  pub append_inj_left :
      (xs ys : List A) {xs' ys' : List A}
      → length xs ≡ length ys
      → xs ++ xs' ≡ ys ++ ys'
      → (xs ≡ ys) × (xs' ≡ ys')
  append_inj_left [] [] h e = (refl, e)
  append_inj_left [] (y ∷ ys) h e = absurd (omega arith)
  append_inj_left (x ∷ xs) [] h e = absurd (omega arith)
  append_inj_left (x ∷ xs) (y ∷ ys) {xs'} {ys'} h e =
      let tails : xs ++ xs' ≡ ys ++ ys' = cc in
      let (same, rest) = append_inj_left xs ys {xs' = xs'} {ys' = ys'} (omega arith) tails in
      (cc same, rest)

  pub append_inj_right :
      (xs ys xs' ys' : List A)
      → length xs' ≡ length ys'
      → xs ++ xs' ≡ ys ++ ys'
      → (xs ≡ ys) × (xs' ≡ ys')
  append_inj_right xs ys xs' ys' h e =
      append_inj_left xs ys
        (omega (arith, h, ap length e, length-append xs xs', length-append ys ys')) e

module _ {ℓ} {A : Type ℓ} where
  abbrev pub take : ℕ → List A → List A
  take zero xs = []
  take (suc n) [] = []
  take (suc n) (x ∷ xs) = x ∷ take n xs

  -- `xs[n:]`
  abbrev pub drop : ℕ → List A → List A
  drop zero xs = xs
  drop (suc n) [] = []
  drop (suc n) (x ∷ xs) = drop n xs

  pub take-append : (xs ys : List A) → take (length xs) (xs ++ ys) ≡ xs
  take-append [] ys = refl
  take-append (x ∷ xs) ys = ap (λ t. x ∷ t) (take-append xs ys)

  pub drop-append : (xs ys : List A) → drop (length xs) (xs ++ ys) ≡ ys
  drop-append [] ys = refl
  drop-append (x ∷ xs) ys = drop-append xs ys

-- A predicate at every element. It computes to tuples, which the tactics read and build.
abbrev pub All {ℓ κ} : {A : Type ℓ} → (A → Type κ) → List A → Type κ
All P [] = Unit
All P (x ∷ xs) = P x × All P xs

module _ {ℓ κ} {A : Type ℓ} (P : A → Type κ) where
  pub All-append : (xs ys : List A) → All P xs → All P ys → All P (xs ++ ys)
  All-append [] ys h k = k
  All-append (x ∷ xs) ys h k = (h.0, All-append xs ys h.1 k)

  pub All-weaken {κ'} :
      {Q : A → Type κ'} (xs : List A) → ((x : A) → P x → Q x) → All P xs → All Q xs
  All-weaken [] f h = tt
  All-weaken (x ∷ xs) f h = (f x h.0, All-weaken xs f h.1)

  pub All-head : (xs ys : List A) → All P (xs ++ ys) → All P xs
  All-head [] ys h = tt
  All-head (x ∷ xs) ys h = (h.0, All-head xs ys h.1)

  pub All-tail : (xs ys : List A) → All P (xs ++ ys) → All P ys
  All-tail [] ys h = h
  All-tail (x ∷ xs) ys h = All-tail xs ys h.1

module _ {ℓ} {A : Type ℓ} ⦃e : Equality A⦄ where
  -- `a in xs`
  unfoldable pub contains : List A → A → Bool
  contains [] a = false
  contains (x ∷ xs) a = x == a || contains xs a

  pub contains-append :
      (xs ys : List A) (a : A) → contains (xs ++ ys) a ≡ (contains xs a || contains ys a)
  unfolding contains
  contains-append [] ys a = refl
  contains-append (x ∷ xs) ys a = ground (arith, contains-append xs ys a)
