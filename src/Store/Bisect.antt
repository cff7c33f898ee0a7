-- ===== src/Store/Bisect.antt =====
-- The binary search by which store.py reads a past version.
use aof_db.Prelude.{
  ℕ, zero, suc, ◌+◌, ◌/◌, ◌≤◌, ◌<◌, ◌≡◌, List, [], ◌∷◌, All, arith, length, get_elem?, ltb,
  or_default, Bool-cases, inl, inr,
}
use aof_db.Store.{bisect_loop, bisect_right}

-- `a[i]`, with 0 out of range
abbrev pub at : List ℕ → ℕ → ℕ
at a i = or_default 0 (get_elem? a i)

abbrev pub IsSorted : List ℕ → Type 0
IsSorted [] = Unit
IsSorted (x ∷ xs) = All (λ y. x ≤ y) xs × IsSorted xs

All-at : (x : ℕ) (xs : List ℕ) (i : ℕ) → All (λ y. x ≤ y) xs → i < length xs → x ≤ at xs i
All-at x [] i h l = absurd (omega arith)
All-at x (y ∷ ys) zero h l = h.0
All-at x (y ∷ ys) (suc i) h l = All-at x ys i h.1 (omega arith)

pub at_mono : (a : List ℕ) (i j : ℕ) → IsSorted a → i ≤ j → j < length a → at a i ≤ at a j
at_mono [] i j s h l = absurd (omega arith)
at_mono (x ∷ xs) zero zero s h l = omega arith
at_mono (x ∷ xs) zero (suc j) s h l = All-at x xs j s.0 (omega arith)
at_mono (x ∷ xs) (suc i) zero s h l = absurd (omega arith)
at_mono (x ∷ xs) (suc i) (suc j) s h l = at_mono xs i j s.1 (omega arith) (omega arith)

-- `i` splits `a` into what is at most `x` and what is above it.
pub record Splits (a : List ℕ) (x i : ℕ) : Type 0 where
  pub within : i ≤ length a
  pub below : (j : ℕ) → j < i → at a j ≤ x
  pub above : (j : ℕ) → i ≤ j → j < length a → x < at a j

pub Splits-tail_zero : {y : ℕ} {a : List ℕ} {x : ℕ} → Splits (y ∷ a) x 0 → Splits a x 0
Splits-tail_zero h = record {
  within = omega arith;
  below = λ j l. absurd (omega arith);
  above = λ j l m. h.above (suc j) (omega arith) (omega arith);
}

pub Splits-tail : {y : ℕ} {a : List ℕ} {x i : ℕ} → Splits (y ∷ a) x (suc i) → Splits a x i
Splits-tail h = record {
  within = omega (arith, h.within);
  below = λ j l. h.below (suc j) (omega arith);
  above = λ j l m. h.above (suc j) (omega arith) (omega arith);
}

bisect_loop-Splits :
    (fuel : ℕ) (a : List ℕ) (x lo hi : ℕ)
    → IsSorted a
    → hi ≤ lo + fuel
    → lo ≤ hi
    → hi ≤ length a
    → ((j : ℕ) → j < lo → at a j ≤ x)
    → ((j : ℕ) → hi ≤ j → j < length a → x < at a j)
    → Splits a x (bisect_loop fuel a x lo hi)
unfolding bisect_loop
bisect_loop-Splits zero a x lo hi s f h w b t = record {
  within = omega arith;
  below = b;
  above = λ j l. t j (omega arith);
}
bisect_loop-Splits (suc fuel) a x lo hi s f h w b t = elim (Bool-cases (ltb lo hi)) [
  | inr done ↦
      let e : lo ≡ hi = ground arith in
      rw done (record { within = omega arith; below = b; above = λ j l. t j (omega arith) })
  | inl more ↦ rw more (elim (Bool-cases (ltb x (at a ((lo + hi) / 2)))) [
    | inl lower ↦ rw lower (
        bisect_loop-Splits fuel a x lo ((lo + hi) / 2) s (ground arith) (ground arith)
          (ground arith) b (λ j l m. ground (arith, at_mono a ((lo + hi) / 2) j s l m)))
    | inr upper ↦ rw upper (
        bisect_loop-Splits fuel a x ((lo + hi) / 2 + 1) hi s (ground arith) (ground arith) w
          (λ j l. ground (arith, at_mono a j ((lo + hi) / 2) s (omega arith) (ground arith))) t)
  ])
]

-- On an ascending list the binary search ends, and its result is the number of entries that are
-- at most `x`: all before it are, and none from it on is.
pub bisect_right-Splits : (a : List ℕ) (x : ℕ) → IsSorted a → Splits a x (bisect_right a x)
unfolding bisect_right
bisect_right-Splits a x s =
    bisect_loop-Splits (length a) a x 0 (length a) s (omega arith) (omega arith) (omega arith)
      (λ j h. absurd (omega arith)) (λ j h l. absurd (omega arith))
