-- ===== src/Prelude/Texts.antt =====
-- Texts as lists of character codes.
use aof_db.Prelude.Tests.{Equality, nat_beq, nat_beq_iff, Bool-cases}
use Prim.Native.Nat.{ℕ, zero, suc}
use Prim.Native.Char.{code}
use Prim.Native.String.{String}
use mathlib.Core.Path.{◌≡◌, refl}
use mathlib.Core.Logic.{◌↔◌, ◌⊎◌, ◌≢◌, inl, inr}
use mathlib.Core.Bool.{Bool, true, false, ◌&&◌}
use mathlib.Core.List.{List, [], ◌∷◌}
use native.Mathlib.Omega.{arith}

unfoldable pub text_beq : List ℕ → List ℕ → Bool
text_beq [] [] = true
text_beq [] (d ∷ ds) = false
text_beq (c ∷ cs) [] = false
text_beq (c ∷ cs) (d ∷ ds) = nat_beq c d && text_beq cs ds

pub text_beq_iff : (s t : List ℕ) → (text_beq s t ≡ true) ↔ (s ≡ t)
unfolding text_beq
text_beq_iff [] [] = (λ h. refl, λ h. refl)
text_beq_iff [] (d ∷ ds) = (λ h. cc, λ h. cc)
text_beq_iff (c ∷ cs) [] = (λ h. cc, λ h. cc)
text_beq_iff (c ∷ cs) (d ∷ ds) = ground (arith, nat_beq_iff c d, text_beq_iff cs ds)

instance abbrev pub text_eq : Equality (List ℕ)
unfolding text_beq
text_eq = record { same = text_beq; same_iff = text_beq_iff }

pub text_cases : (s t : List ℕ) → (s ≡ t) ⊎ (s ≢ t)
text_cases s t = elim (Bool-cases (text_beq s t)) [
  | inl same ↦ inl ((text_beq_iff s t).0 same)
  | inr other ↦ inr (λ e. cc ((text_beq_iff s t).1 e, other))
]

-- `c * n`
unfoldable pub repeat : ℕ → ℕ → List ℕ
repeat c zero = []
repeat c (suc n) = c ∷ repeat c n

-- The character codes of a native text.
abbrev pub codes : String → List ℕ
codes String.[] = []
codes (String.◌∷◌ c s) = code c ∷ codes s
