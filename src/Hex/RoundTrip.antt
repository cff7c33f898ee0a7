-- ===== src/Hex/RoundTrip.antt =====
-- The hex digits of a text of bytes read back as those bytes.
use aof_db.Prelude.{
  ℕ, ◌*◌, ◌/◌, ◌%◌, ◌<◌, ◌≡◌, refl, List, [], ◌∷◌, some, none, Option, false, arith, length,
  Bool-cases, inl, inr, subst, some-eq, sym, ap, ◌∙◌,
}
use aof_db.Hex.{Bytes, IsBytes, hex, from_hex, hex_digit, digit_value, is_space, byte_of, cons_byte}

digit_value-hex_digit : (n : ℕ) → n < 16 → digit_value (hex_digit n) ≡ some n
digit_value-hex_digit n h = ground arith

is_space-hex_digit : (n : ℕ) → n < 16 → is_space (hex_digit n) ≡ false
is_space-hex_digit n h = ground arith

pub from_hex-hex : (b : Bytes) → IsBytes b → from_hex (hex b) ≡ some b
unfolding hex from_hex
from_hex-hex [] h = refl
from_hex-hex (x ∷ xs) h =
    rw
      (
        is_space-hex_digit (x / 16) (omega arith),
        digit_value-hex_digit (x / 16) (omega arith),
        digit_value-hex_digit (x % 16) (omega arith),
        from_hex-hex xs h.1,
      )
      (ground arith)

pub length-hex : (b : Bytes) → length (hex b) ≡ 2 * length b
unfolding hex
length-hex [] = refl
length-hex (x ∷ xs) = omega (arith, length-hex xs)

digit_value-lt : (c n : ℕ) → digit_value c ≡ some n → n < 16
digit_value-lt c n h = ground arith

cons_byte-IsBytes :
    (p : Option ℕ) (o : Option Bytes) (b : Bytes)
    → ((x : ℕ) → p ≡ some x → x < 256)
    → ((bs : Bytes) → o ≡ some bs → IsBytes bs)
    → cons_byte p o ≡ some b
    → IsBytes b
cons_byte-IsBytes none o b hx hbs e = cc
cons_byte-IsBytes (some x) none b hx hbs e = cc
cons_byte-IsBytes (some x) (some bs) b hx hbs e = subst IsBytes (some-eq e) (hx x refl, hbs bs refl)

byte_of-lt :
    (o p : Option ℕ) (x : ℕ)
    → ((n : ℕ) → o ≡ some n → n < 16)
    → ((n : ℕ) → p ≡ some n → n < 16)
    → byte_of o p ≡ some x
    → x < 256
byte_of-lt none p x ho hp e = cc
byte_of-lt (some h) none x ho hp e = cc
byte_of-lt (some h) (some l) x ho hp e = ground (arith, ho h refl, hp l refl)

-- What `fromhex` accepts reads as bytes.
pub from_hex-IsBytes : (t : List ℕ) (b : Bytes) → from_hex t ≡ some b → IsBytes b
unfolding from_hex
from_hex-IsBytes [] b e = subst IsBytes (some-eq e) tt
from_hex-IsBytes (c ∷ []) b e = elim (Bool-cases (is_space c)) [
  | inl space ↦ subst IsBytes (some-eq (rw space at e)) tt
  | inr other ↦ cc (rw other at e)
]
from_hex-IsBytes (c ∷ d ∷ cs) b e = elim (Bool-cases (is_space c)) [
  | inl space ↦ from_hex-IsBytes (d ∷ cs) b (rw space at e)
  | inr other ↦
      cons_byte-IsBytes (byte_of (digit_value c) (digit_value d)) (from_hex cs) b
        (λ x. byte_of-lt (digit_value c) (digit_value d) x (digit_value-lt c) (digit_value-lt d))
        (λ bs. from_hex-IsBytes cs bs) (rw other at e)
]

pub hex_inj : (x y : Bytes) → IsBytes x → IsBytes y → hex x ≡ hex y → x ≡ y
hex_inj x y hx hy e = some-eq (sym (from_hex-hex x hx) ∙ (ap from_hex e ∙ from_hex-hex y hy))
