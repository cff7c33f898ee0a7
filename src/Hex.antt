-- ===== src/Hex.antt =====
-- `bytes.hex` and `bytes.fromhex` of the standard library, as python/nedb/merkle.py and
-- python/nedb/proof.py use them. A text is the list of its character codes and a byte is a number
-- below 256.
pub mod RoundTrip
use aof_db.Prelude.{
  ℕ, ◌+◌, ◌-◌, ◌*◌, ◌/◌, ◌%◌, ◌<◌, Bool, List, [], ◌∷◌, Option, none, some, All, leb, ltb, nat_beq,
  if◌then◌else◌, ◌&&◌, ◌||◌,
}

abbrev pub Bytes : Type 0
Bytes = List ℕ

abbrev pub IsBytes : Bytes → Type 0
IsBytes b = All (λ x. x < 256) b

abbrev pub hex_digit : ℕ → ℕ
hex_digit n = if ltb n 10 then b'0' + n else b'a' + (n - 10)

unfoldable pub hex : Bytes → List ℕ
hex [] = []
hex (b ∷ bs) = hex_digit (b / 16) ∷ hex_digit (b % 16) ∷ hex bs

abbrev pub digit_value : ℕ → Option ℕ
digit_value c =
    if leb b'0' c && leb c b'9'
    then some (c - b'0')
    else if leb b'a' c && leb c b'f'
    then some (c - b'a' + 10)
    else if leb b'A' c && leb c b'F'
    then some (c - b'A' + 10)
    else none

-- the ASCII white space that `fromhex` skips between bytes
abbrev pub is_space : ℕ → Bool
is_space c = nat_beq c 32 || (leb 9 c && leb c 13)

abbrev pub byte_of : Option ℕ → Option ℕ → Option ℕ
byte_of (some h) (some l) = some (16 * h + l)
byte_of (some h) none = none
byte_of none l = none

abbrev pub cons_byte : Option ℕ → Option Bytes → Option Bytes
cons_byte (some b) (some bs) = some (b ∷ bs)
cons_byte (some b) none = none
cons_byte none bs = none

-- none is a `ValueError`.
unfoldable pub from_hex : List ℕ → Option Bytes
from_hex [] = some []
from_hex (c ∷ []) = if is_space c then some [] else none
from_hex (c ∷ d ∷ cs) =
    let skip = from_hex (d ∷ cs) in
    let rest = from_hex cs in
    if is_space c then skip else cons_byte (byte_of (digit_value c) (digit_value d)) rest
