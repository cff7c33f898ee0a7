-- ===== src/Crypto/Tests.antt =====
-- Concrete runs of python/nedb/crypto.py, on a cipher that hides nothing and a tag of zeros.
use aof_db.Prelude.{◌≡◌, refl, some, [], ◌∷◌, ◌++◌, arith}
use aof_db.Hex.{Bytes}
use aof_db.Crypto.{
  Wrapped, load_or_create_dek, rewrap_dek, opened, wrap_dek, aof_encode, aof_decode,
}
use aof_db.Crypto.Open.{open_ciphers, open_ciphers-IsSound}
use aof_db.Crypto.Keys.{load_or_create_dek-rewrap_dek}

abbrev nonce₁ : Bytes
nonce₁ = 1 ∷ 2 ∷ 3 ∷ 4 ∷ 5 ∷ 6 ∷ 7 ∷ 8 ∷ 9 ∷ 10 ∷ 11 ∷ 12 ∷ []

abbrev dek₁ : Bytes
dek₁ = 7 ∷ 200 ∷ []

abbrev file₁ : Wrapped
file₁ = wrap_dek open_ciphers nonce₁ dek₁ (1 ∷ [])

sealed_line :
    aof_decode open_ciphers
      (aof_encode open_ciphers nonce₁ (b'{' ∷ b'}' ∷ []) (some dek₁) ++ b'\n' ∷ [])
      (some dek₁)
    ≡ b'{' ∷ b'}' ∷ []
unfolding aof_decode aof_encode
sealed_line = refl

load_or_create_dek-rewrap_dek_example :
    (w' : Wrapped) × (rewrap_dek open_ciphers [] [] nonce₁ (some file₁) (1 ∷ []) (2 ∷ []) ≡ some w')
    × (load_or_create_dek open_ciphers (9 ∷ []) [] (some w') (2 ∷ []) ≡ opened dek₁ w')
load_or_create_dek-rewrap_dek_example =
    load_or_create_dek-rewrap_dek open_ciphers open_ciphers-IsSound [] [] nonce₁ (9 ∷ []) [] dek₁
      (1 ∷ []) (2 ∷ []) (some file₁) file₁ (ground arith) (ground arith)
      (unfold load_or_create_dek wrap_dek in refl)
