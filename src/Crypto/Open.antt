-- ===== src/Crypto/Open.antt =====
-- A cipher that hides nothing and has a tag of zeros, for concrete runs of what
-- python/nedb/crypto.py encrypts.
use aof_db.Prelude.{
  take-append, ℕ, ◌≡◌, ◌<◌, ap, ◌∙◌, All-append, refl, Option, none, some, List, [], ◌∷◌, ◌++◌,
  length, take, length-append, arith,
}
use aof_db.Hex.{Bytes, IsBytes}
use aof_db.Crypto.{Ciphers}
use aof_db.Crypto.Keys.{IsSound}

abbrev pub zeros : Bytes
zeros = 0 ∷ 0 ∷ 0 ∷ 0 ∷ 0 ∷ 0 ∷ 0 ∷ 0 ∷ 0 ∷ 0 ∷ 0 ∷ 0 ∷ 0 ∷ 0 ∷ 0 ∷ 0 ∷ []

abbrev opened_text : List ℕ → Option (List ℕ)
opened_text [] = none
opened_text (c ∷ []) = none
opened_text (c ∷ d ∷ []) = none
opened_text (c ∷ d ∷ e ∷ []) = none
opened_text (c ∷ d ∷ e ∷ f ∷ t) = some (take (length t) (f ∷ t))

abbrev pub open_ciphers : Ciphers
open_ciphers = record {
  encrypt_and_digest = λ key nonce aad plain. (plain, zeros);
  decrypt_and_verify = λ key nonce aad ct tag. some ct;
  hkdf = λ b. b;
  b64encode = λ b. b;
  b64decode = λ t. some t;
  utf8 = λ b. some b;
  dumps_envelope = λ t. b'{' ∷ b'!' ∷ b'!' ∷ t ++ b'}' ∷ [];
  loads_envelope = opened_text;
}

pub open_ciphers-IsSound : IsSound open_ciphers
open_ciphers-IsSound = record {
  decrypts = λ key nonce aad plain. refl;
  length-tag = λ key nonce aad plain. refl;
  are_bytes = λ key nonce aad plain b. All-append (λ x. x < 256) plain zeros b zeros_small;
  b64decode-b64encode = λ b. refl;
  utf8-ascii = λ b h. refl;
  loads-dumps = λ b. opened_text_closed b;
}
  where
    zeros_small : IsBytes zeros
    zeros_small = ground arith

    opened_text_closed : (b : Bytes) → opened_text (b'{' ∷ b'!' ∷ b'!' ∷ b ++ b'}' ∷ []) ≡ some b
    opened_text_closed [] = refl
    opened_text_closed (x ∷ b) =
        let size : length (b ++ b'}' ∷ []) ≡ length (x ∷ b) =
          omega (arith, length-append b (b'}' ∷ [])) in
        ap some (ap (λ n. take n (x ∷ b ++ b'}' ∷ [])) size ∙ take-append (x ∷ b) (b'}' ∷ []))
