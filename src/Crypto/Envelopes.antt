-- ===== src/Crypto/Envelopes.antt =====
-- The lines, snapshots and chunks of python/nedb/crypto.py: what is encrypted reads back.
use aof_db.Prelude.{ℕ, ◌≡◌, ◌<◌, refl, ap, ◌∙◌, none, some, List, [], ◌∷◌, ◌++◌, length, All}
use aof_db.Hex.{Bytes}
use aof_db.Crypto.{
  Ciphers, strip, strip_left, strip_right, nonce_len, aad_data, encrypt_bytes, aof_encode,
  aof_decode, open_envelope, snapshot_encode, snapshot_decode, chunk_encode, chunk_decode, and_then,
  or_text, decode_stripped,
}
use aof_db.Crypto.Keys.{IsSound, decrypt_bytes-encrypt_bytes}

-- A text that starts and ends with a brace, as the JSON of a dict does.
pub record IsBraced (t : List ℕ) : Type 0 where
  pub inner : List ℕ
  pub braces : t ≡ b'{' ∷ (inner ++ b'}' ∷ [])

strip_right_closed : (u : List ℕ) → strip_right (u ++ b'}' ∷ []) ≡ u ++ b'}' ∷ []
unfolding strip_right
strip_right_closed [] = refl
strip_right_closed (c ∷ []) = refl
strip_right_closed (c ∷ d ∷ u) = rw (strip_right_closed (d ∷ u)) refl

strip_braced : (u : List ℕ) → strip (b'{' ∷ (u ++ b'}' ∷ [])) ≡ b'{' ∷ (u ++ b'}' ∷ [])
unfolding strip strip_left
strip_braced u = strip_right_closed (b'{' ∷ u)

pub strip-IsBraced : (t : List ℕ) → IsBraced t → strip t ≡ t
strip-IsBraced t b = rw (b.braces) (strip_braced b.inner)

module _ (K : Ciphers) where
  decode_stripped_braced :
      (t : List ℕ) (dek : Bytes)
      → IsBraced t
      → decode_stripped K t (some dek) ≡ or_text (and_then (open_envelope K t dek) K.utf8) t
  decode_stripped_braced t dek b = rw (b.braces) refl

  pub aof_decode_plain : (t : List ℕ) → IsBraced t → aof_decode K t none ≡ t
  unfolding aof_decode
  aof_decode_plain t b = rw (strip-IsBraced t b) (rw (b.braces) refl)

  pub aof_decode_unsealed :
      (t : List ℕ) (dek : Bytes)
      → IsBraced t
      → K.loads_envelope t ≡ none
      → aof_decode K t (some dek) ≡ t
  unfolding aof_decode open_envelope
  aof_decode_unsealed t dek b n =
      rw (strip-IsBraced t b) (decode_stripped_braced t dek b ∙ rw n refl)

module _ (K : Ciphers) (h : IsSound K) (nonce : Bytes) (l : length nonce ≡ nonce_len)
    (dek : Bytes) where
  open_envelope_lem :
      (plain : Bytes)
      → open_envelope K
          (K.dumps_envelope (K.b64encode (encrypt_bytes K nonce plain dek aad_data)))
          dek
        ≡ some plain
  unfolding open_envelope
  open_envelope_lem plain =
      rw
        (
          h.loads-dumps (encrypt_bytes K nonce plain dek aad_data),
          h.b64decode-b64encode (encrypt_bytes K nonce plain dek aad_data),
        )
        (decrypt_bytes-encrypt_bytes K h nonce plain dek aad_data l)

  pub snapshot_decode-snapshot_encode :
      (content : Bytes)
      → snapshot_decode K (snapshot_encode K nonce content (some dek)) (some dek) ≡ content
  unfolding snapshot_decode snapshot_encode
  snapshot_decode-snapshot_encode content = rw (open_envelope_lem content) refl

  pub chunk_decode-chunk_encode :
      (b : Bytes) → chunk_decode K (chunk_encode K nonce b (some dek)) (some dek) ≡ some b
  unfolding chunk_decode chunk_encode
  chunk_decode-chunk_encode b = decrypt_bytes-encrypt_bytes K h nonce b dek aad_data l

  pub aof_decode-aof_encode :
      (op_json : List ℕ)
      → IsBraced (aof_encode K nonce op_json (some dek))
      → All (λ c. c < 128) op_json
      → aof_decode K (aof_encode K nonce op_json (some dek)) (some dek) ≡ op_json
  unfolding aof_decode aof_encode
  aof_decode-aof_encode op_json b a =
      let t : List ℕ =
        K.dumps_envelope (K.b64encode (encrypt_bytes K nonce op_json dek aad_data)) in
      ap (λ s. decode_stripped K s (some dek)) (strip-IsBraced t b)
      ∙ decode_stripped_braced K t dek b
      ∙ ap (λ o. or_text (and_then o K.utf8) t) (open_envelope_lem op_json)
      ∙ ap (λ o. or_text o t) (h.utf8-ascii op_json a)
