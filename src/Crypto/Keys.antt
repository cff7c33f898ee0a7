-- ===== src/Crypto/Keys.antt =====
-- What is encrypted by python/nedb/crypto.py reads back, and a key that is wrapped again.
use aof_db.Prelude.{
  drop, take-append, drop-append, ◌-◌, ◌<◌, ◌≡◌, ap, sym, ◌∙◌, Option, some, ◌++◌, length,
  length-append, take, arith, All, append_assoc,
}
use aof_db.Hex.{Bytes, IsBytes}
use aof_db.Hex.RoundTrip.{from_hex-hex}
use aof_db.Crypto.{
  Ciphers, encrypt_bytes, decrypt_bytes, joined_parts, body_part, tag_part, nonce_len, tag_len,
  aad_dek, Wrapped, wrap_dek, unwrap_dek, load_or_create_dek, rewrap_dek, opened, rewrapped,
  opened_with,
}

-- What the other packages document: decryption undoes encryption and the tag has 16 bytes, base64
-- and UTF-8 decode what they encode, and `json.loads` reads what `json.dumps` writes.
pub record IsSound (K : Ciphers) : Type 0 where
  pub decrypts :
      (key nonce aad plain : Bytes)
      → K.decrypt_and_verify key nonce aad
          (K.encrypt_and_digest key nonce aad plain).0
          (K.encrypt_and_digest key nonce aad plain).1
        ≡ some plain
  pub length-tag :
      (key nonce aad plain : Bytes) → length (K.encrypt_and_digest key nonce aad plain).1 ≡ tag_len
  pub are_bytes :
      (key nonce aad plain : Bytes)
      → IsBytes plain
      → IsBytes (joined_parts (K.encrypt_and_digest key nonce aad plain))
  pub b64decode-b64encode : (b : Bytes) → K.b64decode (K.b64encode b) ≡ some b
  pub utf8-ascii : (b : Bytes) → All (λ c. c < 128) b → K.utf8 b ≡ some b
  pub loads-dumps :
      (b : Bytes) → K.loads_envelope (K.dumps_envelope (K.b64encode b)) ≡ some (K.b64encode b)

module _ (a b : Bytes) (h : length b ≡ tag_len) where
  before_tag : length (a ++ b) - tag_len ≡ length a
  before_tag = omega (arith, length-append a b, h)

  body_part-append : body_part (a ++ b) ≡ a
  body_part-append = ap (λ n. take n (a ++ b)) before_tag ∙ take-append a b

  tag_part-append : tag_part (a ++ b) ≡ b
  tag_part-append = ap (λ n. drop n (a ++ b)) before_tag ∙ drop-append a b

module _ (K : Ciphers) (h : IsSound K) where
  pub decrypt_bytes-encrypt_bytes :
      (nonce plain dek aad : Bytes)
      → length nonce ≡ nonce_len
      → decrypt_bytes K (encrypt_bytes K nonce plain dek aad) dek aad ≡ some plain
  unfolding decrypt_bytes encrypt_bytes
  decrypt_bytes-encrypt_bytes nonce plain dek aad l =
      let (ct, tag) = K.encrypt_and_digest dek nonce aad plain in
      let t = h.length-tag dek nonce aad plain in
      let whole = append_assoc nonce ct tag in
      let head : take nonce_len (nonce ++ (ct ++ tag)) ≡ nonce =
        ap (λ n. take n (nonce ++ (ct ++ tag))) (sym l) ∙ take-append nonce (ct ++ tag) in
      let body : drop nonce_len (body_part (nonce ++ (ct ++ tag))) ≡ ct =
        ap (λ b. drop nonce_len (body_part b)) (sym whole)
        ∙ ap (drop nonce_len) (body_part-append (nonce ++ ct) tag t)
        ∙ ap (λ n. drop n (nonce ++ ct)) (sym l)
        ∙ drop-append nonce ct in
      let last : tag_part (nonce ++ (ct ++ tag)) ≡ tag =
        ap tag_part (sym whole) ∙ tag_part-append (nonce ++ ct) tag t in
      let D = K.decrypt_and_verify dek in
      let b : Bytes = nonce ++ (ct ++ tag) in
      ap (λ n. D n aad (drop nonce_len (body_part b)) (tag_part b)) head
      ∙ ap (λ c. D nonce aad c (tag_part b)) body
      ∙ ap (λ t. D nonce aad ct t) last
      ∙ h.decrypts dek nonce aad plain

  unwrap_dek-wrap_dek :
      (nonce dek tmk : Bytes)
      → IsBytes nonce
      → IsBytes dek
      → unwrap_dek K (wrap_dek K nonce dek tmk) tmk ≡ some dek
  unfolding unwrap_dek wrap_dek
  unwrap_dek-wrap_dek nonce dek tmk b d =
      let (ct, tag) = K.encrypt_and_digest tmk nonce aad_dek dek in
      let t = h.length-tag tmk nonce aad_dek dek in
      let D = K.decrypt_and_verify tmk nonce aad_dek in
      rw (from_hex-hex nonce b, from_hex-hex (ct ++ tag) (h.are_bytes tmk nonce aad_dek dek d))
        (ap (λ c. D c (tag_part (ct ++ tag))) (body_part-append ct tag t)
          ∙ ap (D ct) (tag_part-append ct tag t)
          ∙ h.decrypts tmk nonce aad_dek dek)

  -- Key rotation: with a cipher whose decryption undoes its encryption, and where the data key
  -- opens with the old master key, the file after `rewrap_dek` opens with the new one, at any
  -- later time, and gives the same data key.
  pub load_or_create_dek-rewrap_dek :
      (fresh nonce nonce' fresh' nonce'' dek old_tmk new_tmk : Bytes) (file : Option Wrapped)
      (w : Wrapped)
      → IsBytes nonce'
      → IsBytes dek
      → load_or_create_dek K fresh nonce file old_tmk ≡ opened dek w
      → (w' : Wrapped) × (rewrap_dek K fresh nonce nonce' file old_tmk new_tmk ≡ some w')
        × (load_or_create_dek K fresh' nonce'' (some w') new_tmk ≡ opened dek w')
  unfolding rewrap_dek load_or_create_dek
  load_or_create_dek-rewrap_dek fresh nonce nonce' fresh' nonce'' dek old_tmk new_tmk file w b d e =
      let w' = wrap_dek K nonce' dek new_tmk in
      (
        w',
        ap (λ o. rewrapped K o nonce' new_tmk) e,
        ap (λ o. opened_with o w') (unwrap_dek-wrap_dek nonce' dek new_tmk b d),
      )
