-- ===== src/Crypto.antt =====
-- python/nedb/crypto.py: encryption at rest. AES-256-GCM, HKDF, base64, UTF-8 and `json` are of other
-- packages and are the parameter `Ciphers`; what `os.urandom` returns is an argument. The library that
-- the source prefers, pycryptodome, is there.
pub mod Keys
pub mod Envelopes
pub mod Open
mod Tests
use aof_db.Prelude.{
  ℕ, zero, suc, ◌-◌, ◌≡◌, String, Bool, true, false, not, Option, none, some, List, [], ◌∷◌, ◌++◌,
  length, take, if◌then◌else◌, ◌&&◌, ◌||◌, drop, leb, nat_beq,
}
use aof_db.Prelude.Texts.{codes, text_beq}
use aof_db.Hex.{Bytes, hex, from_hex}

abbrev pub nonce_len : ℕ
nonce_len = 12

abbrev pub tag_len : ℕ
tag_len = 16

abbrev pub aad_dek : Bytes
aad_dek = codes "NEDB-DEK-v1"

abbrev pub aad_data : Bytes
aad_data = codes "NEDB-data-v1"

-- What the other packages give. A text is the list of its character codes, and what is encrypted
-- is ASCII, so `encode` is the identity on it.
pub record Ciphers : Type 0 where
  -- `AES.new(key, MODE_GCM, nonce)`, `update(aad)`, and `encrypt_and_digest` or `decrypt_and_verify`,
  -- where none is a ValueError
  pub encrypt_and_digest : Bytes → Bytes → Bytes → Bytes → Bytes × Bytes
  pub decrypt_and_verify : Bytes → Bytes → Bytes → Bytes → Bytes → Option Bytes
  pub hkdf : Bytes → Bytes
  -- `base64.b64encode(b).decode()` and `base64.b64decode(t)`
  pub b64encode : Bytes → List ℕ
  pub b64decode : List ℕ → Option Bytes
  -- `b.decode()`
  pub utf8 : Bytes → Option (List ℕ)
  -- `json.dumps({"enc": 1, "ct": t}, separators=(",", ":"))`
  pub dumps_envelope : List ℕ → List ℕ
  -- `env["ct"]` of `env = json.loads(t)` where `env` is a dict in which "enc" is 1
  pub loads_envelope : List ℕ → Option (List ℕ)

-- `str.strip` and `bytes.strip`, of ASCII white space
abbrev pub is_white : ℕ → Bool
is_white c = nat_beq c 32 || leb 9 c && leb c 13 || leb 28 c && leb c 31

unfoldable pub strip_left : List ℕ → List ℕ
strip_left [] = []
strip_left (c ∷ cs) = let rest = strip_left cs in if is_white c then rest else c ∷ cs

abbrev pub cons_kept : ℕ → List ℕ → List ℕ
cons_kept c [] = if is_white c then [] else c ∷ []
cons_kept c (d ∷ rest) = c ∷ d ∷ rest

unfoldable pub strip_right : List ℕ → List ℕ
strip_right [] = []
strip_right (c ∷ cs) = cons_kept c (strip_right cs)

unfoldable pub strip : List ℕ → List ℕ
unfolding strip_left strip_right
strip s = strip_right (strip_left s)

-- What `resolve_tmk` does: it returns a key, or None, or it raises a ValueError.
pub data Resolved : Type 0 where
  no_key : Resolved
  key : Bytes → Resolved
  value_error : Resolved

-- What `load_or_create_dek` does: it returns the key, with the file `key.enc` after the call, or
-- it raises.
pub data Opened (A : Type 0) : Type 0 where
  opened : Bytes → A → Opened A
  refused : Opened A

-- The dict of `wrap_dek`; its version and its algorithm are constants.
pub record Wrapped : Type 0 where
  pub n : List ℕ
  pub ct : List ℕ

abbrev pub joined_parts : Bytes × Bytes → Bytes
joined_parts (ct, tag) = ct ++ tag

-- `data[12:-16]` and `data[-16:]`
abbrev pub body_part : Bytes → Bytes
body_part b = take (length b - tag_len) b

abbrev pub tag_part : Bytes → Bytes
tag_part b = drop (length b - tag_len) b

abbrev pub opened_with : Option Bytes → Wrapped → Opened Wrapped
opened_with none w = refused
opened_with (some dek) w = opened dek w

abbrev pub and_then {ℓ κ} : {A : Type ℓ} {B : Type κ} → Option A → (A → Option B) → Option B
and_then none f = none
and_then (some a) f = f a

abbrev pub or_text : Option (List ℕ) → List ℕ → List ℕ
or_text none t = t
or_text (some u) t = u

module _ (K : Ciphers) where
  -- `tmk_arg`, and the environment's NEDB_TMK and the bytes of the file of NEDB_TMK_FILE
  abbrev from_env : Option (List ℕ) → Option Bytes → Resolved
  from_env none none = no_key
  from_env none (some file) = key (K.hkdf (strip file))
  from_env (some []) none = no_key
  from_env (some []) (some file) = key (K.hkdf (strip file))
  from_env (some (c ∷ cs)) file = elim (from_hex (c ∷ cs)) [
    | none ↦ value_error
    | some b ↦ key (K.hkdf b)
  ]

  unfoldable pub resolve_tmk : Option Bytes → Option (List ℕ) → Option Bytes → Resolved
  unfolding strip from_hex
  resolve_tmk none env file = from_env env file
  resolve_tmk (some b) env file = key (K.hkdf b)

  unfoldable pub encrypt_bytes : Bytes → Bytes → Bytes → Bytes → Bytes
  encrypt_bytes nonce plaintext dek aad =
      nonce ++ joined_parts (K.encrypt_and_digest dek nonce aad plaintext)

  unfoldable pub decrypt_bytes : Bytes → Bytes → Bytes → Option Bytes
  decrypt_bytes b dek aad =
      K.decrypt_and_verify dek (take nonce_len b) aad (drop nonce_len (body_part b)) (tag_part b)

  unfoldable pub wrap_dek : Bytes → Bytes → Bytes → Wrapped
  unfolding hex
  wrap_dek nonce dek tmk = record {
    n = hex nonce;
    ct = hex (joined_parts (K.encrypt_and_digest tmk nonce aad_dek dek));
  }

  abbrev unwrap_parts : Option Bytes → Option Bytes → Bytes → Option Bytes
  unwrap_parts none ct tmk = none
  unwrap_parts (some nonce) none tmk = none
  unwrap_parts (some nonce) (some ct) tmk =
      K.decrypt_and_verify tmk nonce aad_dek (body_part ct) (tag_part ct)

  -- none is a ValueError of `fromhex` or of the cipher.
  unfoldable pub unwrap_dek : Wrapped → Bytes → Option Bytes
  unfolding from_hex
  unwrap_dek w tmk = unwrap_parts (from_hex w.n) (from_hex w.ct) tmk

  -- The file `key.enc` is none before the first open; `fresh` and `nonce` are random.
  unfoldable pub load_or_create_dek : Bytes → Bytes → Option Wrapped → Bytes → Opened Wrapped
  unfolding unwrap_dek wrap_dek
  load_or_create_dek fresh nonce (some w) tmk = opened_with (unwrap_dek w tmk) w
  load_or_create_dek fresh nonce none tmk = opened fresh (wrap_dek nonce fresh tmk)

  abbrev pub rewrapped : Opened Wrapped → Bytes → Bytes → Option Wrapped
  rewrapped refused nonce tmk = none
  rewrapped (opened dek w) nonce tmk = some (wrap_dek nonce dek tmk)

  -- The file after `rewrap_dek`; none where it raises.
  unfoldable pub rewrap_dek :
      Bytes → Bytes → Bytes → Option Wrapped → Bytes → Bytes → Option Wrapped
  unfolding load_or_create_dek
  rewrap_dek fresh nonce nonce' file old_tmk new_tmk =
      rewrapped (load_or_create_dek fresh nonce file old_tmk) nonce' new_tmk

  unfoldable pub aof_encode : Bytes → List ℕ → Option Bytes → List ℕ
  unfolding encrypt_bytes
  aof_encode nonce op_json none = op_json
  aof_encode nonce op_json (some dek) =
      K.dumps_envelope (K.b64encode (encrypt_bytes nonce op_json dek aad_data))

  -- The `try` of `aof_decode` and of `snapshot_decode`; none is an exception, or no envelope.
  unfoldable pub open_envelope : List ℕ → Bytes → Option Bytes
  unfolding decrypt_bytes
  open_envelope t dek =
      and_then (K.loads_envelope t)
        (λ ct. and_then (K.b64decode ct) (λ b. decrypt_bytes b dek aad_data))

  abbrev pub decode_stripped : List ℕ → Option Bytes → List ℕ
  decode_stripped [] dek = []
  decode_stripped (c ∷ cs) none = c ∷ cs
  decode_stripped (c ∷ cs) (some dek) =
      or_text (and_then (open_envelope (c ∷ cs) dek) K.utf8) (c ∷ cs)

  unfoldable pub aof_decode : List ℕ → Option Bytes → List ℕ
  unfolding strip open_envelope
  aof_decode line dek = decode_stripped (strip line) dek

  unfoldable pub snapshot_encode : Bytes → Bytes → Option Bytes → Bytes
  unfolding encrypt_bytes
  snapshot_encode nonce content none = content
  snapshot_encode nonce content (some dek) =
      K.dumps_envelope (K.b64encode (encrypt_bytes nonce content dek aad_data))

  unfoldable pub snapshot_decode : Bytes → Option Bytes → Bytes
  unfolding open_envelope
  snapshot_decode raw none = raw
  snapshot_decode raw (some dek) = or_text (open_envelope raw dek) raw

  unfoldable pub chunk_encode : Bytes → Bytes → Option Bytes → Bytes
  unfolding encrypt_bytes
  chunk_encode nonce b none = b
  chunk_encode nonce b (some dek) = encrypt_bytes nonce b dek aad_data

  -- none is a ValueError of the cipher.
  unfoldable pub chunk_decode : Bytes → Option Bytes → Option Bytes
  unfolding decrypt_bytes
  chunk_decode b none = some b
  chunk_decode b (some dek) = decrypt_bytes b dek aad_data
