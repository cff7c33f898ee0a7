-- ===== src/Persist/Files.antt =====
-- Writing and opening the append-only file: `_log_append`, `_rewrite_aof`, `_load` without a
-- snapshot, `_backfill_encrypt_if_needed` and `_open` of python/nedb/engine.py.
use aof_db.Prelude.{
  ℕ, suc, Bool, true, false, Option, none, some, List, [], ◌∷◌, ◌++◌, if◌then◌else◌,
}
use aof_db.Hex.{Bytes}
use aof_db.Crypto.{Ciphers, aof_encode, aof_decode, and_then, strip}
use aof_db.Log.{Text, Op}
use aof_db.Persist.{Json, OpDict, lines_of, to_dict, from_dict}

-- What one line of the file is to `_load`; a line that is not an op raises.
pub data Entry (P F : Type 0) : Type 0 where
  blank : Entry P F
  corrupt : Entry P F
  entry : Op P F → Entry P F

-- `ops` and whether `corrupt_count` is positive, after the loop over the lines.
pub record Recovered (P F : Type 0) : Type 0 where
  pub ops : List (Op P F)
  pub is_corrupt : Bool

-- A line of the file: the op, and the nonce that `os.urandom` gives when it is encrypted.
abbrev pub Line : Type 0 → Type 0 → Type 0
Line P F = Bytes × Op P F

-- The n-th line is written with the n-th nonce.
unfoldable pub with_nonces : {A : Type 0} → (ℕ → Bytes) → List A → List (Bytes × A)
with_nonces random [] = []
with_nonces random (o ∷ ops) = (random 0, o) ∷ with_nonces (λ n. random (suc n)) ops

module _ {P F : Type 0} where
  abbrev pub keep_op : Op P F → Recovered P F → Recovered P F
  keep_op o r = record r { ops = o ∷ r.ops }

  abbrev pub parsed : Option (Op P F) → Entry P F
  parsed none = corrupt
  parsed (some o) = entry o

  -- from `env.get("enc") == 1` and from `json.loads`
  abbrev pub unless_sealed : Option Text → Option (OpDict P F) → Text → Option Text
  unless_sealed (some ct) env stripped = none
  unless_sealed none none stripped = none
  unless_sealed none (some env) stripped = some stripped

module _ {P F : Type 0} (K : Ciphers) (J : Json P F) where
  -- `_crypto.aof_encode(json.dumps(rec.to_dict()), self._dek)`, without the "\n"
  unfoldable pub write_line : Option Bytes → Line P F → Text
  unfolding aof_encode to_dict
  write_line dek (nonce, o) = aof_encode K nonce (J.dumps (to_dict o)) dek

  -- The writes of `_log_append`, one after the other, and the loop of `_rewrite_aof`.
  unfoldable pub write_aof : Option Bytes → List (Line P F) → Text
  unfolding write_line
  write_aof dek [] = []
  write_aof dek (l ∷ ls) = write_line dek l ++ b'\n' ∷ write_aof dek ls

  abbrev pub read_decoded : Text → Entry P F
  read_decoded [] = blank
  read_decoded (c ∷ cs) = parsed (and_then (J.loads (c ∷ cs)) from_dict)

  -- The body of the `try`.
  unfoldable pub read_line : Option Bytes → Text → Entry P F
  unfolding aof_decode from_dict
  read_line dek raw_line = read_decoded (aof_decode K raw_line dek)

  abbrev pub recover : Entry P F → Recovered P F → Recovered P F
  recover blank rest = rest
  recover corrupt rest = record { ops = []; is_corrupt = true }
  recover (entry o) rest = keep_op o rest

  -- The loop of `_load`.
  unfoldable pub load_lines : Option Bytes → List Text → Recovered P F
  unfolding read_line
  load_lines dek [] = record { ops = []; is_corrupt = false }
  load_lines dek (l ∷ ls) = recover (read_line dek l) (load_lines dek ls)

  unfoldable pub load_aof : Option Bytes → Text → Recovered P F
  unfolding load_lines lines_of
  load_aof dek aof = load_lines dek (lines_of aof)

  -- The file after `_load`, which rewrites one with a corrupt line.
  unfoldable pub repair : (ℕ → Bytes) → Option Bytes → Text → Text
  unfolding load_aof write_aof with_nonces
  repair random dek aof =
      let r = load_aof dek aof in
      if r.is_corrupt then write_aof dek (with_nonces random r.ops) else aof

  abbrev pub plain_line : Text → Option Text
  plain_line stripped = unless_sealed (K.loads_envelope stripped) (J.loads stripped) stripped

  abbrev pub first_line : Text → Option Text → Option Text
  first_line [] rest = rest
  first_line (c ∷ cs) rest = plain_line (c ∷ cs)

  -- The first loop of `_backfill_encrypt_if_needed`; none where it returns there or after it. A
  -- first line that is JSON but no dict is not there any more after `_load`.
  unfoldable pub first_plain : List Text → Option Text
  unfolding strip
  first_plain [] = none
  first_plain (raw ∷ rest) = first_line (strip raw) (first_plain rest)

  abbrev pub seal_decoded : Text → Bytes → Bytes → Text → Text
  seal_decoded [] nonce dek rest = rest
  seal_decoded (c ∷ cs) nonce dek rest = aof_encode K nonce (c ∷ cs) (some dek) ++ b'\n' ∷ rest

  -- Its second loop, which writes the new file. The nonce of a blank line is not used.
  unfoldable pub seal_lines : (ℕ → Bytes) → Bytes → List Text → Text
  unfolding aof_decode aof_encode
  seal_lines random dek [] = []
  seal_lines random dek (raw ∷ rest) =
      seal_decoded (aof_decode K raw (some dek)) (random 0) dek
        (seal_lines (λ n. random (suc n)) dek rest)

  abbrev pub backfilled : Option Text → Text → Text → Text
  backfilled none sealed aof = aof
  backfilled (some plain) sealed aof = sealed

  unfoldable pub backfill_encrypt : (ℕ → Bytes) → Bytes → Text → Text
  unfolding first_plain seal_lines lines_of
  backfill_encrypt random dek aof =
      backfilled (first_plain (lines_of aof)) (seal_lines random dek (lines_of aof)) aof

  abbrev if_encrypted : Option Bytes → (ℕ → Bytes) → Text → Text
  if_encrypted none random aof = aof
  if_encrypted (some dek) random aof = backfill_encrypt random dek aof

  -- The file after `_open`, before the chain is healed.
  unfoldable pub open_aof : (ℕ → Bytes) → (ℕ → Bytes) → Option Bytes → Text → Text
  unfolding repair backfill_encrypt
  open_aof random random' dek aof = if_encrypted dek random' (repair random dek aof)
