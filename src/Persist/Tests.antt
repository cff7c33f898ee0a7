-- ===== src/Persist/Tests.antt =====
-- Concrete runs of the append-only file of python/nedb/engine.py: two ops, each in a line of three
-- characters.
use aof_db.Prelude.{
  ℕ, ◌+◌, ◌≡◌, ◌≤◌, refl, true, false, Option, none, some, [], ◌∷◌, ◌++◌, All, length, take, lookup,
  nat_beq, arith, if◌then◌else◌, string_eq,
}
use aof_db.Hash.{weak, weak_digest}
use aof_db.Prelude.Texts.{text_beq}
use aof_db.Hex.{Bytes, hex}
use aof_db.Crypto.{strip, strip_left, strip_right, aof_decode, encrypt_bytes, aof_encode}
use aof_db.Crypto.Open.{zeros, open_ciphers, open_ciphers-IsSound}
use aof_db.Crypto.Envelopes.{IsBraced}
use aof_db.Log.{
  Text, Op, Request, OpLog, Codec, make_op, extend, empty, load, verify, verify_loop, genesis,
  chain_hash,
}
use aof_db.Persist.{Json, OpDict, Value, int_value, to_dict, from_dict, lines_of, field}
use aof_db.Persist.Files.{
  Line, with_nonces, write_line, write_aof, read_line, load_lines, load_aof, repair, open_aof,
}
use aof_db.Persist.Lines.{Reads}
use aof_db.Persist.Crash.{load_aof_crash, load_aof-repair}
use aof_db.Persist.Seal.{IsPlain, IsSealed, open_aof_plain, open_aof_no_key}

abbrev codec : Codec ℕ ℕ
codec = record { blake = weak; canon = λ b. b.seq ∷ b.nonce ∷ b.payload ∷ [] }

abbrev request : ℕ → Request ℕ ℕ
request nonce = record {
  client = "ana";
  nonce = nonce;
  op = "put";
  payload = 7;
  idem = none;
  ts = none;
  caused_by = none;
  evidence = some "inference";
  confidence = none;
  valid_from = none;
  valid_to = none;
}

abbrev log₁ : OpLog ℕ ℕ
log₁ = extend codec (request 1) 100 empty

abbrev op₁ : Op ℕ ℕ
op₁ = make_op codec (request 1) 100 empty

abbrev op₂ : Op ℕ ℕ
op₂ = make_op codec (request 2) 101 log₁

abbrev digit : Option (Value ℕ ℕ) → ℕ
digit (some (int_value n)) = b'0' + n
digit v = b'?'

abbrev loaded : ℕ → Option (OpDict ℕ ℕ)
loaded c =
    if nat_beq c b'0'
    then some (to_dict op₁)
    else if nat_beq c b'1'
    then some (to_dict op₂)
    else none

abbrev json : Json ℕ ℕ
json = record {
  dumps = λ d. b'{' ∷ digit (lookup "seq" d) ∷ b'}' ∷ [];
  loads = λ t. elim t [
    | [] ↦ none
    | a ∷ u ↦ elim u [
      | [] ↦ none
      | b ∷ v ↦ elim v [
        | [] ↦ none
        | c ∷ w ↦ elim w [ [] ↦ loaded b | d ∷ x ↦ some (("enc", int_value 1) ∷ []) ]
      ]
    ]
  ];
}

-- No proper prefix of a text of three characters has three.
json_torn :
    (a b c : ℕ) (front : Text) (x : ℕ) (back : Text)
    → a ∷ b ∷ c ∷ [] ≡ front ++ x ∷ back
    → (json.loads front ≡ none) × (open_ciphers.loads_envelope front ≡ none)
json_torn a b c [] x back e = (refl, refl)
json_torn a b c (p ∷ []) x back e = (refl, refl)
json_torn a b c (p ∷ q ∷ []) x back e = (refl, refl)
json_torn a b c (p ∷ q ∷ r ∷ []) x back e = cc e
json_torn a b c (p ∷ q ∷ r ∷ s ∷ front) x back e = cc e

abbrev nonce₁ : Bytes
nonce₁ = 1 ∷ 2 ∷ 3 ∷ 4 ∷ 5 ∷ 6 ∷ 7 ∷ 8 ∷ 9 ∷ 14 ∷ 15 ∷ 16 ∷ []

abbrev line₁ : Line ℕ ℕ
line₁ = (nonce₁, op₁)

abbrev line₂ : Line ℕ ℕ
line₂ = (nonce₁, op₂)

abbrev braced : (n : ℕ) → IsBraced (b'{' ∷ n ∷ b'}' ∷ [])
braced n = record { inner = n ∷ []; braces = refl }

reads₁ : Reads open_ciphers json none line₁
unfolding to_dict lookup write_line aof_encode make_op extend chain_hash
reads₁ = record {
  length-nonce = refl;
  object = record {
    braced = braced b'0';
    one_line = (refl, (refl, (refl, tt)));
    torn = json_torn b'{' b'0' b'}';
  };
  json_braced = braced b'0';
  json_ascii = ground arith;
  loads-dumps = refl;
}

reads₂ : Reads open_ciphers json none line₂
unfolding to_dict lookup write_line aof_encode make_op extend chain_hash
reads₂ = record {
  length-nonce = refl;
  object = record {
    braced = braced b'1';
    one_line = (refl, (refl, (refl, tt)));
    torn = json_torn b'{' b'1' b'}';
  };
  json_braced = braced b'1';
  json_ascii = ground arith;
  loads-dumps = refl;
}

-- 5 of the 8 characters: the first line, and the start of the second.
load_aof_crash_example :
    (k : ℕ) × (((load_aof open_ciphers json none
          (take 5 (write_aof open_ciphers json none (line₁ ∷ line₂ ∷ [])))).ops
        ≡ op₁ ∷ take k (op₂ ∷ []))
      × (verify codec (
            load
              (load_aof open_ciphers json none
                (take 5 (write_aof open_ciphers json none (line₁ ∷ line₂ ∷ [])))).ops)
          ≡ true))
load_aof_crash_example =
    load_aof_crash open_ciphers json codec none (line₁ ∷ []) (line₂ ∷ []) 5 open_ciphers-IsSound
      (reads₁, (reads₂, tt)) verifies synced
  where
    verifies : verify_loop codec genesis (op₁ ∷ op₂ ∷ []) ≡ true
    verifies = unfold verify_loop genesis make_op extend chain_hash text_beq hex weak_digest in refl

    synced : length (write_aof open_ciphers json none (line₁ ∷ [])) ≤ 5
    synced =
        unfold write_aof write_line aof_encode to_dict lookup make_op extend chain_hash in
        omega arith

abbrev torn_aof : Text
torn_aof = b'{' ∷ b'0' ∷ b'}' ∷ b'\n' ∷ b'{' ∷ b'1' ∷ []

load_aof-repair_example :
    load_aof open_ciphers json none (repair open_ciphers json (λ n. nonce₁) none torn_aof)
    ≡ record { ops = (load_aof open_ciphers json none torn_aof).ops; is_corrupt = false }
load_aof-repair_example =
    load_aof-repair open_ciphers json open_ciphers-IsSound none (λ n. nonce₁) torn_aof reads
  where
    reads :
        All
          (Reads open_ciphers json none)
          (with_nonces (λ n. nonce₁) (load_aof open_ciphers json none torn_aof).ops)
    reads =
        unfold load_aof load_lines lines_of read_line aof_decode strip strip_left strip_right
          with_nonces from_dict field to_dict lookup make_op extend chain_hash in
        (reads₁, tt)

plain₁ : IsPlain open_ciphers json line₁
unfolding to_dict lookup make_op extend chain_hash
plain₁ = record { reads = reads₁; no_envelope = refl }

open_aof_plain_example :
    open_aof open_ciphers json
      (λ n. [])
      (λ n. nonce₁)
      (some (7 ∷ []))
      (write_aof open_ciphers json none (line₁ ∷ []))
    ≡ write_aof open_ciphers json (some (7 ∷ [])) (line₁ ∷ [])
unfolding with_nonces
open_aof_plain_example =
    open_aof_plain open_ciphers json (λ n. []) (λ n. nonce₁) (7 ∷ []) (line₁ ∷ []) (plain₁, tt)

sealed₁ : IsSealed open_ciphers json (7 ∷ []) line₁
unfolding to_dict lookup make_op extend chain_hash write_line aof_encode encrypt_bytes
sealed₁ = record {
  braced = record { inner = b'!' ∷ b'!' ∷ nonce₁ ++ b'{' ∷ b'0' ∷ b'}' ∷ zeros; braces = refl };
  one_line = ground arith;
  envelope = ("enc", int_value 1) ∷ [];
  loads-line = refl;
  no_seq = refl;
}

open_aof_no_key_example :
    let aof = write_aof open_ciphers json (some (7 ∷ [])) (line₁ ∷ []) in
    ((load_aof open_ciphers json none aof).ops ≡ [])
    × (open_aof open_ciphers json (λ n. nonce₁) (λ n. nonce₁) none aof ≡ [])
open_aof_no_key_example =
    open_aof_no_key open_ciphers json (λ n. nonce₁) (λ n. nonce₁) (7 ∷ []) line₁ [] sealed₁
