-- ===== src/Persist.antt =====
-- The append-only file of python/nedb/engine.py, with `to_dict` and `from_dict` of
-- python/nedb/log.py: how ops are written, and what an open reads and rewrites. `json` is of another
-- package and is the parameter `Json`. A file is the text that is decoded from it, which is ASCII.
pub mod Dicts
pub mod Files
pub mod Lines
pub mod Crash
pub mod Seal
mod Tests
use aof_db.Prelude.{
  ℕ, zero, suc, ◌≡◌, String, Bool, true, false, ◌||◌, Option, none, some, List, [], ◌∷◌, ◌++◌, Dict,
  lookup, nat_beq, if◌then◌else◌, string_eq,
}
use aof_db.Hex.{Bytes}
use aof_db.Crypto.{Ciphers, aof_encode, aof_decode, and_then, strip}
use aof_db.Log.{Text, Body, Op}

-- The values in the dict of an op. `P` stands for payloads and `F` for floats.
pub data Value (P F : Type 0) : Type 0 where
  null : Value P F
  int_value : ℕ → Value P F
  str_value : String → Value P F
  text_value : Text → Value P F
  payload_value : P → Value P F
  float_value : F → Value P F
  ints_value : List ℕ → Value P F

abbrev pub OpDict : Type 0 → Type 0 → Type 0
OpDict P F = Dict String (Value P F)

-- `json.dumps` and `json.loads`, where none is an exception, or a value that is not a dict.
pub record Json (P F : Type 0) : Type 0 where
  pub dumps : OpDict P F → Text
  pub loads : Text → Option (OpDict P F)

-- A line ends at "\n", and also at "\r" since the file is opened for universal newlines.
abbrev pub is_end : ℕ → Bool
is_end c = nat_beq c b'\n' || nat_beq c b'\r'

abbrev pub join_first : ℕ → List Text → List Text
join_first c [] = (c ∷ []) ∷ []
join_first c (l ∷ ls) = (c ∷ l) ∷ ls

-- `for raw_line in fh`. The lines are without their ends, which `aof_decode` strips; an empty one
-- after the last end is blank to it.
unfoldable pub lines_of : Text → List Text
lines_of [] = [] ∷ []
lines_of (c ∷ cs) = let rest = lines_of cs in if is_end c then [] ∷ rest else join_first c rest

module _ {P F : Type 0} where
  -- `if o is not None: d[k] = o`
  abbrev pub set_some : {A : Type 0} → String → (A → Value P F) → Option A → OpDict P F → OpDict P F
  set_some k f none d = d
  set_some k f (some a) d = d ++ (k, f a) ∷ []

  abbrev pub or_null : Option String → Value P F
  or_null none = null
  or_null (some s) = str_value s

  unfoldable pub to_dict : Op P F → OpDict P F
  to_dict o = set_some "valid_to" str_value o.valid_to (
      set_some "valid_from" str_value o.valid_from (
        set_some "confidence" float_value o.confidence (
          set_some "evidence" str_value o.evidence (
            set_some "caused_by" ints_value o.caused_by (
              ("seq", int_value o.seq)
              ∷ ("client", str_value o.client)
              ∷ ("nonce", int_value o.nonce)
              ∷ ("op", str_value o.op)
              ∷ ("payload", payload_value o.payload)
              ∷ ("ts", float_value o.ts)
              ∷ ("idem", or_null o.idem)
              ∷ ("prev_hash", text_value o.prev_hash)
              ∷ ("hash", text_value o.hash)
              ∷ [])))))

  -- The type that the field of `Op` has; a value of another type is none.
  abbrev pub as_int : Value P F → Option ℕ
  as_int (int_value n) = some n
  as_int v = none

  abbrev pub as_str : Value P F → Option String
  as_str (str_value s) = some s
  as_str v = none

  abbrev pub as_text : Value P F → Option Text
  as_text (text_value t) = some t
  as_text v = none

  abbrev pub as_payload : Value P F → Option P
  as_payload (payload_value p) = some p
  as_payload v = none

  abbrev pub as_float : Value P F → Option F
  as_float (float_value x) = some x
  as_float v = none

  abbrev pub as_ints : Value P F → Option (List ℕ)
  as_ints (ints_value l) = some l
  as_ints v = none

  -- `d[k]`, and `d.get(k)` where nothing raises
  unfoldable pub field : {A : Type 0} → String → (Value P F → Option A) → OpDict P F → Option A
  unfolding lookup
  field k f d = and_then (lookup k d) f

  -- none is a KeyError.
  unfoldable pub from_dict : OpDict P F → Option (Op P F)
  unfolding field
  from_dict d = and_then (field "seq" as_int d) (λ seq.
      and_then (field "client" as_str d) (λ client. and_then (field "nonce" as_int d) (λ nonce.
        and_then (field "op" as_str d) (λ op. and_then (field "payload" as_payload d) (λ payload.
          and_then (field "ts" as_float d) (λ ts.
            and_then (field "prev_hash" as_text d) (λ prev_hash.
              and_then (field "hash" as_text d) (λ hash. some (record {
                body = record {
                  seq = seq;
                  client = client;
                  nonce = nonce;
                  op = op;
                  payload = payload;
                  ts = ts;
                  idem = field "idem" as_str d;
                  caused_by = field "caused_by" as_ints d;
                  evidence = field "evidence" as_str d;
                  confidence = field "confidence" as_float d;
                  valid_from = field "valid_from" as_str d;
                  valid_to = field "valid_to" as_str d;
                };
                prev_hash = prev_hash;
                hash = hash;
              })))))))))
