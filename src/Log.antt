-- ===== src/Log.antt =====
-- python/nedb/log.py: the append-only, hash-chained op log with its nonce and idempotency tables.
-- `P` stands for payloads and `F` for floats. A head or hash is a text of hex digits; its `encode()`
-- is the list of its character codes, since it is ASCII. Nonces are natural numbers: a negative one
-- is refused as 0 is. A dict of optional keys is a record of options.
pub mod Chain
pub mod Tables
pub mod Recovery
pub mod Later
pub mod Tamper
pub mod Slice
pub mod Heal
mod Tests
use aof_db.Prelude.{
  ℕ, zero, suc, String, Bool, true, false, not, Option, none, some, List, [], ◌∷◌, ◌++◌, Dict,
  lookup, insert, has_key, or_default, length, get_elem?, get_last?, leb, ltb, if◌then◌else◌, ◌&&◌,
  string_eq,
}
use aof_db.Prelude.Texts.{text_beq, repeat}
use aof_db.Hex.{Bytes, hex}
use aof_db.Hash.{Blake}

abbrev pub Text : Type 0
Text = List ℕ

unfoldable pub genesis : Text
unfolding repeat
genesis = repeat b'0' 64

-- The dict that is hashed: the fields of `_op_body`, and of `body` in `append`.
pub record Body (P F : Type 0) : Type 0 where
  pub seq : ℕ
  pub client : String
  pub nonce : ℕ
  pub op : String
  pub payload : P
  pub ts : F
  pub idem : Option String
  pub caused_by : Option (List ℕ)
  pub evidence : Option String
  pub confidence : Option F
  pub valid_from : Option String
  pub valid_to : Option String

-- The dataclass `Op`.
pub record Op (P F : Type 0) : Type 0 where
  pub body : Body P F
  pub open body use *
  pub prev_hash : Text
  pub hash : Text

-- The arguments of `append`.
pub record Request (P F : Type 0) : Type 0 where
  pub client : String
  pub nonce : ℕ
  pub op : String
  pub payload : P
  pub idem : Option String
  pub ts : Option F
  pub caused_by : Option (List ℕ)
  pub evidence : Option String
  pub confidence : Option F
  pub valid_from : Option String
  pub valid_to : Option String

pub record OpLog (P F : Type 0) : Type 0 where
  pub ops : List (Op P F)
  pub last_nonce : Dict String ℕ
  pub idem_seqs : Dict String ℕ
  pub head : Text

-- What `append` does: it returns the op and whether it was created, with the log after the call, or
-- it raises and leaves the log as it was.
pub data Appended (P F : Type 0) : Type 0 where
  returned : Op P F → Bool → OpLog P F → Appended P F
  replay_error : Appended P F
  index_error : Appended P F

-- BLAKE2b, and the JSON encoding of a body by the standard library's `json.dumps`.
pub record Codec (P F : Type 0) : Type 0 where
  pub blake : Blake
  pub canon : Body P F → Bytes

abbrev pub last_of : String → Dict String ℕ → ℕ
last_of client m = or_default 0 (lookup client m)

abbrev pub known : Option String → Dict String ℕ → Option ℕ
known none m = none
known (some key) m = lookup key m

abbrev pub record_idem : Option String → ℕ → Dict String ℕ → Dict String ℕ
record_idem none seq m = m
record_idem (some key) seq m = insert key seq m

abbrev pub load_idem_key : Option String → ℕ → Dict String ℕ → Dict String ℕ
load_idem_key none seq m = m
load_idem_key (some key) seq m = if not (has_key key m) then insert key seq m else m

module _ {P F : Type 0} where
  abbrev pub empty : OpLog P F
  empty = record { ops = []; last_nonce = []; idem_seqs = []; head = genesis }

  abbrev pub body_of : Request P F → ℕ → F → Body P F
  body_of r seq now = record {
    seq = seq;
    client = r.client;
    nonce = r.nonce;
    op = r.op;
    payload = r.payload;
    ts = or_default now r.ts;
    idem = r.idem;
    caused_by = r.caused_by;
    evidence = r.evidence;
    confidence = r.confidence;
    valid_from = r.valid_from;
    valid_to = r.valid_to;
  }

  abbrev original : Option (Op P F) → OpLog P F → Appended P F
  original none l = index_error
  original (some o) l = returned o false l

module _ {P F : Type 0} (C : Codec P F) where
  -- `blake(head.encode() + canon(body))`
  unfoldable pub chain_hash : Text → Body P F → Text
  chain_hash head body = hex (C.blake.digest (head ++ C.canon body))

  unfoldable pub make_op : Request P F → F → OpLog P F → Op P F
  unfolding chain_hash
  make_op r now l =
      let body = body_of r (length l.ops) now in
      record { body = body; prev_hash = l.head; hash = chain_hash l.head body }

  unfoldable pub extend : Request P F → F → OpLog P F → OpLog P F
  unfolding make_op
  extend r now l =
      let rec = make_op r now l in
      record {
        ops = l.ops ++ rec ∷ [];
        last_nonce = insert r.client r.nonce l.last_nonce;
        idem_seqs = record_idem r.idem (length l.ops) l.idem_seqs;
        head = rec.hash;
      }

  unfoldable pub append_new : Request P F → F → OpLog P F → Appended P F
  unfolding extend
  append_new r now l =
      if leb r.nonce (last_of r.client l.last_nonce)
      then replay_error
      else returned (make_op r now l) true (extend r now l)

  abbrev append_known : Option ℕ → Request P F → F → OpLog P F → Appended P F
  append_known none r now l = append_new r now l
  append_known (some seq) r now l = original (get_elem? l.ops seq) l

  -- `now` is what `time.time()` returns.
  unfoldable pub append : Request P F → F → OpLog P F → Appended P F
  unfolding append_new
  append r now l = append_known (known r.idem l.idem_seqs) r now l

  -- The loop of `verify`.
  unfoldable pub verify_loop : Text → List (Op P F) → Bool
  unfolding chain_hash
  verify_loop prev [] = true
  verify_loop prev (o ∷ ops) =
      let rest = verify_loop o.hash ops in
      if not (text_beq o.prev_hash prev)
      then false
      else if not (text_beq o.hash (chain_hash prev o.body))
      then false
      else rest

  unfoldable pub verify : OpLog P F → Bool
  unfolding verify_loop genesis
  verify l = verify_loop genesis l.ops

module _ {P F : Type 0} where
  -- One round of the loop of `load`, on the nonce table and on the idempotency table.
  pub load_nonce : Op P F → Dict String ℕ → Dict String ℕ
  load_nonce o m = if ltb (last_of o.client m) o.nonce then insert o.client o.nonce m else m

  pub load_idem : Op P F → Dict String ℕ → Dict String ℕ
  load_idem o m = load_idem_key o.idem o.seq m

  pub load_nonces : List (Op P F) → Dict String ℕ → Dict String ℕ
  unfolding load_nonce
  load_nonces [] m = m
  load_nonces (o ∷ ops) m = load_nonces ops (load_nonce o m)

  pub load_idems : List (Op P F) → Dict String ℕ → Dict String ℕ
  unfolding load_idem
  load_idems [] m = m
  load_idems (o ∷ ops) m = load_idems ops (load_idem o m)

  abbrev pub head_of : Option (Op P F) → Text
  head_of none = genesis
  head_of (some o) = o.hash

  unfoldable pub load : List (Op P F) → OpLog P F
  unfolding load_nonces load_idems
  load ops = record {
    ops = ops;
    last_nonce = load_nonces ops [];
    idem_seqs = load_idems ops [];
    head = head_of (get_last? ops);
  }

  unfoldable pub slice_until : ℕ → List (Op P F) → List (Op P F)
  slice_until as_of [] = []
  slice_until as_of (o ∷ ops) =
      let rest = slice_until as_of ops in if leb o.seq as_of then o ∷ rest else rest
