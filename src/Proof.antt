-- ===== src/Proof.antt =====
-- python/nedb/proof.py: inclusion proofs over the op log's hashes, and the handler of
-- python/nedb/server.py that issues them. A text is a list of character codes, as in `Hex`; none is
-- an exception.

pub mod Verdict
pub mod Commitment
pub mod Issue
mod Tests
use aof_db.Prelude.{
  ℕ, zero, suc, Bool, true, false, not, Option, none, some, List, [], ◌∷◌, ◌++◌, Dict, lookup,
  length, nat_beq, if◌then◌else◌, ◌&&◌, String, string_eq, map, take, drop, ◌+◌,
}
use aof_db.Prelude.Texts.{text_beq, repeat}
use aof_db.Hex.{Bytes, hex, from_hex}
use aof_db.Hash.{Blake}

abbrev pub Text : Type 0
Text = List ℕ

abbrev pub genesis : Text
unfolding repeat
genesis = repeat b'0' 64

-- An element of a list in a proof, and a field of a proof, as far as `isinstance` tells them apart.
-- A negative `int` is `negsuc`.
pub data Item : Type 0 where
  str : Text → Item
  other : Item

pub data Field : Type 0 where
  str : Text → Field
  pos : ℕ → Field
  negsuc : ℕ → Field
  list : List Item → Field
  other : Field

-- The argument of `verify_proof`: a dict, or anything else.
pub data Candidate : Type 0 where
  dict : Dict String Field → Candidate
  no_dict : Candidate

abbrev pub is_some {ℓ} : {A : Type ℓ} → Option A → Bool
is_some none = false
is_some (some a) = true

-- `isinstance(s, str) and len(s) == 64`, and `bytes.fromhex(s)` raises nothing
pub is_hex32_text : Text → Bool
is_hex32_text s = nat_beq (length s) 64 && is_some (from_hex s)

unfoldable pub is_hex32 : Option Field → Bool
unfolding is_hex32_text
is_hex32 (some (str s)) = is_hex32_text s
is_hex32 _ = false

unfoldable pub is_hex32_item : Item → Bool
unfolding is_hex32_text
is_hex32_item (str s) = is_hex32_text s
is_hex32_item other = false

unfoldable pub all_hex32 : List Item → Bool
unfolding is_hex32_item
all_hex32 [] = true
all_hex32 (s ∷ rest) = is_hex32_item s && all_hex32 rest

-- `isinstance(proof["seq"], int)` and not `proof["seq"] < 0`
abbrev pub is_seq : Option Field → Bool
is_seq (some (pos n)) = true
is_seq _ = false

abbrev pub items_of : Option Field → Option (List Item)
items_of (some (list items)) = some items
items_of _ = none

abbrev pub text_of : Option Field → Text
text_of (some (str s)) = s
text_of _ = []

abbrev pub item_text : Item → Text
item_text (str s) = s
item_text other = []

-- The reply of `POST /v1/databases/<name>/proof`: the error codes, an exception (500), or the proof
-- with its `verified` flag.
pub data Reply : Type 0 where
  bad_request : Reply
  not_found : Reply
  raised : Reply
  issued : Dict String Field → Bool → Reply

-- The first op with the wanted hash, by its `seq` and `hash`.
unfoldable pub find_op : Text → List (ℕ × Text) → Option (ℕ × Text)
find_op want [] = none
find_op want (o ∷ ops) = let rest = find_op want ops in if text_beq o.1 want then some o else rest

abbrev pub proof_dict : ℕ × Text → Text → List Text → Text → Dict String Field
proof_dict target prev_head subsequent head =
    ("hash", str target.1)
    ∷ ("seq", pos target.0)
    ∷ ("prev_head", str prev_head)
    ∷ ("subsequent", list (map Item.str subsequent))
    ∷ ("head", str head)
    ∷ []

module _ (H : Blake) where
  abbrev pub step_bytes : Option Bytes → Option Bytes → Option Text
  step_bytes (some x) (some y) = some (hex (H.digest (x ++ y)))
  step_bytes (some x) none = none
  step_bytes none y = none

  -- `_chain_step`
  unfoldable pub chain_step : Text → Text → Option Text
  chain_step head op_hash = step_bytes (from_hex head) (from_hex op_hash)

  -- The loop of `fold_head`, which is also the loop over `subsequent` in `verify_proof`.
  unfoldable pub fold_head : List Text → Option Text → Option Text
  unfolding chain_step
  fold_head [] head = head
  fold_head (h ∷ hs) none = none
  fold_head (h ∷ hs) (some head) = fold_head hs (chain_step head h)

  abbrev pub texts : List Item → List Text
  texts [] = []
  texts (s ∷ rest) = item_text s ∷ texts rest

  abbrev pub compare_head : Option Text → Text → Option Bool
  compare_head none head = none
  compare_head (some h) head = some (text_beq h head)

  -- Steps 1 to 3, after the shape checks.
  unfoldable pub derive : Text → Text → List Text → Text → Option Bool
  unfolding fold_head
  derive prev_head hash subsequent head =
      compare_head (fold_head subsequent (chain_step prev_head hash)) head

  abbrev pub check_shape : Dict String Field → Option (List Item) → Option Bool
  check_shape proof none = some false
  check_shape proof (some subsequent) =
      if not (is_hex32 (lookup "hash" proof))
      then some false
      else if not (is_hex32 (lookup "prev_head" proof))
      then some false
      else if not (is_hex32 (lookup "head" proof))
      then some false
      else if not (all_hex32 subsequent)
      then some false
      else derive (text_of (lookup "prev_head" proof)) (text_of (lookup "hash" proof))
          (texts subsequent) (text_of (lookup "head" proof))

  -- `all(k in proof for k in required)`
  abbrev pub has_required : Dict String Field → Bool
  has_required proof =
      is_some (lookup "hash" proof)
      && (is_some (lookup "seq" proof)
          && (is_some (lookup "prev_head" proof)
              && (is_some (lookup "subsequent" proof) && is_some (lookup "head" proof))))

  unfoldable pub verify_proof : Candidate → Option Bool
  unfolding derive is_hex32 all_hex32
  verify_proof no_dict = some false
  verify_proof (dict proof) =
      if not (has_required proof)
      then some false
      else if not (is_seq (lookup "seq" proof))
      then some false
      else check_shape proof (items_of (lookup "subsequent" proof))

  abbrev pub with_flag : Dict String Field → Option Bool → Reply
  with_flag proof none = raised
  with_flag proof (some b) = issued proof b

  abbrev pub build : ℕ × Text → List Text → Option Text → Option Text → Reply
  build target subsequent none head = raised
  build target subsequent (some prev_head) none = raised
  build target subsequent (some prev_head) (some head) =
      let proof = proof_dict target prev_head subsequent head in
      with_flag proof (verify_proof (dict proof))

  abbrev pub issue_for : List (ℕ × Text) → Option (ℕ × Text) → Reply
  issue_for ops none = not_found
  issue_for ops (some target) =
      let op_hashes : List Text = map (λ o. o.1) ops in
      build target (drop (target.0 + 1) op_hashes)
        (fold_head (take target.0 op_hashes) (some genesis)) (fold_head op_hashes (some genesis))

  -- `want` is the request's hash after `strip().lower()`.
  unfoldable pub issue : Text → List (ℕ × Text) → Reply
  unfolding verify_proof find_op is_hex32_text
  issue want ops = if is_hex32_text want then issue_for ops (find_op want ops) else bad_request
