-- ===== src/Engine.antt =====
-- python/nedb/engine.py: the database. The op log is the source of truth, and `apply_op` folds an op
-- into the materialized state. The dict of an op's payload is a constructor with its values; the
-- constructor goes with the op's name, as in every op that the engine appends.
pub mod Mutations
pub mod Recovery
pub mod TimeTravel
pub mod AsOf
pub mod Determinism
pub mod Errors
pub mod Files
pub mod Sample
mod Tests
use Prim.Native.String.{◌++◌ as joined}
use aof_db.Prelude.{
  ℕ, zero, suc, ◌+◌, ◌≡◌, String, Bool, true, false, not, Option, none, some, List, [], ◌∷◌, ◌++◌,
  Dict, lookup, insert, append_to, or_default, set_default, if◌then◌else◌, ◌==◌, string_eq, nat_eq,
  get_last?,
}
use aof_db.Store.{MvccStore}
use aof_db.Store as Store
use aof_db.Relations.{Relations}
use aof_db.Relations as Graph
use aof_db.Index.{Values, Doc, Indexes, add, remove}
use aof_db.Log.{
  Op, OpLog, Codec, Request, Appended, returned, replay_error, index_error, append, load,
}
use aof_db.Log as Log

module _ {F : Type 0} (V : Values F) where
  pub data Payload : Type 0 where
    put : String → String → String → Doc V → Payload
    delete : String → String → String → Payload
    link : String → String → String → Payload
    unlink : String → String → String → Payload
    put_file : String → String → ℕ → List ℕ → Payload

  -- `op.op`
  abbrev pub name_of : Payload → String
  name_of (put key coll id doc) = "put"
  name_of (delete key coll id) = "delete"
  name_of (link frm rel to) = "link"
  name_of (unlink frm rel to) = "unlink"
  name_of (put_file name tier version root) = "put_file"

  -- The materialized state, which is a function of the log.
  pub record State : Type 0 where
    pub store : MvccStore (Doc V)
    pub relations : Relations
    pub indexes : Indexes V
    pub cause_map : Dict ℕ (List ℕ)

  abbrev pub re_index : String → String → Option (Doc V) → Indexes V → Option (Indexes V)
  re_index coll key none ix = some ix
  re_index coll key (some old) ix = remove V coll key old ix

  abbrev pub with_indexes : Option (Indexes V) → State → Option State
  with_indexes none s = none
  with_indexes (some ix) s = some (record s { indexes = ix })

  abbrev pub add_after : String → String → Doc V → Option (Indexes V) → Option (Indexes V)
  add_after coll key doc none = none
  add_after coll key doc (some ix) = add V coll key doc ix

  -- The branch of each op of `apply_op`, at seq `q`; none is a TypeError of the indexes.
  unfoldable pub apply_payload : Payload → ℕ → State → Option State
  apply_payload (put key coll id doc) q s =
      let stored = insert "_seq" (V.of_seq q) doc in
      let old = Store.get key none s.store in
      with_indexes (add_after coll key stored (re_index coll key old s.indexes))
        (record s { store = Store.put key stored q s.store })
  apply_payload (delete key coll id) q s =
      with_indexes (re_index coll key (Store.get key none s.store) s.indexes)
        (record s { store = Store.delete key q s.store })
  apply_payload (link frm rel to) q s =
      some (record s { relations = Graph.link frm rel to q s.relations })
  apply_payload (unlink frm rel to) q s =
      some (record s { relations = Graph.unlink frm rel to q s.relations })
  apply_payload (put_file name tier version root) q s = some s

  -- `for cause_seq in op.caused_by: cause_map.setdefault(cause_seq, []).append(op.seq)`
  unfoldable pub note_causes : List ℕ → ℕ → Dict ℕ (List ℕ) → Dict ℕ (List ℕ)
  note_causes [] q m = m
  note_causes (c ∷ causes) q m = note_causes causes q (append_to c q m)

  abbrev with_causes : Op Payload F → Option State → Option State
  with_causes o none = none
  with_causes o (some s) =
      some (record s { cause_map = note_causes (or_default [] o.caused_by) o.seq s.cause_map })

  unfoldable pub apply_op : Op Payload F → State → Option State
  unfolding apply_payload note_causes
  apply_op o s = with_causes o (apply_payload o.payload o.seq s)

  -- The fold of a log into a state: `for op in self.log.ops: apply_op(…)`.
  unfoldable pub replay : List (Op Payload F) → Option State → Option State
  unfolding apply_op
  replay [] s = s
  replay (o ∷ ops) none = none
  replay (o ∷ ops) (some s) = replay ops (apply_op o s)

  -- The state before the first op, with indexes that are declared and have no entry.
  abbrev pub fresh : Indexes V → State
  fresh ix = record { store = Store.empty; relations = Graph.empty; indexes = ix; cause_map = [] }

  pub record Nedb : Type 0 where
    pub log : OpLog Payload F
    pub state : State
    pub nonces : Dict String ℕ

  abbrev pub opened : Indexes V → Nedb
  opened ix = record { log = Log.empty; state = fresh ix; nonces = [] }

  -- `_next`: the nonce, and the counters after it
  abbrev pub next_nonce : String → Nedb → ℕ
  next_nonce client db = Log.last_of client db.nonces + 1

  unfoldable pub next : String → Nedb → Nedb
  next client db = record db { nonces = insert client (next_nonce client db) db.nonces }

  -- `self._next(client) if nonce is None else nonce`, and the database after it
  abbrev pub take_nonce : String → Option ℕ → Nedb → ℕ × Nedb
  take_nonce client none db = (next_nonce client db, next client db)
  take_nonce client (some nonce) db = (nonce, db)

  -- What a mutation does: it returns, or raises a ReplayError, an IndexError or a TypeError. A
  -- TypeError comes of the fold, when the op is in the log; the state that it leaves is changed in
  -- part, and only the log is kept here.
  pub data Outcome : Type 0 where
    done : Nedb → Outcome
    replayed : Nedb → Outcome
    lost : Nedb → Outcome
    type_error : OpLog Payload F → Outcome

  module _ (C : Codec Payload F) where
    abbrev pub folded : OpLog Payload F → Option State → Nedb → Outcome
    folded l none db = type_error l
    folded l (some s) db = done (record db { log = l; state = s })

    abbrev pub fold_created : Appended Payload F → Nedb → Outcome
    fold_created (returned o true l) db = folded l (apply_op o db.state) db
    fold_created (returned o false l) db = done (record db { log = l })
    fold_created replay_error db = replayed db
    fold_created index_error db = lost db

    -- The end of each mutation: the nonce is taken, the op appended, and folded if it is new.
    unfoldable pub commit : (ℕ → Request Payload F) → String → Option ℕ → F → Nedb → Outcome
    unfolding apply_op next
    commit request client nonce now db =
        let (n, taken) = take_nonce client nonce db in
        fold_created (append C (request n) now taken.log) taken
