-- ===== src/Snapshot.antt =====
-- python/nedb/snapshot.py: the store and the relations that `save_snapshot` writes, what
-- `load_snapshot` makes of them in a new database, and the branch of `NEDB._load` of
-- python/nedb/engine.py that folds the ops after the checkpoint. The checkpoint op itself changes no
-- store and no graph; the dict that is written is its value here, since `json` reads it back.
pub mod Dicts
pub mod Documents
pub mod Edges
pub mod Kept
pub mod Resume
pub mod Opening
mod Tests
use Prim.Native.Char.{code}
use Prim.Native.String.{◌++◌ as joined}
use aof_db.Prelude.{
  ℕ, String, Bool, true, false, Option, none, some, List, [], ◌∷◌, ◌++◌, Dict, insert, append_to,
  get_last?, string_eq, pair_eq, nat_beq, if◌then◌else◌, ltb,
}
use aof_db.Store.{MvccStore, Version, tomb, live}
use aof_db.Store as Store
use aof_db.Relations.{Relations, Edge}
use aof_db.Relations as Graph
use aof_db.Index.{Values, Doc, Indexes, Ensured, ensured, value_error, add}
use aof_db.Index as Index
use aof_db.Log.{Op}
use aof_db.Engine.{Payload, State, apply_op}
use aof_db.Engine.Determinism.{ensure_all}

-- `{"v": …, "seq": …, "deleted": …}`
pub record Saved {ℓ} (D : Type ℓ) : Type ℓ where
  pub v : Option D
  pub seq : ℕ
  pub deleted : Bool

module _ {ℓ} {D : Type ℓ} where
  abbrev pub saved_version : ℕ × Version D → Saved D
  saved_version (q, tomb) = record { v = none; seq = q; deleted = true }
  saved_version (q, live d) = record { v = some d; seq = q; deleted = false }

  abbrev pub cons_saved :
      String
      → Option (ℕ × Version D)
      → Option (Dict String (Saved D))
      → Option (Dict String (Saved D))
  cons_saved key none rest = none
  cons_saved key (some last) none = none
  cons_saved key (some last) (some rest) = some ((key, saved_version last) ∷ rest)

  -- `store_data`; none is the IndexError of `versions[-1]`.
  unfoldable pub save_store : Dict String (List (ℕ × Version D)) → Option (Dict String (Saved D))
  save_store [] = some []
  save_store ((key, versions) ∷ rest) = cons_saved key (get_last? versions) (save_store rest)

  -- `None if entry.get("deleted") else entry["v"]`, where None becomes the tombstone
  abbrev pub loaded_version : Bool → Option D → Version D
  loaded_version true v = tomb
  loaded_version false none = tomb
  loaded_version false (some d) = live d

  abbrev pub load_entry : String → Saved D → MvccStore D → MvccStore D
  load_entry key e s = record {
    versions = insert key ((e.seq, loaded_version e.deleted e.v) ∷ []) s.versions;
    seqs = insert key (e.seq ∷ []) s.seqs;
  }

  -- The loop that restores the store.
  unfoldable pub load_store : Dict String (Saved D) → MvccStore D → MvccStore D
  load_store [] s = s
  load_store ((key, e) ∷ rest) s = load_store rest (load_entry key e s)

-- `f"{frm}|{rel}"`
abbrev pub edge_key : String → String → String
edge_key frm rel = joined frm (joined "|" rel)

-- `key_str.split("|", 1)` of a text with a bar in it
unfoldable pub before_bar : String → String
before_bar String.[] = String.[]
before_bar (String.◌∷◌ c s) =
    let rest = before_bar s in if nat_beq (code c) 124 then String.[] else String.◌∷◌ c rest

unfoldable pub after_bar : String → String
after_bar String.[] = String.[]
after_bar (String.◌∷◌ c s) = let rest = after_bar s in if nat_beq (code c) 124 then s else rest

-- The loop that makes `rel_data`.
unfoldable pub save_relations :
    Dict (String × String) (List Edge) → Dict String (List Edge) → Dict String (List Edge)
save_relations [] d = d
save_relations (((frm, rel), edges) ∷ rest) d =
    save_relations rest (insert (edge_key frm rel) edges d)

abbrev pub restore_edge : String → String → Edge → Relations → Relations
restore_edge frm rel e r = record {
  adj = append_to (frm, rel) e r.adj;
  radj =
      append_to (e.node, rel) (record { node = frm; added = e.added; removed = e.removed }) r.radj;
}

unfoldable pub restore_edges : String → String → List Edge → Relations → Relations
restore_edges frm rel [] r = r
restore_edges frm rel (e ∷ edges) r = restore_edges frm rel edges (restore_edge frm rel e r)

-- The loop that restores the relations.
unfoldable pub load_relations : Dict String (List Edge) → Relations → Relations
unfolding restore_edges before_bar after_bar
load_relations [] r = r
load_relations ((key, edges) ∷ rest) r =
    load_relations rest (restore_edges (before_bar key) (after_bar key) edges r)

-- `key.split(":", 1)[0] if ":" in key else key`
unfoldable pub before_colon : String → String
before_colon String.[] = String.[]
before_colon (String.◌∷◌ c s) =
    let rest = before_colon s in if nat_beq (code c) 58 then String.[] else String.◌∷◌ c rest

module _ {F : Type 0} (V : Values F) where
  -- What the snapshot keeps of the materialized state; it does not keep the map of causes.
  pub record Snapshot : Type 0 where
    pub checkpoint_seq : ℕ
    pub store : Dict String (Saved (Doc V))
    pub relations : Dict String (List Edge)
    pub index_config : List ((String × String) × String)

  abbrev with_store :
      ℕ → State V → Dict String (List Edge) → Option (Dict String (Saved (Doc V))) → Option Snapshot
  with_store q s relations none = none
  with_store q s relations (some store) = some (record {
    checkpoint_seq = q;
    store = store;
    relations = relations;
    index_config = s.indexes.config;
  })

  -- `q` is the seq of the checkpoint op.
  unfoldable pub save_snapshot : ℕ → State V → Option Snapshot
  unfolding save_store save_relations
  save_snapshot q s =
      with_store q s (save_relations s.relations.adj []) (save_store s.store.versions)

  abbrev index_saved : String → Version (Doc V) → Indexes V → Option (Indexes V)
  index_saved key tomb ix = some ix
  index_saved key (live doc) ix = add V (before_colon key) key doc ix

  -- The calls of `indexes.add` in the loop that restores the store; none is a TypeError.
  unfoldable pub load_indexes :
      Dict String (Saved (Doc V)) → Option (Indexes V) → Option (Indexes V)
  unfolding before_colon
  load_indexes [] ix = ix
  load_indexes (entry ∷ rest) none = none
  load_indexes ((key, e) ∷ rest) (some ix) =
      load_indexes rest (index_saved key (loaded_version e.deleted e.v) ix)

  abbrev ensured_indexes : Ensured V → Option (Indexes V)
  ensured_indexes (ensured ix) = some ix
  ensured_indexes (value_error ix) = none

  abbrev pub loaded_state : Snapshot → Option (Indexes V) → Option (State V)
  loaded_state snap none = none
  loaded_state snap (some ix) = some (record {
    store = load_store snap.store Store.empty;
    relations = load_relations snap.relations Graph.empty;
    indexes = ix;
    cause_map = [];
  })

  -- none is an exception.
  unfoldable pub load_snapshot : Snapshot → Option (State V)
  unfolding load_store load_relations load_indexes
  load_snapshot snap = loaded_state snap (
      load_indexes snap.store
        (ensured_indexes (ensure_all V snap.index_config (ensured (Index.empty V)))))

  -- The loop of `_load` over the whole log, which applies the ops after the checkpoint.
  unfoldable pub replay_after : ℕ → List (Op (Payload V) F) → Option (State V) → Option (State V)
  unfolding apply_op
  replay_after snap_seq [] s = s
  replay_after snap_seq (o ∷ ops) none = none
  replay_after snap_seq (o ∷ ops) (some s) =
      replay_after snap_seq ops (if ltb snap_seq o.seq then apply_op V o s else some s)
