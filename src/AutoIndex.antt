-- ===== src/AutoIndex.antt =====
-- python/nedb/autoindex.py: the tallies of a database that makes its own indexes. The signals of a
-- query are found by regular expressions and are given here; `create_index` of the database is a
-- parameter.
pub mod Threshold
mod Tests
use text.Mathlib.Text.{starts_with}
use aof_db.Prelude.{
  ℕ, suc, ◌+◌, String, Bool, true, false, not, List, [], ◌∷◌, ◌++◌, Dict, lookup, insert,
  or_default, contains, leb, if◌then◌else◌, ◌==◌, ◌&&◌, string_eq, pair_eq,
}

-- A collection, a field and the kind of an index.
abbrev pub Signal : Type 0
Signal = (String × String) × String

pub record Tallies (S : Type 0) : Type 0 where
  pub counts : Dict Signal ℕ
  pub created : List Signal
  pub db : S

-- `defaultdict(int)`
abbrev pub count_of : Signal → Dict Signal ℕ → ℕ
count_of key counts = or_default 0 (lookup key counts)

-- `field.startswith("_") and field not in ("_id",)`
abbrev pub is_internal : Signal → Bool
is_internal ((coll, field), kind) = starts_with field "_" && not (field == "_id")

abbrev pub counted : {S : Type 0} → Signal → Tallies S → Tallies S
counted key t = record t { counts = insert key (count_of key t.counts + 1) t.counts }

module _ {S : Type 0} (create_index : Signal → S → S) where
  unfoldable pub auto_create : Signal → Tallies S → Tallies S
  auto_create key t =
      if contains t.created key
      then t
      else if is_internal key
      then t
      else record t { created = t.created ++ key ∷ []; db = create_index key t.db }

  -- One round of the loop of `query`. Its three branches count alike.
  unfoldable pub observe : ℕ → Signal → Tallies S → Tallies S
  unfolding auto_create
  observe threshold key t =
      let u = counted key t in
      if contains t.created key
      then t
      else if leb threshold (count_of key u.counts)
      then auto_create key u
      else u

  -- The loop of `query` over the signals, of one query or of more.
  unfoldable pub observe_all : ℕ → List Signal → Tallies S → Tallies S
  unfolding observe
  observe_all threshold [] t = t
  observe_all threshold (key ∷ signals) t = observe_all threshold signals (observe threshold key t)

-- `__init__`, with the index config of the database
abbrev pub opened : {S : Type 0} → List Signal → S → Tallies S
opened config db = record { counts = []; created = config; db = db }
