-- ===== src/Snapshot/Tests.antt =====
-- A concrete run of python/nedb/snapshot.py: a document and an edge before the checkpoint, and a new
-- version of the document after it.
use aof_db.Prelude.{
  ℕ, zero, suc, ◌+◌, ap, sym, some-eq, ◌≡◌, refl, Option, none, some, List, [], ◌∷◌, ◌++◌, arith,
  or_default, lookup_list, lookup, insert, append_to,
}
use aof_db.Index.{Indexes}
use aof_db.Index as Index
use aof_db.Store as Store
use aof_db.Relations as Graph
use aof_db.Relations.{has_open}
use aof_db.Engine.Determinism.{ensure_all}
use aof_db.Log.{Op}
use aof_db.Log.Slice.{NumberedFrom}
use aof_db.Engine.{Payload, put, link, put_file, State, replay, fresh}
use aof_db.Engine.AsOf.{Agree}
use aof_db.Engine.Sample.{values, by_age}
use aof_db.Snapshot.{Snapshot, save_snapshot, load_snapshot, replay_after}
use aof_db.Snapshot.Opening.{load_snapshot-replay}

abbrev op_at : ℕ → Payload values → Op (Payload values) ℕ
op_at q p = record {
  body = record {
    seq = q;
    client = "ana";
    nonce = q + 1;
    op = "op";
    payload = p;
    ts = 100;
    idem = none;
    caused_by = none;
    evidence = none;
    confidence = none;
    valid_from = none;
    valid_to = none;
  };
  prev_hash = [];
  hash = [];
}

abbrev before : List (Op (Payload values) ℕ)
before =
    op_at 0 (put "users:1" "users" "1" (("age", 30) ∷ []))
    ∷ op_at 1 (link "users:1" "knows" "users:2")
    ∷ []

abbrev checkpoint : Op (Payload values) ℕ
checkpoint = op_at 2 (put_file "note" "warm" 0 [])

abbrev after : List (Op (Payload values) ℕ)
after = op_at 3 (put "users:1" "users" "1" (("age", 31) ∷ [])) ∷ []

abbrev state_of : Option (State values) → State values
state_of s = or_default (fresh values by_age) s

abbrev state₂ : State values
state₂ = state_of (replay values before (some (fresh values by_age)))

abbrev state₃ : State values
state₃ = state_of (replay values after (some state₂))

abbrev snapshot : Snapshot values
snapshot =
    or_default (record { checkpoint_seq = 0; store = []; relations = []; index_config = [] })
      (save_snapshot values 2 state₂)

abbrev loaded : State values
loaded = state_of (load_snapshot values snapshot)

abbrev opened : State values
opened = state_of (replay_after values 2 (before ++ checkpoint ∷ after) (some loaded))

made₂ : replay values before (some (fresh values by_age)) ≡ some state₂
unfolding replay Store.get lookup_list lookup Index.add insert Store.put append_to Index.remove
    Graph.link has_open Index.ensure
made₂ = refl

made₃ : replay values after (some state₂) ≡ some state₃
unfolding replay Store.get lookup_list lookup Index.add insert Store.put append_to Index.remove
    Graph.link has_open Index.ensure
made₃ = refl

saved : save_snapshot values 2 state₂ ≡ some snapshot
unfolding replay save_snapshot Store.get lookup_list lookup Index.add insert Store.put append_to
    Index.remove Graph.link has_open Index.ensure
saved = refl

loads : load_snapshot values snapshot ≡ some loaded
unfolding replay save_snapshot load_snapshot ensure_all Store.get lookup_list lookup Index.add
    insert Store.put append_to Index.remove Graph.link has_open Index.ensure
loads = refl

folds :
    replay_after values snapshot.checkpoint_seq (before ++ checkpoint ∷ after) (some loaded)
    ≡ some opened
unfolding replay save_snapshot load_snapshot replay_after ensure_all Store.get lookup_list lookup
    Index.add insert Store.put append_to Index.remove Graph.link has_open Index.ensure
folds = refl

numbered : NumberedFrom 0 (before ++ checkpoint ∷ after)
numbered zero o e = ap (λ p. p.seq) (sym (some-eq e))
numbered (suc zero) o e = ap (λ p. p.seq) (sym (some-eq e))
numbered (suc (suc zero)) o e = ap (λ p. p.seq) (sym (some-eq e))
numbered (suc (suc (suc zero))) o e = ap (λ p. p.seq) (sym (some-eq e))
numbered (suc (suc (suc (suc i)))) o e = cc e

load_snapshot-replay_example : Agree values (some 3) opened (some 3) state₃
load_snapshot-replay_example =
    load_snapshot-replay values by_age before after checkpoint state₂ state₃ loaded opened snapshot
      (some 3) numbered (tt, (ground arith, tt)) made₂ made₃ saved loads folds refl
