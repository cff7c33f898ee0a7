-- ===== src/Sequencer/Tests.antt =====
-- A concrete run of the sequencer of python/nedb/concurrent.py: a reader in the middle of a batch.
use aof_db.Prelude.{
  ◌≡◌, ◌≢◌, refl, subst, sym, none, [], ◌∷◌, String, lookup, insert, lookup_list, contains,
  string_eq,
}
use aof_db.Store as Store
use aof_db.Relations.{neighbors}
use aof_db.Index as Index
use aof_db.Index.{Doc}
use aof_db.Log.{append}
use aof_db.Engine.{Nedb, done, opened, apply_op, apply_payload, commit, next, note_causes}
use aof_db.Engine.Mutations.{perform, put, put_request, stored_doc, embed_ttl, key_of}
use aof_db.Engine.Sample.{values, codec, by_age, after, put₁}
use aof_db.Engine.Recovery.{start}
use aof_db.Sequencer.{
  Sequencer, stop, intent, submit, take as take_step, apply, Runs, at_start, then_step, Applied,
  returns, returned, started, take_batch, drain, get, neighbors_of, seq_of,
}
use aof_db.Sequencer.Snapshot.{Published, reads-Runs}

abbrev empty_db : Nedb values
empty_db = opened values by_age

abbrev db₁ : Nedb values
unfolding perform
db₁ = after (perform values codec put₁ 100 100 empty_db)

step₁ : perform values codec put₁ 100 100 empty_db ≡ done db₁
unfolding perform put commit append apply_op apply_payload stored_doc embed_ttl put_request next
    note_causes Store.get Store.put Index.add Index.remove lookup insert lookup_list
step₁ = refl

abbrev sequencer : Sequencer values codec
unfolding started
sequencer = started values codec empty_db 512

abbrev submitted : Sequencer values codec
submitted = record sequencer { queue = intent put₁ 100 100 ∷ [] }

abbrev taken : Sequencer values codec
unfolding take_batch
taken = take_batch values codec (intent put₁ 100 100) [] submitted

abbrev applied : Sequencer values codec
applied = record taken { db = db₁; batch = []; replies = returned ∷ [] }

intent≢stop : intent put₁ 100 100 ≢ stop
intent≢stop e = cc e

run : Runs values codec sequencer applied
unfolding take_batch drain started
run =
    then_step
      (then_step (then_step at_start (submit put₁ 100 100 refl))
        (take_step (intent put₁ 100 100) [] refl intent≢stop refl))
      (apply put₁ 100 100 [] db₁ returned refl
        (subst (λ o. Applied values codec o db₁ returned) (sym step₁) returns))

reads-Runs_example :
    (shown : Nedb values) × Published values codec by_age applied shown
    × ((coll id : String)
        → get values codec coll id none applied ≡ Store.get (key_of coll id) none shown.state.store)
    × ((frm rel to : String)
        → contains (neighbors_of values codec frm rel none applied) to
          ≡ contains (neighbors frm rel none shown.state.relations) to)
unfolding started
reads-Runs_example = reads-Runs values codec by_age empty_db 512 applied start run

not_shown : get values codec "users" "1" none applied ≡ none
unfolding get take_batch started seq_of
not_shown = refl
