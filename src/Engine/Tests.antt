-- ===== src/Engine/Tests.antt =====
-- Concrete runs of the database of python/nedb/engine.py.
use aof_db.Prelude.{
  ℕ, ◌⊎◌, set_default, ◌≡◌, refl, true, none, some, [], ◌∷◌, nat_eq, lookup, insert, lookup_list,
  append_to, contains,
}
use aof_db.Store as Store
use aof_db.Relations.{neighbors}
use aof_db.Relations as Graph
use aof_db.Index as Index
use aof_db.Index.{Values, Doc, Indexes}
use aof_db.Log.{append, slice_until, verify}
use aof_db.Engine.{
  Nedb, State, Outcome, done, opened, fresh, replay, apply_op, apply_payload, commit, next,
  note_causes,
}
use aof_db.Engine.Mutations.{
  Call, put_call, link_call, append_file_call, perform, put, link, put_request, stored_doc,
  embed_ttl,
}
use aof_db.Engine.Sample.{values, codec, by_age, options, after, put₁}
use aof_db.Engine.Recovery.{Reaches, start, call, reopen, reopen-Reaches}
use aof_db.Index.{ensured}
use aof_db.Engine.Determinism.{ensure_all, rebuild, no_causes, rebuild-Reaches}
use aof_db.Engine.Errors.{Raised, perform-Raised}
use aof_db.Engine.Files.{put_file, put_file-Raised}
use aof_db.Prelude.Int.{pos}
use aof_db.Hash.{weak}
use aof_db.Cascade as Cascade
use aof_db.Cascade.{Libraries, Compressor, BlobStore, Text, root, get_file, chunk}
use aof_db.Cascade.Contents.{Sound, Clashes}
use aof_db.Cascade.Proofs.{IsPaired}
use aof_db.Engine.AsOf.{Agree, reads_as_of-Reaches}

abbrev link₁ : Call values codec
link₁ = link_call "users:1" "knows" "users:2" "ana" none

abbrev put₂ : Call values codec
put₂ = put_call "users" "1" (("age", 31) ∷ []) options

abbrev db₁ : Nedb values
unfolding perform
db₁ = after (perform values codec put₁ 100 100 (opened values by_age))

abbrev db₂ : Nedb values
db₂ = after (perform values codec link₁ 101 101 db₁)

abbrev db₃ : Nedb values
db₃ = after (perform values codec put₂ 102 102 db₂)

step₁ : perform values codec put₁ 100 100 (opened values by_age) ≡ done db₁
unfolding perform put commit append apply_op apply_payload stored_doc embed_ttl put_request next
    note_causes Store.get Store.put Index.add Index.remove lookup insert lookup_list
step₁ = refl

step₂ : perform values codec link₁ 101 101 db₁ ≡ done db₂
unfolding perform put link commit append apply_op apply_payload stored_doc embed_ttl put_request
    next note_causes Store.get Store.put Index.add Index.remove lookup insert lookup_list Graph.link
step₂ = refl

step₃ : perform values codec put₂ 102 102 db₂ ≡ done db₃
unfolding perform put link commit append apply_op apply_payload stored_doc embed_ttl put_request
    next note_causes Store.get Store.put Index.add Index.remove lookup insert lookup_list Graph.link
    append_to
step₃ = refl

reaches₃ : Reaches values codec by_age db₃
reaches₃ = call put₂ 102 102 (call link₁ 101 101 (call put₁ 100 100 start step₁) step₂) step₃

reopen-Reaches_example :
    (verify codec db₃.log ≡ true)
    × (reopen values by_age db₃.log.ops ≡ some (record db₃ { nonces = db₃.log.last_nonce }))
reopen-Reaches_example = reopen-Reaches values codec by_age db₃ reaches₃

reads_as_of-Reaches_example :
    (past : State values) × (replay values (slice_until 1 db₃.log.ops) (some (fresh values by_age))
      ≡ some past)
    × Agree values (some 1) db₃.state none past
reads_as_of-Reaches_example = reads_as_of-Reaches values codec by_age db₃ 1 reaches₃

read₃ :
    Store.get "users:1" none db₃.state.store ≡ some (("age", 31) ∷ ("_id", 1) ∷ ("_seq", 2) ∷ [])
unfolding Store.get lookup_list lookup perform append Index.add insert Store.put append_to
    Index.remove
read₃ = refl

read₁ :
    Store.get "users:1" (some 1) db₃.state.store
    ≡ some (("age", 30) ∷ ("_id", 1) ∷ ("_seq", 0) ∷ [])
unfolding Store.get lookup_list lookup perform append Index.add insert Store.put append_to
    Index.remove
read₁ = refl

found₃ : Index.held_ids values "users" "age" 31 db₃.state.indexes ≡ "users:1" ∷ []
unfolding Index.held_ids lookup_list lookup perform append Store.get Index.add insert Store.put
    append_to Index.remove contains
found₃ = refl

-- The age 1000 cannot be hashed.
abbrev bad_put : Call values codec
bad_put = put_call "users" "2" (("age", 1000) ∷ []) options

perform-Raised_example : Raised values codec by_age db₃ (perform values codec bad_put 103 103 db₃)
perform-Raised_example = perform-Raised values codec by_age db₃ bad_put 103 103 reaches₃

declared : ensure_all values by_age.config (ensured (Index.empty values)) ≡ ensured by_age
unfolding ensure_all Index.ensure Index.set_add set_default lookup insert contains
declared = refl

rebuild-Reaches_example : rebuild values db₃ ≡ some (no_causes values db₃.state)
rebuild-Reaches_example = rebuild-Reaches values codec by_age db₃ declared reaches₃

abbrev identity : Compressor
identity = record { compress = λ b. b; decompress = λ b. some b; decompress-compress = λ b. refl }

abbrev libraries : Libraries
libraries = record { blake = weak; warm = identity; cold = identity; gear = λ b. b }

Sound-empty : Sound libraries (Cascade.empty "warm")
unfolding lookup
Sound-empty hh z e = cc e

IsPaired-empty : IsPaired (Cascade.empty "warm")
unfolding lookup
IsPaired-empty name f e = cc e

-- A nonce that was used: the call raises a ReplayError.
put_file-Raised_example :
    (v : ℕ) × (stored : BlobStore) × (top : Text) × (out : Outcome values) × (put_file values codec
        libraries "a.txt" "warm"
        (7 ∷ 8 ∷ [])
        "ana"
        (some 1)
        none
        104
        (Cascade.empty "warm")
        db₃
      ≡ some (v, stored, out))
    × (root libraries "a.txt" (pos v) stored ≡ some top)
    × (out
        ≡ perform values codec
            (append_file_call "a.txt" "warm" v top "ana" (some 1) none)
            104
            104
            db₃)
    × Raised values codec by_age db₃ out
    × Sound libraries stored
    × IsPaired stored
    × ((get_file libraries "a.txt" (pos v) stored ≡ some (7 ∷ 8 ∷ []))
        ⊎ Clashes libraries (Cascade.empty "warm") (chunk libraries.gear (7 ∷ 8 ∷ [])))
put_file-Raised_example =
    put_file-Raised values codec libraries by_age "a.txt" "warm" (7 ∷ 8 ∷ []) "ana" (some 1) none
      104 (Cascade.empty "warm") db₃ reaches₃ Sound-empty IsPaired-empty
