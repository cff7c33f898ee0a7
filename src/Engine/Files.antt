-- ===== src/Engine/Files.antt =====
-- `put_file` of `NEDB` of python/nedb/engine.py, with the blob store of its tier: the version is stored
-- first, and its op is appended after that.
use aof_db.Prelude.{ℕ, ◌≡◌, refl, sym, ◌∙◌, subst, String, Option, none, some, ◌⊎◌, some-eq}
use aof_db.Prelude.Int.{pos}
use aof_db.Hex.{Bytes}
use aof_db.Index.{Values, Indexes}
use aof_db.Log.{Codec}
use aof_db.Engine.{Payload, Nedb, Outcome}
use aof_db.Engine.Mutations.{perform, append_file, append_file_call}
use aof_db.Engine.Recovery.{Reaches}
use aof_db.Engine.Errors.{Raised, perform-Raised}
use aof_db.Cascade.{Libraries, BlobStore, Text, root, get_file, chunk}
use aof_db.Cascade as Cascade
use aof_db.Cascade.Contents.{Sound, Clashes}
use aof_db.Cascade.Files.{get_file-put_file}
use aof_db.Cascade.Proofs.{IsPaired, file_proof-put_file}

module _ {F : Type 0} (V : Values F) (C : Codec (Payload V) F) (L : Libraries) where
  -- The version, the blob store after the call, and what becomes of the database; where that is an
  -- exception, the version is not returned. none is an exception of the blob store.
  abbrev Put : Type 0
  Put = Option (ℕ × BlobStore × Outcome V)

  abbrev with_root : ℕ → BlobStore → (Text → Outcome V) → Option Text → Put
  with_root version bs append none = none
  with_root version bs append (some top) = some (version, bs, append top)

  unfoldable pub put_file :
      String
      → String
      → Bytes
      → String
      → Option ℕ
      → Option String
      → F
      → BlobStore
      → Nedb V
      → Option (ℕ × BlobStore × Outcome V)
  unfolding append_file
  put_file name tier bytes client nonce idem now bs db = elim (Cascade.put_file L name bytes bs) [
    | none ↦ none
    | some (version, stored) ↦
        with_root version stored
          (λ top. append_file V C name tier version top client nonce idem now db)
          (root L name (pos version) stored)
  ]

  put_file_lem :
      (name tier : String) (bytes : Bytes) (client : String) (given : Option ℕ)
      (idem : Option String) (now : F) (bs stored : BlobStore) (db : Nedb V) (v : ℕ) (top : Text)
      → Cascade.put_file L name bytes bs ≡ some (v, stored)
      → root L name (pos v) stored ≡ some top
      → put_file name tier bytes client given idem now bs db
        ≡ some (v, stored, append_file V C name tier v top client given idem now db)
  unfolding put_file append_file
  put_file_lem name tier bytes client given idem now bs stored db v top made rooted =
      rw (put_file, made, rooted) refl

  -- `put_file` on a database that calls have built from an empty one, and on a sound blob store in
  -- which every version has its root. The blob store does not raise: it is sound afterwards, every
  -- version has its root, and the new version reads back, unless a chunk of it met a different one
  -- with its digest. So it is whatever becomes of the op, which names the version and the root that
  -- the store keeps of it. If that raises a ReplayError, the log and the documents, the graph and the
  -- indexes are as they were; if it raises a TypeError, the log has one op more and reopening it
  -- raises; it raises no IndexError.
  pub put_file-Raised :
      (ix : Indexes V) (name tier : String) (bytes : Bytes) (client : String) (nonce : Option ℕ)
      (idem : Option String) (now : F) (bs : BlobStore) (db : Nedb V)
      → Reaches V C ix db
      → Sound L bs
      → IsPaired bs
      → (v : ℕ) × (stored : BlobStore) × (top : Text) × (out : Outcome V) × (put_file name tier
            bytes client nonce idem now bs db
          ≡ some (v, stored, out))
        × (root L name (pos v) stored ≡ some top)
        × (out ≡ perform V C (append_file_call name tier v top client nonce idem) now now db)
        × Raised V C ix db out
        × Sound L stored
        × IsPaired stored
        × ((get_file L name (pos v) stored ≡ some bytes) ⊎ Clashes L bs (chunk L.gear bytes))
  unfolding perform
  put_file-Raised ix name tier bytes client nonce idem now bs db reached sound paired =
      let (v, stored, top, made, paired', rooted, proofs) =
        file_proof-put_file L name bytes bs sound paired in
      let (v', stored', made', sound', read) = get_file-put_file L name bytes bs sound in
      let same = some-eq (sym made' ∙ made) in
      let c = append_file_call name tier v top client nonce idem in
      (
        v,
        stored,
        top,
        perform V C c now now db,
        put_file_lem name tier bytes client nonce idem now bs stored db v top made rooted,
        rooted,
        refl,
        perform-Raised V C ix db c now now reached,
        subst (λ p. Sound L p.1) same sound',
        paired',
        subst
            (λ p. (get_file L name (pos p.0) p.1 ≡ some bytes) ⊎ Clashes L bs (chunk L.gear bytes))
            same read,
      )
