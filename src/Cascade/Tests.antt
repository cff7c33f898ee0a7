-- ===== src/Cascade/Tests.antt =====
-- Concrete runs of the blob store of python/nedb/cascade.py, with a compressor that changes nothing.
use aof_db.Prelude.{
  ℕ, ◌≡◌, subst, ◌⊎◌, refl, true, some, List, [], ◌∷◌, lookup, insert, get_elem?, has_key,
}
use aof_db.Prelude.Int.{pos, negsuc}
use aof_db.Hash.{weak, weak_digest}
use aof_db.Prelude.Texts.{text_beq, repeat}
use aof_db.Hex.{Bytes, hex, from_hex}
use aof_db.Merkle.{Side, decode_all, merkle_root, merkle_verify}
use aof_db.Cascade.{
  Libraries, Compressor, BlobStore, Text, empty, chunk, put_file, get_file, chunk_hash, root,
  file_proof, chunk_min, chunk_max,
}
use aof_db.Cascade.Chunking.{concat, Cuts, chunk_lem}
use aof_db.Cascade.Contents.{Sound, Clashes}
use aof_db.Cascade.Files.{get_file-put_file, get_file_kept}
use aof_db.Cascade.Proofs.{IsPaired, file_proof-put_file}

abbrev identity : Compressor
identity = record { compress = λ b. b; decompress = λ b. some b; decompress-compress = λ b. refl }

abbrev libraries : Libraries
libraries = record { blake = weak; warm = identity; cold = identity; gear = λ b. b }

chunk_run : chunk (λ b. b) (7 ∷ 8 ∷ 9 ∷ []) ≡ (7 ∷ 8 ∷ 9 ∷ []) ∷ []
unfolding chunk
chunk_run = refl

chunk_lem_example :
    (concat (chunk (λ b. b) (7 ∷ 8 ∷ 9 ∷ [])) ≡ 7 ∷ 8 ∷ 9 ∷ [])
    × Cuts chunk_min chunk_max (chunk (λ b. b) (7 ∷ 8 ∷ 9 ∷ []))
chunk_lem_example = chunk_lem (λ b. b) (7 ∷ 8 ∷ 9 ∷ [])

Sound-empty : Sound libraries (empty "warm")
unfolding lookup
Sound-empty hh z e = cc e

get_file-put_file_example :
    (v : ℕ) × (t : BlobStore) × (put_file libraries "a.txt" (7 ∷ 8 ∷ 9 ∷ []) (empty "warm")
      ≡ some (v, t))
    × Sound libraries t
    × ((get_file libraries "a.txt" (pos v) t ≡ some (7 ∷ 8 ∷ 9 ∷ []))
        ⊎ Clashes libraries (empty "warm") (chunk libraries.gear (7 ∷ 8 ∷ 9 ∷ [])))
get_file-put_file_example =
    get_file-put_file libraries "a.txt" (7 ∷ 8 ∷ 9 ∷ []) (empty "warm") Sound-empty

abbrev hash₁ : Text
hash₁ = chunk_hash libraries (7 ∷ 8 ∷ 9 ∷ [])

abbrev stored₁ : BlobStore
stored₁ = record {
  tier = "warm";
  chunks = (hash₁, 7 ∷ 8 ∷ 9 ∷ []) ∷ [];
  files = ("a.txt", record { versions = (hash₁ ∷ []) ∷ []; roots = hash₁ ∷ [] }) ∷ [];
  logical_bytes = 3;
  dedup_hits = 0;
}

put_run : put_file libraries "a.txt" (7 ∷ 8 ∷ 9 ∷ []) (empty "warm") ≡ some (0, stored₁)
unfolding put_file merkle_root lookup insert chunk_hash weak_digest hex from_hex has_key decode_all
put_run = refl

get_run : get_file libraries "a.txt" (negsuc 0) stored₁ ≡ some (7 ∷ 8 ∷ 9 ∷ [])
unfolding get_file lookup text_beq chunk_hash weak_digest hex
get_run = refl

Sound-stored₁ : Sound libraries stored₁
Sound-stored₁ =
    let (v, t, made, sound, same) =
      get_file-put_file libraries "a.txt" (7 ∷ 8 ∷ 9 ∷ []) (empty "warm") Sound-empty in
    let is_t : t ≡ stored₁ = cc (made, put_run) in subst (Sound libraries) is_t sound

read_run : get_file libraries "a.txt" (pos 0) stored₁ ≡ some (7 ∷ 8 ∷ 9 ∷ [])
unfolding get_file lookup text_beq chunk_hash weak_digest hex
read_run = refl

-- An empty file has no chunks.
abbrev stored₂ : BlobStore
stored₂ = record stored₁ {
  files =
      ("a.txt", record { versions = (hash₁ ∷ []) ∷ []; roots = hash₁ ∷ [] })
      ∷ ("b.txt", record { versions = [] ∷ []; roots = repeat b'0' 64 ∷ [] })
      ∷ [];
}

empty_run : put_file libraries "b.txt" [] stored₁ ≡ some (0, stored₂)
unfolding put_file merkle_root lookup insert
empty_run = refl

get_file_kept_example : get_file libraries "a.txt" (pos 0) stored₂ ≡ some (7 ∷ 8 ∷ 9 ∷ [])
get_file_kept_example =
    get_file_kept libraries "b.txt" [] stored₁ stored₂ 0 Sound-stored₁ empty_run "a.txt" 0
      (7 ∷ 8 ∷ 9 ∷ []) read_run

IsPaired-empty : IsPaired (empty "warm")
unfolding lookup
IsPaired-empty name f e = cc e

file_proof-put_file_example :
    (v : ℕ) × (t : BlobStore) × (top : Text) × (put_file libraries "a.txt"
        (7 ∷ 8 ∷ 9 ∷ [])
        (empty "warm")
      ≡ some (v, t))
    × IsPaired t
    × (root libraries "a.txt" (pos v) t ≡ some top)
    × ((idx : ℕ) (c : Bytes)
        → get_elem? (chunk libraries.gear (7 ∷ 8 ∷ 9 ∷ [])) idx ≡ some c
        → (path : List (Text × Side)) × (file_proof libraries "a.txt" idx (pos v) t
            ≡ some (chunk_hash libraries c, path, top))
          × (merkle_verify weak (chunk_hash libraries c) path top ≡ some true))
file_proof-put_file_example =
    file_proof-put_file libraries "a.txt" (7 ∷ 8 ∷ 9 ∷ []) (empty "warm") Sound-empty IsPaired-empty
