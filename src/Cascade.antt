-- ===== src/Cascade.antt =====
-- python/nedb/cascade.py: content-defined chunking and the content-addressed blob store. Bytes are a
-- list of numbers; none is a KeyError, an IndexError, or an error of the compression library. The
-- proofs stand in the modules below.
pub mod Chunking
pub mod Contents
pub mod Files
pub mod Proofs
mod Tests
use aof_db.Prelude.{
  ℕ, zero, suc, ◌+◌, ◌-◌, ◌*◌, ◌%◌, ◌^◌, ◌≡◌, String, Bool, true, false, not, Option, none, some,
  List, [], ◌∷◌, ◌++◌, Dict, lookup, insert, set_default, has_key, length, get_elem?, take, drop,
  leb, ltb, nat_beq, if◌then◌else◌, ◌&&◌, ◌==◌, string_eq, or_default,
}
use aof_db.Prelude.Int.{ℤ, pos, negsuc}
use aof_db.Prelude.Texts.{text_eq}
use aof_db.Hex.{Bytes, hex}
use aof_db.Hash.{Blake}
use aof_db.Merkle.{merkle_root, merkle_proof, merkle_verify, Side}

abbrev pub Text : Type 0
Text = List ℕ

-- `_MIN`, `_MAX` and `_MASK + 1`
abbrev pub chunk_min : ℕ
chunk_min = 2 * 1024

abbrev pub chunk_max : ℕ
chunk_max = 64 * 1024

abbrev pub mask_size : ℕ
mask_size = 2 ^ 13

-- The inner loop of `chunk` from the byte `i + k`, with the bytes up to `limit`: the length of the
-- chunk. `low` is `_MIN`; `& _M64` and `& _MASK` are remainders.
unfoldable pub cut_loop : (ℕ → ℕ) → ℕ → ℕ → ℕ → Bytes → ℕ
cut_loop gear low h k [] = k
cut_loop gear low h k (b ∷ bs) =
    let mixed = (h * 2 + gear b) % 2 ^ 64 in
    let rest = cut_loop gear low mixed (k + 1) bs in
    if leb low (k + 1) && nat_beq (mixed % mask_size) 0 then k + 1 else rest

-- The outer loop, on fuel, over `data[i:]`; `high` is `_MAX`.
unfoldable pub chunk_loop : (ℕ → ℕ) → ℕ → ℕ → ℕ → Bytes → List Bytes
unfolding cut_loop
chunk_loop gear low high fuel [] = []
chunk_loop gear low high zero (b ∷ bs) = []
chunk_loop gear low high (suc fuel) (b ∷ bs) =
    let cut = cut_loop gear low 0 0 (take high (b ∷ bs)) in
    take cut (b ∷ bs) ∷ chunk_loop gear low high fuel (drop cut (b ∷ bs))

unfoldable pub chunk : (ℕ → ℕ) → Bytes → List Bytes
unfolding chunk_loop
chunk gear bytes = chunk_loop gear chunk_min chunk_max (length bytes) bytes

-- A compression library: what it compresses, it can decompress.
pub record Compressor : Type 0 where
  pub compress : Bytes → Bytes
  pub decompress : Bytes → Option Bytes
  pub decompress-compress : (b : Bytes) → decompress (compress b) ≡ some b

-- The entry of `files` for a name.
pub record FileEntry : Type 0 where
  pub versions : List (List Text)
  pub roots : List Text

pub record BlobStore : Type 0 where
  pub tier : String
  pub chunks : Dict Text Bytes
  pub files : Dict String FileEntry
  pub logical_bytes : ℕ
  pub dedup_hits : ℕ

abbrev pub empty : String → BlobStore
empty tier = record { tier = tier; chunks = []; files = []; logical_bytes = 0; dedup_hits = 0 }

-- `xs[i]` of a Python list: a negative index counts from the end.
abbrev pub at_index {ℓ} : {A : Type ℓ} → List A → ℤ → Option A
at_index xs (pos n) = get_elem? xs n
at_index xs (negsuc n) =
    if leb (n + 1) (length xs) then get_elem? xs (length xs - (n + 1)) else none

-- The libraries that the store calls: BLAKE2b, zlib and LZMA, and the table of the rolling hash, which
-- `random.Random` makes.
pub record Libraries : Type 0 where
  pub blake : Blake
  pub warm : Compressor
  pub cold : Compressor
  pub gear : ℕ → ℕ

module _ (L : Libraries) where
  abbrev pub compressor : BlobStore → Compressor
  compressor s = if s.tier == "cold" then L.cold else L.warm

  -- `_blake`
  unfoldable pub chunk_hash : Bytes → Text
  chunk_hash c = hex (L.blake.digest c)

  -- The loop of `put_file`: the store after it; its recipe is the list of the chunks' hashes.
  unfoldable pub store_chunk : Bytes → BlobStore → BlobStore
  unfolding has_key
  store_chunk c s =
      let hh = chunk_hash c in
      if has_key hh s.chunks
      then record s { dedup_hits = s.dedup_hits + 1 }
      else record s { chunks = insert hh ((compressor s).compress c) s.chunks }

  unfoldable pub store_chunks : List Bytes → BlobStore → BlobStore
  unfolding store_chunk
  store_chunks [] s = s
  store_chunks (c ∷ cs) s = store_chunks cs (store_chunk c s)

  unfoldable pub recipe_of : List Bytes → List Text
  unfolding chunk_hash
  recipe_of [] = []
  recipe_of (c ∷ cs) = chunk_hash c ∷ recipe_of cs

  abbrev pub no_versions : FileEntry
  no_versions = record { versions = []; roots = [] }

  -- The end of `put_file`, with the recipe's root.
  abbrev pub add_version :
      String → List Text → Bytes → Option Text → BlobStore → Option (ℕ × BlobStore)
  add_version name recipe bytes none s = none
  add_version name recipe bytes (some root) s =
      let f = or_default no_versions (lookup name s.files) in
      let entry : FileEntry = record {
        versions = f.versions ++ recipe ∷ [];
        roots = f.roots ++ root ∷ [];
      } in
      some (
        length f.versions,
        record s {
          files = insert name entry s.files;
          logical_bytes = s.logical_bytes + length bytes;
        },
      )

  unfoldable pub put_file : String → Bytes → BlobStore → Option (ℕ × BlobStore)
  unfolding store_chunks recipe_of chunk
  put_file name bytes s =
      let cs = chunk L.gear bytes in
      let recipe = recipe_of cs in
      add_version name recipe bytes (merkle_root L.blake recipe) (store_chunks cs s)

  abbrev append_bytes : Option Bytes → Option Bytes → Option Bytes
  append_bytes none rest = none
  append_bytes (some b) none = none
  append_bytes (some b) (some rest) = some (b ++ rest)

  abbrev decompressed : BlobStore → Option Bytes → Option Bytes
  decompressed s none = none
  decompressed s (some z) = (compressor s).decompress z

  -- The loop of `get_file`.
  unfoldable pub read_chunks : BlobStore → List Text → Option Bytes
  read_chunks s [] = some []
  read_chunks s (hh ∷ recipe) =
      append_bytes (decompressed s (lookup hh s.chunks)) (read_chunks s recipe)

  abbrev pub version_of : Option FileEntry → ℤ → Option (List Text)
  version_of none version = none
  version_of (some f) version = at_index f.versions version

  abbrev read_recipe : BlobStore → Option (List Text) → Option Bytes
  read_recipe s none = none
  read_recipe s (some recipe) = read_chunks s recipe

  unfoldable pub get_file : String → ℤ → BlobStore → Option Bytes
  unfolding read_chunks
  get_file name version s = read_recipe s (version_of (lookup name s.files) version)

  abbrev pub root_of : Option FileEntry → ℤ → Option Text
  root_of none version = none
  root_of (some f) version = at_index f.roots version

  unfoldable pub root : String → ℤ → BlobStore → Option Text
  root name version s = root_of (lookup name s.files) version

  unfoldable pub stored_bytes : Dict Text Bytes → ℕ
  stored_bytes [] = 0
  stored_bytes ((hh, z) ∷ m) = length z + stored_bytes m

  abbrev prove :
      List Text → Option Text → ℕ → Option Text → Option (Text × List (Text × Side) × Text)
  prove recipe none idx root = none
  prove recipe (some leaf) idx none = none
  prove recipe (some leaf) idx (some root) = with_path leaf (merkle_proof L.blake recipe idx) root
    where
      with_path :
          Text → Option (List (Text × Side)) → Text → Option (Text × List (Text × Side) × Text)
      with_path leaf none root = none
      with_path leaf (some path) root = some (leaf, path, root)

  abbrev prove_in : Option (List Text) → Option Text → ℕ → Option (Text × List (Text × Side) × Text)
  prove_in none root idx = none
  prove_in (some recipe) root idx = prove recipe (get_elem? recipe idx) idx root

  -- `NEDB.file_proof` of python/nedb/engine.py on the store of one tier.
  unfoldable pub file_proof : String → ℕ → ℤ → BlobStore → Option (Text × List (Text × Side) × Text)
  file_proof name idx version s =
      let entry = lookup name s.files in
      prove_in (version_of entry version) (root_of entry version) idx
