-- ===== src/Cascade/Contents.antt =====
-- The chunk table of the blob store of python/nedb/cascade.py: what is under a hash, and that storing
-- chunks only adds to it.
use aof_db.Prelude.{
  ◌+◌, ◌≡◌, ◌⊎◌, refl, sym, ◌∙◌, subst, none, some, List, [], ◌∷◌, lookup, insert, has_key,
  lookup-insert, Option-cases, Bool-cases, inl, inr, some-eq, ◌==◌, All,
}
use aof_db.Prelude.Texts.{text_eq}
use aof_db.Hex.{Bytes}
use aof_db.Hex.RoundTrip.{hex_inj}
use aof_db.Hash.{Collide, digest_inj}
use aof_db.Cascade.{
  Libraries, BlobStore, Text, compressor, chunk_hash, store_chunk, store_chunks, recipe_of,
  read_chunks,
}
use aof_db.Cascade.Chunking.{concat}

module _ (L : Libraries) where
  pub chunk_hash_inj :
      (c d : Bytes) → chunk_hash L c ≡ chunk_hash L d → (c ≡ d) ⊎ Collide L.blake c d
  unfolding chunk_hash
  chunk_hash_inj c d e = digest_inj L.blake c d (
      hex_inj (L.blake.digest c) (L.blake.digest d) (L.blake.digest_IsBytes c)
        (L.blake.digest_IsBytes d) e)

  -- What is under a hash is the compressed form of a chunk with that hash.
  abbrev pub Sound : BlobStore → Type 0
  Sound s =
      (hh : Text) (z : Bytes)
      → lookup hh s.chunks ≡ some z
      → (c : Bytes) × (hh ≡ chunk_hash L c) × ((compressor L s).decompress z ≡ some c)

  -- The chunk can be read back.
  abbrev pub Has : BlobStore → Bytes → Type 0
  Has s c =
      (z : Bytes) × (lookup (chunk_hash L c) s.chunks ≡ some z)
      × ((compressor L s).decompress z ≡ some c)

  -- What is read under the hash of the chunk is another chunk that collides with it.
  abbrev pub Clash : BlobStore → Bytes → Type 0
  Clash s c =
      (d : Bytes) × (z : Bytes) × (lookup (chunk_hash L c) s.chunks ≡ some z)
      × ((compressor L s).decompress z ≡ some d)
      × Collide L.blake c d

  -- At some round of the loop of `put_file` the chunk meets such a chunk in the store.
  abbrev pub Clashes : BlobStore → List Bytes → Type 0
  Clashes s [] = ⊥
  Clashes s (c ∷ cs) = Clash s c ⊎ Clashes (store_chunk L c s) cs

  pub record Grows (s t : BlobStore) : Type 0 where
    pub same_tier : t.tier ≡ s.tier
    pub kept : (hh : Text) (z : Bytes) → lookup hh s.chunks ≡ some z → lookup hh t.chunks ≡ some z

  pub Grows-refl : (s : BlobStore) → Grows s s
  Grows-refl s = record { same_tier = refl; kept = λ hh z e. e }

  pub Grows-trans : {s t u : BlobStore} → Grows s t → Grows t u → Grows s u
  Grows-trans a b = record {
    same_tier = b.same_tier ∙ a.same_tier;
    kept = λ hh z e. b.kept hh z (a.kept hh z e);
  }

  pub Grows-Has : {s t : BlobStore} (c : Bytes) → Grows s t → Has s c → Has t c
  Grows-Has c g (z, at, read) = (z, g.kept _ z at, rw g.same_tier read)

  -- One round of the loop of `put_file`.
  record Stored (c : Bytes) (s t : BlobStore) : Type 0 where
    sound : Sound t
    grows : Grows s t
    files : t.files ≡ s.files
    has : Has t c ⊎ Clash s c

  fresh_chunk : (c : Bytes) (s : BlobStore) → BlobStore
  fresh_chunk c s = record s {
    chunks = insert (chunk_hash L c) ((compressor L s).compress c) s.chunks;
  }

  Stored-fresh :
      (c : Bytes) (s : BlobStore)
      → Sound s
      → lookup (chunk_hash L c) s.chunks ≡ none
      → Stored c s (fresh_chunk c s)
  unfolding fresh_chunk
  Stored-fresh c s v absent = record {
    sound = λ hh z e. elim (Bool-cases (chunk_hash L c == hh)) [
      | inl same ↦ (
        c,
        sym ((text_eq.same_iff (chunk_hash L c) hh).0 same),
        subst (λ x. (compressor L s).decompress x ≡ some c)
            (some-eq (rw (lookup-insert, same) at e)) ((compressor L s).decompress-compress c),
      )
      | inr other ↦ v hh z (rw (lookup-insert, other) at e)
    ];
    grows = record {
      same_tier = refl;
      kept = λ hh z e. elim (Bool-cases (chunk_hash L c == hh)) [
        | inl same ↦ cc (
          subst (λ x. lookup x s.chunks ≡ none) ((text_eq.same_iff (chunk_hash L c) hh).0 same)
              absent,
          e,
        )
        | inr other ↦ rw (lookup-insert, other) e
      ];
    };
    files = refl;
    has = inl (
      (compressor L s).compress c,
      rw (lookup-insert, (text_eq.same_iff (chunk_hash L c) (chunk_hash L c)).1 refl) refl,
      (compressor L s).decompress-compress c,
    );
  }

  store_chunk-absent :
      (c : Bytes) (s : BlobStore)
      → lookup (chunk_hash L c) s.chunks ≡ none
      → store_chunk L c s ≡ fresh_chunk c s
  unfolding store_chunk has_key fresh_chunk
  store_chunk-absent c s absent = rw (has_key, absent) refl

  store_chunk-present :
      (c : Bytes) (s : BlobStore) (z : Bytes)
      → lookup (chunk_hash L c) s.chunks ≡ some z
      → store_chunk L c s ≡ record s { dedup_hits = s.dedup_hits + 1 }
  unfolding store_chunk has_key
  store_chunk-present c s z at = rw (has_key, at) refl

  Stored-known :
      (c : Bytes) (s : BlobStore) (z : Bytes)
      → Sound s
      → lookup (chunk_hash L c) s.chunks ≡ some z
      → Stored c s (record s { dedup_hits = s.dedup_hits + 1 })
  Stored-known c s z v at = record {
    sound = v;
    grows = record { same_tier = refl; kept = λ hh z e. e };
    files = refl;
    has =
        let (d, same, read) = v (chunk_hash L c) z at in
        elim (chunk_hash_inj c d same) [
          | inl equal ↦ inl (z, at, rw equal read)
          | inr clash ↦ inr (d, z, at, read, clash)
        ];
  }

  Stored-store_chunk : (c : Bytes) (s : BlobStore) → Sound s → Stored c s (store_chunk L c s)
  Stored-store_chunk c s v = elim (Option-cases (lookup (chunk_hash L c) s.chunks)) [
    | inl absent ↦
        subst (Stored c s) (sym (store_chunk-absent c s absent)) (Stored-fresh c s v absent)
    | inr (z, at) ↦
        subst (Stored c s) (sym (store_chunk-present c s z at)) (Stored-known c s z v at)
  ]

  -- What the loop of `put_file` promises: the store is still sound, has grown, and has every chunk.
  pub record AllStored (cs : List Bytes) (s t : BlobStore) : Type 0 where
    pub sound : Sound t
    pub grows : Grows s t
    pub files : t.files ≡ s.files
    pub has : All (Has t) cs ⊎ Clashes s cs

  pub AllStored-store_chunks :
      (cs : List Bytes) (s : BlobStore) → Sound s → AllStored cs s (store_chunks L cs s)
  unfolding store_chunks
  AllStored-store_chunks [] s v = record {
    sound = v;
    grows = Grows-refl s;
    files = refl;
    has = inl tt;
  }
  AllStored-store_chunks (c ∷ cs) s v =
      let one = Stored-store_chunk c s v in
      let rest = AllStored-store_chunks cs (store_chunk L c s) one.sound in
      record {
        sound = rest.sound;
        grows = Grows-trans one.grows rest.grows;
        files = rest.files ∙ one.files;
        has = elim one.has [
          | inr clash ↦ inr (inl clash)
          | inl has ↦ elim rest.has [
            | inr clash ↦ inr (inr clash)
            | inl all ↦ inl (Grows-Has c rest.grows has, all)
          ]
        ];
      }

  -- Chunks that can be read back give their bytes in a row.
  pub read_chunks-recipe_of :
      (s : BlobStore) (cs : List Bytes)
      → All (Has s) cs
      → read_chunks L s (recipe_of L cs) ≡ some (concat cs)
  unfolding read_chunks recipe_of concat
  read_chunks-recipe_of s [] h = refl
  read_chunks-recipe_of s (c ∷ cs) h =
      let (z, at, read) = h.0 in rw (at, read, read_chunks-recipe_of s cs h.1) refl

  -- A recipe that can be read can be read in any store that has grown from this one.
  pub read_chunks-Grows :
      (s t : BlobStore) (recipe : List Text) (b : Bytes)
      → Grows s t
      → read_chunks L s recipe ≡ some b
      → read_chunks L t recipe ≡ some b
  unfolding read_chunks
  read_chunks-Grows s t [] b g e = e
  read_chunks-Grows s t (hh ∷ recipe) b g e = elim (Option-cases (lookup hh s.chunks)) [
    | inl gone ↦ cc (rw (read_chunks, gone) at e)
    | inr (z, at) ↦ elim (Option-cases ((compressor L s).decompress z)) [
      | inl bad ↦ cc (rw (read_chunks, at, bad) at e)
      | inr (c, good) ↦ elim (Option-cases (read_chunks L s recipe)) [
        | inl bad ↦ cc (rw (read_chunks, at, good, bad) at e)
        | inr (rest, others) ↦
            rw (g.kept hh z at, g.same_tier, good, read_chunks-Grows s t recipe rest g others)
              (rw (read_chunks, at, good, others) at e)
      ]
    ]
  ]
