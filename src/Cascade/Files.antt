-- ===== src/Cascade/Files.antt =====
-- What `put_file` and `get_file` of python/nedb/cascade.py promise of each other.
use aof_db.Prelude.{
  ℕ, ◌≡◌, ◌⊎◌, refl, ap, ◌∙◌, none, some, List, [], ◌∷◌, ◌++◌, String, lookup, insert,
  lookup-insert, Option-cases, Bool-cases, inl, inr, ◌==◌, string_eq, eq_iff, length, get_elem?,
  or_default, get_elem?-append_last, get_elem?-append, get_elem?-lt, ◌+◌, ◌≢◌,
}
use aof_db.Prelude.Int.{pos}
use aof_db.Hex.{Bytes}
use aof_db.Hex.RoundTrip.{from_hex-hex}
use aof_db.Merkle.{decode_all, merkle_root}
use aof_db.Cascade.{
  Libraries, BlobStore, FileEntry, Text, chunk, chunk_hash, store_chunks, recipe_of, read_chunks,
  put_file, get_file, version_of, no_versions,
}
use aof_db.Cascade.Chunking.{chunk_lem}
use aof_db.Cascade.Contents.{
  Sound, Clashes, Grows, Grows-trans, AllStored-store_chunks, read_chunks-recipe_of,
  read_chunks-Grows,
}

module _ (L : Libraries) where
  pub decode_all-recipe_of :
      (cs : List Bytes) → (level : List Bytes) × (decode_all (recipe_of L cs) ≡ some level)
  unfolding decode_all recipe_of chunk_hash
  decode_all-recipe_of [] = ([], refl)
  decode_all-recipe_of (c ∷ cs) =
      let (level, e) = decode_all-recipe_of cs in
      (
        L.blake.digest c ∷ level,
        rw (from_hex-hex (L.blake.digest c) (L.blake.digest_IsBytes c), e) refl,
      )

  root_of_recipe : (cs : List Bytes) → (r : Text) × (merkle_root L.blake (recipe_of L cs) ≡ some r)
  unfolding merkle_root recipe_of
  root_of_recipe cs = elim (Option-cases (merkle_root L.blake (recipe_of L cs))) [
    | inr found ↦ found
    | inl bad ↦ absurd (no_failure cs bad)
  ]
    where
      no_failure : (cs : List Bytes) → merkle_root L.blake (recipe_of L cs) ≢ none
      no_failure [] bad = cc bad
      no_failure (c ∷ cs) bad =
          let (level, e) = decode_all-recipe_of (c ∷ cs) in
          cc (rw (merkle_root, recipe_of, e) at bad)

  -- The entry of a name, or the empty one that `setdefault` makes.
  abbrev pub entry_of : String → BlobStore → FileEntry
  entry_of name s = or_default (no_versions L) (lookup name s.files)

  abbrev pub entry_after : String → List Text → Text → BlobStore → FileEntry
  entry_after name recipe root s = record {
    versions = (entry_of name s).versions ++ recipe ∷ [];
    roots = (entry_of name s).roots ++ root ∷ [];
  }

  -- The store after a `put_file` of the chunks `cs`.
  abbrev pub after_put : String → Bytes → List Text → Text → BlobStore → BlobStore
  after_put name bytes recipe root u = record u {
    files = insert name (entry_after name recipe root u) u.files;
    logical_bytes = u.logical_bytes + length bytes;
  }

  Grows-after_put :
      (name : String) (bytes : Bytes) (recipe : List Text) (root : Text) (u : BlobStore)
      → Grows L u (after_put name bytes recipe root u)
  Grows-after_put name bytes recipe root u = record { same_tier = refl; kept = λ hh z e. e }

  pub put_file_eq :
      (name : String) (bytes : Bytes) (s : BlobStore)
      → (root : Text) × (merkle_root L.blake (recipe_of L (chunk L.gear bytes)) ≡ some root)
        × (put_file L name bytes s
            ≡ some (
              length (entry_of name (store_chunks L (chunk L.gear bytes) s)).versions,
              after_put name bytes
                  (recipe_of L (chunk L.gear bytes))
                  root
                  (store_chunks L (chunk L.gear bytes) s),
            ))
  unfolding put_file
  put_file_eq name bytes s =
      let (root, e) = root_of_recipe (chunk L.gear bytes) in (root, e, rw e refl)

  get_newest :
      (name : String) (bytes : Bytes) (recipe : List Text) (root : Text) (u : BlobStore)
      → read_chunks L u recipe ≡ some bytes
      → get_file L name
          (pos (length (entry_of name u).versions))
          (after_put name bytes recipe root u)
        ≡ some bytes
  unfolding get_file
  get_newest name bytes recipe root u e =
      rw
        (
          lookup-insert,
          (eq_iff name name).1 refl,
          get_elem?-append_last (entry_of name u).versions recipe,
        )
        (read_chunks-Grows L u (after_put name bytes recipe root u) recipe bytes
          (Grows-after_put name bytes recipe root u) e)

  -- `put_file` on a sound store always returns, the store stays sound, and `get_file` of the version
  -- that it returned gives the bytes back, unless at some chunk of the bytes a different chunk with
  -- the same digest was in the store already.
  pub get_file-put_file :
      (name : String) (bytes : Bytes) (s : BlobStore)
      → Sound L s
      → (v : ℕ) × (t : BlobStore) × (put_file L name bytes s ≡ some (v, t))
        × Sound L t
        × ((get_file L name (pos v) t ≡ some bytes) ⊎ Clashes L s (chunk L.gear bytes))
  get_file-put_file name bytes s h =
      let cs = chunk L.gear bytes in
      let u = store_chunks L cs s in
      let all = AllStored-store_chunks L cs s h in
      let (root, rooted, e) = put_file_eq name bytes s in
      (
        length (entry_of name u).versions,
        after_put name bytes (recipe_of L cs) root u,
        e,
        all.sound,
        elim all.has [
          | inr clash ↦ inr clash
          | inl has ↦ inl (
              get_newest name bytes (recipe_of L cs) root u
                (read_chunks-recipe_of L u cs has ∙ ap some ((chunk_lem L.gear bytes).0)))
        ],
      )

  version_kept :
      (name : String) (bytes : Bytes) (recipe : List Text) (root : Text) (u : BlobStore)
      (other : String) (n : ℕ) (r : List Text)
      → version_of L (lookup other u.files) (pos n) ≡ some r
      → version_of L (lookup other (after_put name bytes recipe root u).files) (pos n) ≡ some r
  version_kept name bytes recipe root u other n r e = elim (Bool-cases (name == other)) [
    | inr differ ↦ rw (lookup-insert, differ) e
    | inl same ↦ elim (Option-cases (lookup other u.files)) [
      | inl gone ↦ cc (rw gone at e)
      | inr (f, found) ↦
          let at : get_elem? f.versions n ≡ some r = rw found at e in
          rw
            (
              lookup-insert,
              same,
              (eq_iff name other).0 same,
              found,
              get_elem?-append f.versions n (recipe ∷ []) (get_elem?-lt f.versions n r at),
            )
            at
    ]
  ]

  -- No `put_file` on a sound store changes what `get_file` reads of any version that was there.
  pub get_file_kept :
      (name : String) (bytes : Bytes) (s t : BlobStore) (v : ℕ)
      → Sound L s
      → put_file L name bytes s ≡ some (v, t)
      → (other : String) (n : ℕ) (b : Bytes) → get_file L other (pos n) s ≡ some b
      → get_file L other (pos n) t ≡ some b
  unfolding get_file
  get_file_kept name bytes s t v h e other n b read =
      let cs = chunk L.gear bytes in
      let u = store_chunks L cs s in
      let all = AllStored-store_chunks L cs s h in
      let (root, rooted, made) = put_file_eq name bytes s in
      let same : after_put name bytes (recipe_of L cs) root u ≡ t = cc (made, e) in
      rw (← same) (elim (Option-cases (version_of L (lookup other s.files) (pos n))) [
        | inl gone ↦ cc (rw gone at read)
        | inr (r, found) ↦
            rw (version_kept name bytes (recipe_of L cs) root u other n r (rw all.files found)) (
              read_chunks-Grows L s _ r b
                (Grows-trans L all.grows (Grows-after_put name bytes (recipe_of L cs) root u))
                (rw found at read))
      ])
