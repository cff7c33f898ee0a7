-- ===== src/Cascade/Proofs.antt =====
-- What `file_proof` of python/nedb/engine.py says of a version that `put_file` of python/nedb/cascade.py
-- has stored.
use aof_db.Prelude.{
  ℕ, ◌≡◌, refl, ap, sym, ◌∙◌, subst, true, some, List, [], ◌∷◌, String, lookup, lookup-insert,
  Option-cases, Bool-cases, inl, inr, some-eq, ◌==◌, string_eq, eq_iff, length, length-append,
  get_elem?, get_elem?-append_last, arith, zero, suc,
}
use aof_db.Prelude.Int.{pos}
use aof_db.Hex.{Bytes}
use aof_db.Merkle.{merkle_verify, Side}
use aof_db.Merkle.Inclusion.{merkle_verify-merkle_proof}
use aof_db.Cascade.{
  Libraries, BlobStore, FileEntry, Text, chunk, chunk_hash, store_chunks, recipe_of, put_file, root,
  file_proof,
}
use aof_db.Cascade.Contents.{Sound, AllStored-store_chunks}
use aof_db.Cascade.Files.{decode_all-recipe_of, entry_of, after_put, put_file_eq}

-- Every version of a file has its root.
abbrev pub IsPaired : BlobStore → Type 0
IsPaired s =
    (name : String) (f : FileEntry)
    → lookup name s.files ≡ some f
    → length f.roots ≡ length f.versions

module _ (L : Libraries) where
  length-roots :
      (name : String) (s : BlobStore)
      → IsPaired s
      → length (entry_of L name s).roots ≡ length (entry_of L name s).versions
  length-roots name s h = elim (Option-cases (lookup name s.files)) [
    | inl new ↦ rw new refl
    | inr (f, old) ↦ rw old (h name f old)
  ]

  after_put-IsPaired :
      (name : String) (bytes : Bytes) (recipe : List Text) (top : Text) (u : BlobStore)
      → IsPaired u
      → IsPaired (after_put L name bytes recipe top u)
  after_put-IsPaired name bytes recipe top u h other f e = elim (Bool-cases (name == other)) [
    | inr differ ↦ h other f (rw (lookup-insert, differ) at e)
    | inl same ↦
        subst (λ g. length g.roots ≡ length g.versions) (some-eq (rw (lookup-insert, same) at e))
          (omega (
            arith,
            length-roots name u h,
            length-append (entry_of L name u).roots (top ∷ []),
            length-append (entry_of L name u).versions (recipe ∷ []),
          ))
  ]

  newest_root :
      (name : String) (bytes : Bytes) (recipe : List Text) (top : Text) (u : BlobStore)
      → IsPaired u
      → root L name
          (pos (length (entry_of L name u).versions))
          (after_put L name bytes recipe top u)
        ≡ some top
  unfolding root
  newest_root name bytes recipe top u h =
      rw (lookup-insert, (eq_iff name name).1 refl, ← length-roots name u h)
        (get_elem?-append_last (entry_of L name u).roots top)

  get_elem?-recipe_of :
      (cs : List Bytes) (idx : ℕ) (c : Bytes)
      → get_elem? cs idx ≡ some c
      → get_elem? (recipe_of L cs) idx ≡ some (chunk_hash L c)
  unfolding recipe_of
  get_elem?-recipe_of [] idx c e = cc e
  get_elem?-recipe_of (d ∷ cs) zero c e = ap (λ b. some (chunk_hash L b)) (some-eq e)
  get_elem?-recipe_of (d ∷ cs) (suc idx) c e = get_elem?-recipe_of cs idx c e

  -- `put_file` on a sound store in which every version has its root returns, and every version
  -- still has one. For each chunk of the bytes, `file_proof` at its place in the new version then
  -- gives the hash of that chunk as the leaf, a path, and the root that the store keeps of the
  -- version, and `merkle_verify` accepts them.
  pub file_proof-put_file :
      (name : String) (bytes : Bytes) (s : BlobStore)
      → Sound L s
      → IsPaired s
      → (v : ℕ) × (t : BlobStore) × (top : Text) × (put_file L name bytes s ≡ some (v, t))
        × IsPaired t
        × (root L name (pos v) t ≡ some top)
        × ((idx : ℕ) (c : Bytes)
            → get_elem? (chunk L.gear bytes) idx ≡ some c
            → (path : List (Text × Side)) × (file_proof L name idx (pos v) t
                ≡ some (chunk_hash L c, path, top))
              × (merkle_verify L.blake (chunk_hash L c) path top ≡ some true))
  file_proof-put_file name bytes s h paired =
      let cs = chunk L.gear bytes in
      let u = store_chunks L cs s in
      let all = AllStored-store_chunks L cs s h in
      let (top, rooted, made) = put_file_eq L name bytes s in
      let paired_u : IsPaired u =
        subst (λ files. IsPaired (record u { files = files })) (sym all.files) paired in
      (
        length (entry_of L name u).versions,
        after_put L name bytes (recipe_of L cs) top u,
        top,
        made,
        after_put-IsPaired name bytes (recipe_of L cs) top u paired_u,
        newest_root name bytes (recipe_of L cs) top u paired_u,
        λ idx c e.
            let leaf = get_elem?-recipe_of cs idx c e in
            let (level, decoded) = decode_all-recipe_of L cs in
            let (path, r, proved, topped, good) =
              merkle_verify-merkle_proof L.blake (recipe_of L cs) level idx (chunk_hash L c) decoded
                leaf in
            let same : r ≡ top = some-eq (sym topped ∙ rooted) in
            (
              path,
              unfold file_proof in
                  rw
                    (
                      lookup-insert,
                      (eq_iff name name).1 refl,
                      get_elem?-append_last (entry_of L name u).versions (recipe_of L cs),
                      ← length-roots name u paired_u,
                      get_elem?-append_last (entry_of L name u).roots top,
                      leaf,
                      proved,
                    )
                    refl,
              subst (λ r. merkle_verify L.blake (chunk_hash L c) path r ≡ some true) same good,
            ),
      )
