-- ===== src/Persist/Seal.antt =====
-- Encryption of the append-only file of python/nedb/engine.py: a plain file that is opened with a
-- key, and an encrypted one that is opened without.
use aof_db.Prelude.{
  ℕ, suc, ◌≡◌, refl, ap, ◌∙◌, true, false, Option, none, some, List, [], ◌∷◌, ◌++◌, All, lookup,
  string_eq,
}
use aof_db.Hex.{Bytes}
use aof_db.Crypto.{Ciphers, aof_encode, aof_decode, strip, strip_left, strip_right, and_then}
use aof_db.Crypto.Envelopes.{strip-IsBraced, aof_decode_unsealed, aof_decode_plain, IsBraced}
use aof_db.Log.{Text, Op}
use aof_db.Persist.{Json, OpDict, lines_of, from_dict, field, to_dict}
use aof_db.Persist.Files.{
  Line, entry, corrupt, parsed, keep_op, with_nonces, write_line, write_aof, read_line,
  read_decoded, load_lines, load_aof, repair, first_plain, plain_line, unless_sealed, first_line,
  seal_lines, seal_decoded, backfill_encrypt, open_aof,
}
use aof_db.Persist.Lines.{Reads, IsOneLine, lines_of_line, read_decoded_json, read_decoded_braced}
use aof_db.Persist.Crash.{ops_of, load_aof_read}

module _ {P F : Type 0} (K : Ciphers) (J : Json P F) where
  -- A plain line: `json` reads it, and it is no envelope.
  pub record IsPlain (l : Line P F) : Type 0 where
    pub reads : Reads K J none l
    pub no_envelope : K.loads_envelope (J.dumps (to_dict l.1)) ≡ none

  -- An encrypted line: `json` reads the envelope, which has no key "seq".
  pub record IsSealed (dek : Bytes) (l : Line P F) : Type 0 where
    pub braced : IsBraced (write_line K J (some dek) l)
    pub one_line : IsOneLine (write_line K J (some dek) l)
    pub envelope : OpDict P F
    pub loads-line : J.loads (write_line K J (some dek) l) ≡ some envelope
    pub no_seq : lookup "seq" envelope ≡ none

  read_line_plain :
      (dek : Bytes) (l : Line P F)
      → IsPlain l
      → read_line K J (some dek) (J.dumps (to_dict l.1)) ≡ entry l.1
  unfolding read_line
  read_line_plain dek (nonce, o) p =
      ap (read_decoded K J)
        (aof_decode_unsealed K (J.dumps (to_dict o)) dek p.reads.json_braced p.no_envelope)
      ∙ read_decoded_json K J (J.dumps (to_dict o)) o p.reads.json_braced p.reads.loads-dumps

  load_aof_plain :
      (dek : Bytes) (ls : List (Line P F))
      → All IsPlain ls
      → load_aof K J (some dek) (write_aof K J none ls)
        ≡ record { ops = ops_of ls; is_corrupt = false }
  unfolding write_aof write_line aof_encode
  load_aof_plain dek [] p =
      unfold load_aof load_lines lines_of read_line aof_decode strip strip_left strip_right in refl
  load_aof_plain dek ((nonce, o) ∷ ls) (p, ps) =
      load_aof_read K J (some dek) (J.dumps (to_dict o)) (write_aof K J none ls) o
        p.reads.object.one_line (read_line_plain dek (nonce, o) p)
      ∙ ap (keep_op o) (load_aof_plain dek ls ps)

  seal_decoded_braced :
      (t nonce dek : Bytes) (rest : Text)
      → IsBraced t
      → seal_decoded K J t nonce dek rest ≡ aof_encode K nonce t (some dek) ++ b'\n' ∷ rest
  seal_decoded_braced t nonce dek rest b = rw (b.braces) refl

  first_line_plain :
      (t : Text) (rest : Option Text) → IsBraced t → first_line K J t rest ≡ plain_line K J t
  first_line_plain t rest b = rw (b.braces) refl

  seal_lines_plain :
      (random : ℕ → Bytes) (dek : Bytes) (ls : List (Line P F))
      → All IsPlain ls
      → seal_lines K J random dek (lines_of (write_aof K J none ls))
        ≡ write_aof K J (some dek) (with_nonces random (ops_of ls))
  unfolding write_aof write_line seal_lines with_nonces
  seal_lines_plain random dek [] p = unfold lines_of aof_decode strip strip_left strip_right in refl
  seal_lines_plain random dek ((nonce, o) ∷ ls) (p, ps) =
      let t : Text = J.dumps (to_dict o) in
      let rest = seal_lines_plain (λ n. random (suc n)) dek ls ps in
      let sealed : Text =
        write_aof K J (some dek) (with_nonces (λ n. random (suc n)) (ops_of ls)) in
      unfold aof_encode in
      ap (seal_lines K J random dek)
        (lines_of_line t (write_aof K J none ls) p.reads.object.one_line)
      ∙ ap
          (λ u.
            seal_decoded K J u (random 0) dek
              (seal_lines K J (λ n. random (suc n)) dek (lines_of (write_aof K J none ls))))
          (aof_decode_unsealed K t dek p.reads.json_braced p.no_envelope)
      ∙ ap (seal_decoded K J t (random 0) dek) rest
      ∙ seal_decoded_braced t (random 0) dek sealed p.reads.json_braced

  first_plain_lem :
      (nonce : Bytes) (o : Op P F) (ls : List (Line P F))
      → IsPlain (nonce, o)
      → first_plain K J (lines_of (write_aof K J none ((nonce, o) ∷ ls)))
        ≡ some (J.dumps (to_dict o))
  unfolding write_aof write_line aof_encode first_plain
  first_plain_lem nonce o ls p =
      let t : Text = J.dumps (to_dict o) in
      let rest = first_plain K J (lines_of (write_aof K J none ls)) in
      ap (first_plain K J) (lines_of_line t (write_aof K J none ls) p.reads.object.one_line)
      ∙ ap (λ u. first_line K J u rest) (strip-IsBraced t p.reads.json_braced)
      ∙ first_line_plain t rest p.reads.json_braced
      ∙ ap (λ e. unless_sealed e (J.loads t) t) p.no_envelope
      ∙ ap (λ d. unless_sealed none d t) p.reads.loads-dumps

  pub open_aof_plain :
      (random random' : ℕ → Bytes) (dek : Bytes) (ls : List (Line P F))
      → All IsPlain ls
      → open_aof K J random random' (some dek) (write_aof K J none ls)
        ≡ write_aof K J (some dek) (with_nonces random' (ops_of ls))
  unfolding open_aof repair
  open_aof_plain random random' dek ls p =
      rw (load_aof_plain dek ls p) (backfill_encrypt_plain ls p)
    where
      backfill_encrypt_plain :
          (ls : List (Line P F))
          → All IsPlain ls
          → backfill_encrypt K J random' dek (write_aof K J none ls)
            ≡ write_aof K J (some dek) (with_nonces random' (ops_of ls))
      backfill_encrypt_plain [] p =
          unfold backfill_encrypt write_aof with_nonces lines_of first_plain strip strip_left
            strip_right in
          refl
      backfill_encrypt_plain ((nonce, o) ∷ ls) (p, ps) =
          unfold backfill_encrypt in
          rw (first_plain_lem nonce o ls p) (seal_lines_plain random' dek ((nonce, o) ∷ ls) (p, ps))

  from_dict_no_seq : (d : OpDict P F) → lookup "seq" d ≡ none → from_dict d ≡ none
  unfolding from_dict field
  from_dict_no_seq d e = rw e refl

  -- Opening an encrypted log without a key loses it, where the JSON of its first envelope reads as
  -- a dict without a seq: no op is read, and the file is rewritten to an empty one.
  pub open_aof_no_key :
      (random random' : ℕ → Bytes) (dek : Bytes) (l : Line P F) (ls : List (Line P F))
      → IsSealed dek l
      → let aof = write_aof K J (some dek) (l ∷ ls) in
        ((load_aof K J none aof).ops ≡ []) × (open_aof K J random random' none aof ≡ [])
  unfolding open_aof repair write_aof with_nonces
  open_aof_no_key random random' dek l ls s = let e = erased in (ap (λ r. r.ops) e, rw e refl)
    where
      t : Text
      t = write_line K J (some dek) l

      no_op : read_line K J none t ≡ corrupt
      no_op =
          unfold read_line in
          ap (read_decoded K J) (aof_decode_plain K t s.braced)
          ∙ read_decoded_braced K J t s.braced
          ∙ ap (λ d. parsed (and_then d from_dict)) s.loads-line
          ∙ ap parsed (from_dict_no_seq s.envelope s.no_seq)

      erased :
          load_aof K J none (t ++ b'\n' ∷ write_aof K J (some dek) ls)
          ≡ record { ops = []; is_corrupt = true }
      erased =
          unfold load_aof load_lines in
          rw (lines_of_line t (write_aof K J (some dek) ls) s.one_line, no_op) refl
