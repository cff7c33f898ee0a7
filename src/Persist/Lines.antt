-- ===== src/Persist/Lines.antt =====
-- The lines of the append-only file of python/nedb/engine.py: one that was written reads back, and
-- one that a crash has torn does not read.
use aof_db.Prelude.{
  ℕ, ◌≡◌, ◌<◌, ◌⊎◌, inl, inr, refl, sym, ap, ◌∙◌, subst, false, Option, none, some, [], ◌∷◌,
  Bool-cases, ◌++◌, length, All, append_assoc,
}
use aof_db.Hex.{Bytes}
use aof_db.Crypto.{
  Ciphers, and_then, strip, strip_left, strip_right, cons_kept, nonce_len, aof_encode, aof_decode,
  decode_stripped, is_white, open_envelope,
}
use aof_db.Crypto.Keys.{IsSound}
use aof_db.Crypto.Envelopes.{IsBraced, aof_decode_plain, aof_decode-aof_encode}
use aof_db.Log.{Text, Op}
use aof_db.Persist.{Json, is_end, lines_of, to_dict, from_dict}
use aof_db.Persist.Dicts.{from_dict-to_dict}
use aof_db.Persist.Files.{
  Line, Entry, blank, corrupt, entry, write_line, parsed, read_decoded, read_line,
}

abbrev pub IsOneLine : Text → Type 0
IsOneLine t = All (λ c. is_end c ≡ false) t

module _ {P F : Type 0} (K : Ciphers) (J : Json P F) where
  -- JSON of a dict: it is one line in braces, and no proper prefix of it is JSON of a dict.
  pub record IsObject (t : Text) : Type 0 where
    pub braced : IsBraced t
    pub one_line : IsOneLine t
    pub torn :
        (front : Text) (x : ℕ) (back : Text)
        → t ≡ front ++ x ∷ back
        → (J.loads front ≡ none) × (K.loads_envelope front ≡ none)

  -- What `json` promises for a line, whose nonce has the length that the cipher asks for.
  pub record Reads (dek : Option Bytes) (l : Line P F) : Type 0 where
    pub length-nonce : length l.0 ≡ nonce_len
    pub object : IsObject (write_line K J dek l)
    pub json_braced : IsBraced (J.dumps (to_dict l.1))
    pub json_ascii : All (λ c. c < 128) (J.dumps (to_dict l.1))
    pub loads-dumps : J.loads (J.dumps (to_dict l.1)) ≡ some (to_dict l.1)

pub lines_of_line : (t rest : Text) → IsOneLine t → lines_of (t ++ b'\n' ∷ rest) ≡ t ∷ lines_of rest
unfolding lines_of
lines_of_line [] rest h = refl
lines_of_line (c ∷ t) rest (hc, h) = rw (hc, lines_of_line t rest h) refl

pub lines_of_last : (t : Text) → IsOneLine t → lines_of t ≡ t ∷ []
unfolding lines_of
lines_of_last [] h = refl
lines_of_last (c ∷ t) (hc, h) = rw (hc, lines_of_last t h) refl

cons_kept_prefix : (c : ℕ) (s w u : Text) → s ++ w ≡ u → (v : Text) × (cons_kept c s ++ v ≡ c ∷ u)
cons_kept_prefix c [] w u e = elim (Bool-cases (is_white c)) [
  | inl white ↦ (c ∷ u, rw white refl)
  | inr kept ↦ (u, rw kept refl)
]
cons_kept_prefix c (d ∷ s) w u e = (w, ap (λ t. c ∷ t) e)

strip_right_prefix : (u : Text) → (w : Text) × (strip_right u ++ w ≡ u)
unfolding strip_right
strip_right_prefix [] = ([], refl)
strip_right_prefix (c ∷ u) =
    let (w, e) = strip_right_prefix u in cons_kept_prefix c (strip_right u) w u e

-- What is left of the front of a text in braces is again at its front.
strip_prefix :
    (t front back : Text) → IsBraced t → t ≡ front ++ back → (w : Text) × (strip front ++ w ≡ front)
unfolding strip strip_left
strip_prefix t [] back b e = strip_right_prefix []
strip_prefix t (c ∷ front) back b e =
    let first : c ≡ b'{' = cc (b.braces, e) in
    subst (λ c. (w : Text) × (strip (c ∷ front) ++ w ≡ c ∷ front)) (sym first)
      (strip_right_prefix (b'{' ∷ front))

-- What a line that is no op does to `_load`.
abbrev pub IsLost : {P F : Type 0} → Entry P F → Type 0
IsLost e = (e ≡ blank) ⊎ (e ≡ corrupt)

module _ {P F : Type 0} (K : Ciphers) (J : Json P F) where
  pub read_decoded_braced :
      (t : Text) → IsBraced t → read_decoded K J t ≡ parsed (and_then (J.loads t) from_dict)
  read_decoded_braced t b = rw (b.braces) refl

  pub read_decoded_json :
      (t : Text) (o : Op P F)
      → IsBraced t
      → J.loads t ≡ some (to_dict o)
      → read_decoded K J t ≡ entry o
  read_decoded_json t o b e =
      read_decoded_braced t b
      ∙ ap (λ d. parsed (and_then d from_dict)) e
      ∙ ap parsed (from_dict-to_dict o)

  read_decoded-IsLost : (t : Text) → J.loads t ≡ none → IsLost (read_decoded K J t)
  read_decoded-IsLost [] e = inl refl
  read_decoded-IsLost (c ∷ t) e = inr (ap (λ d. parsed (and_then d from_dict)) e)

  pub read_line-write_line :
      (dek : Option Bytes) (l : Line P F)
      → IsSound K
      → Reads K J dek l
      → read_line K J dek (write_line K J dek l) ≡ entry l.1
  unfolding read_line write_line
  read_line-write_line none (nonce, o) h r =
      unfold aof_encode in
      ap (read_decoded K J) (aof_decode_plain K (J.dumps (to_dict o)) r.json_braced)
      ∙ read_decoded_json (J.dumps (to_dict o)) o r.json_braced r.loads-dumps
  read_line-write_line (some dek) (nonce, o) h r =
      ap (read_decoded K J) (
        aof_decode-aof_encode K h nonce r.length-nonce dek (J.dumps (to_dict o)) r.object.braced
          r.json_ascii)
      ∙ read_decoded_json (J.dumps (to_dict o)) o r.json_braced r.loads-dumps

  decode_stripped_torn :
      (s : Text) (dek : Option Bytes) → K.loads_envelope s ≡ none → decode_stripped K s dek ≡ s
  decode_stripped_torn [] dek e = refl
  decode_stripped_torn (c ∷ s) none e = refl
  decode_stripped_torn (c ∷ s) (some dek) e = unfold open_envelope in rw e refl

  pub read_line_torn :
      (dek : Option Bytes) (t front : Text) (x : ℕ) (back : Text)
      → IsObject K J t
      → t ≡ front ++ x ∷ back
      → IsLost (read_line K J dek front)
  unfolding read_line aof_decode
  read_line_torn dek t front x back h e =
      let (w, p) = strip_prefix t front (x ∷ back) h.braced e in
      let (y, v, q) = w_tail w in
      let (no_json, no_envelope) = h.torn (strip front) y v (whole w y v p q) in
      rw (decode_stripped_torn (strip front) dek no_envelope)
        (read_decoded-IsLost (strip front) no_json)
    where
      w_tail : (w : Text) → (y : ℕ) × (v : Text) × (w ++ x ∷ back ≡ y ∷ v)
      w_tail [] = (x, back, refl)
      w_tail (y ∷ w) = (y, w ++ x ∷ back, refl)

      whole :
          (w : Text) (y : ℕ) (v : Text)
          → strip front ++ w ≡ front
          → w ++ x ∷ back ≡ y ∷ v
          → t ≡ strip front ++ y ∷ v
      whole w y v p q =
          e
          ∙ ap (λ u. u ++ x ∷ back) (sym p)
          ∙ append_assoc (strip front) w (x ∷ back)
          ∙ ap (λ u. strip front ++ u) q
