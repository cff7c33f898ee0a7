-- ===== src/Persist/Crash.antt =====
-- A crash of python/nedb/engine.py at any byte of its append-only file, and the open after it.
use aof_db.Prelude.{
  ℕ, zero, suc, ◌+◌, ◌-◌, ◌≤◌, ◌<◌, ◌≡◌, ◌⊎◌, inl, inr, refl, ap, ◌∙◌, Bool-cases, true, false,
  Option, List, [], ◌∷◌, ◌++◌, length, length-append, take, All, All-head, append-nil, arith,
}
use aof_db.Hex.{Bytes}
use aof_db.Crypto.{Ciphers, aof_decode, strip, strip_left, strip_right}
use aof_db.Crypto.Keys.{IsSound}
use aof_db.Log.{Text, Op, Codec, load, verify, verify_loop, genesis}
use aof_db.Persist.{Json, is_end, lines_of}
use aof_db.Persist.Files.{
  Line, entry, keep_op, with_nonces, write_line, write_aof, read_line, load_lines, load_aof, repair,
}
use aof_db.Persist.Lines.{
  IsOneLine, IsObject, Reads, lines_of_line, lines_of_last, read_line-write_line, read_line_torn,
}

abbrev pub ops_of : {P F : Type 0} → List (Line P F) → List (Op P F)
ops_of [] = []
ops_of ((nonce, o) ∷ ls) = o ∷ ops_of ls

-- Where a cut of `a ++ b` falls: in `a`, or after it.
take_past : (a b : Text) (m n : ℕ) → n ≡ length a + m → take n (a ++ b) ≡ a ++ take m b
take_past [] b m n e = let same : n ≡ m = omega arith in ap (λ k. take k b) same
take_past (x ∷ a) b m zero e = absurd (omega arith)
take_past (x ∷ a) b m (suc n) e = ap (λ t. x ∷ t) (take_past a b m n (omega arith))

take-nil : (n : ℕ) → take {A = ℕ} n [] ≡ []
take-nil zero = refl
take-nil (suc n) = refl

take_within :
    (n : ℕ) (a b : Text)
    → n < length a
    → (front : Text) × (x : ℕ) × (back : Text) × (a ≡ front ++ x ∷ back) × (take n (a ++ b) ≡ front)
take_within n [] b h = absurd (omega arith)
take_within zero (x ∷ a) b h = ([], x, a, refl, refl)
take_within (suc n) (x ∷ a) b h =
    let (front, y, back, e, p) = take_within n a b (omega arith) in
    (x ∷ front, y, back, ap (λ t. x ∷ t) e, ap (λ t. x ∷ t) p)

-- A place is before `m`, or at it or after it.
cut : (n m : ℕ) → (n < m) ⊎ ((d : ℕ) × (n ≡ m + d))
cut n zero = inr (n, omega arith)
cut zero (suc m) = inl (omega arith)
cut (suc n) (suc m) = elim (cut n m) [
  | inl h ↦ inl (omega arith)
  | inr (d, e) ↦ inr (d, omega arith)
]

module _ {P F : Type 0} (K : Ciphers) (J : Json P F) (dek : Option Bytes) where
  pub load_aof_read :
      (t rest : Text) (o : Op P F)
      → IsOneLine t
      → read_line K J dek t ≡ entry o
      → load_aof K J dek (t ++ b'\n' ∷ rest) ≡ keep_op o (load_aof K J dek rest)
  unfolding load_aof load_lines
  load_aof_read t rest o one e = rw (lines_of_line t rest one, e) refl

module _ {P F : Type 0} (K : Ciphers) (J : Json P F) (h : IsSound K) (dek : Option Bytes) where
  load_aof_line :
      (l : Line P F) (rest : Text)
      → Reads K J dek l
      → load_aof K J dek (write_line K J dek l ++ b'\n' ∷ rest)
        ≡ keep_op l.1 (load_aof K J dek rest)
  load_aof_line l rest r =
      load_aof_read K J dek (write_line K J dek l) rest l.1 r.object.one_line
        (read_line-write_line K J dek l h r)

  load_aof_torn :
      (t front : Text) (x : ℕ) (back : Text)
      → IsObject K J t
      → t ≡ front ++ x ∷ back
      → (load_aof K J dek front).ops ≡ []
  unfolding load_aof load_lines
  load_aof_torn t front x back o e =
      let clean = All-head (λ c. is_end c ≡ false) front (x ∷ back) (rw e at o.one_line) in
      rw (lines_of_last front clean) (elim (read_line_torn K J dek t front x back o e) [
        | inl blank ↦ rw blank refl
        | inr corrupt ↦ rw corrupt refl
      ])

  load_aof_nil : (load_aof K J dek []).ops ≡ []
  unfolding load_aof load_lines lines_of read_line aof_decode strip strip_left strip_right
  load_aof_nil = refl

  load_aof_whole :
      (l : Line P F) → Reads K J dek l → (load_aof K J dek (write_line K J dek l)).ops ≡ l.1 ∷ []
  unfolding load_aof load_lines
  load_aof_whole l r =
      rw
        (lines_of_last (write_line K J dek l) r.object.one_line, read_line-write_line K J dek l h r)
        refl

  -- What a crash leaves of the lines that were not synced, at any byte.
  load_aof_cut :
      (ls : List (Line P F)) (n : ℕ)
      → All (Reads K J dek) ls
      → (k : ℕ) × ((load_aof K J dek (take n (write_aof K J dek ls))).ops ≡ take k (ops_of ls))
  unfolding write_aof
  load_aof_cut [] n r = (0, ap (λ u. (load_aof K J dek u).ops) (take-nil n) ∙ load_aof_nil)
  load_aof_cut ((nonce, o) ∷ ls) n (r, rs) =
      let t = write_line K J dek (nonce, o) in
      let rest = b'\n' ∷ write_aof K J dek ls in
      elim (cut n (length t)) [
        | inl within ↦
            let (front, x, back, e, p) = take_within n t rest within in
            (0, ap (λ u. (load_aof K J dek u).ops) p ∙ load_aof_torn t front x back r.object e)
        | inr (zero, at) ↦ (
          1,
          ap (λ u. (load_aof K J dek u).ops) (take_past t rest 0 n at ∙ append-nil t)
              ∙ load_aof_whole (nonce, o) r,
        )
        | inr (suc d, past) ↦
            let (k, kept) = load_aof_cut ls d rs in
            (
              suc k,
              ap (λ u. (load_aof K J dek u).ops) (take_past t rest (suc d) n past)
                  ∙ ap (λ u. u.ops) (load_aof_line (nonce, o) (take d (write_aof K J dek ls)) r)
                  ∙ ap (λ u. o ∷ u) kept,
            )
      ]

  load_aof_synced :
      (synced later : List (Line P F)) (n : ℕ)
      → All (Reads K J dek) (synced ++ later)
      → length (write_aof K J dek synced) ≤ n
      → (k : ℕ) × ((load_aof K J dek (take n (write_aof K J dek (synced ++ later)))).ops
          ≡ ops_of synced ++ take k (ops_of later))
  unfolding write_aof
  load_aof_synced [] later n r le = load_aof_cut later n r
  load_aof_synced ((nonce, o) ∷ ls) later n (r, rs) le =
      let t = write_line K J dek (nonce, o) in
      let rest = write_aof K J dek (ls ++ later) in
      let m = n - (length t + 1) in
      let longer = length-append t (b'\n' ∷ write_aof K J dek ls) in
      let (k, kept) = load_aof_synced ls later m rs (omega (arith, longer, le)) in
      (
        k,
        ap (λ u. (load_aof K J dek u).ops)
              (take_past t (b'\n' ∷ rest) (suc m) n (omega (arith, longer, le)))
            ∙ ap (λ u. u.ops) (load_aof_line (nonce, o) (take m rest) r)
            ∙ ap (λ u. o ∷ u) kept,
      )

verify_loop_front :
    {P F : Type 0} (C : Codec P F) (prev : Text) (xs ys : List (Op P F)) (k : ℕ)
    → verify_loop C prev (xs ++ ys) ≡ true
    → verify_loop C prev (xs ++ take k ys) ≡ true
unfolding verify_loop
verify_loop_front C prev [] ys zero e = refl
verify_loop_front C prev [] [] (suc k) e = refl
verify_loop_front C prev [] (y ∷ ys) (suc k) e = ground (arith, verify_loop_front C y.hash [] ys k)
verify_loop_front C prev (x ∷ xs) ys k e = ground (arith, verify_loop_front C x.hash xs ys k)

-- A crash may cut the file at any byte after the lines that were synced. Where the JSON of each op
-- reads back and no proper prefix of a line is JSON, and the next open finds no snapshot, its read
-- of the file gives every synced op, with some of the later ones in their order and nothing else,
-- and if the log had verified then what is read does.
pub load_aof_crash :
    {P F : Type 0} (K : Ciphers) (J : Json P F) (C : Codec P F) (dek : Option Bytes)
    (synced later : List (Line P F)) (n : ℕ)
    → IsSound K
    → All (Reads K J dek) (synced ++ later)
    → verify_loop C genesis (ops_of synced ++ ops_of later) ≡ true
    → length (write_aof K J dek synced) ≤ n
    → (k : ℕ) × (let found =
          (load_aof K J dek (take n (write_aof K J dek (synced ++ later)))).ops in
        (found ≡ ops_of synced ++ take k (ops_of later)) × (verify C (load found) ≡ true))
unfolding verify load
load_aof_crash K J C dek synced later n h r v le =
    let (k, e) = load_aof_synced K J h dek synced later n r le in
    (
      k,
      (
        e,
        ap (verify_loop C genesis) e
            ∙ verify_loop_front C genesis (ops_of synced) (ops_of later) k v,
      ),
    )

module _ {P F : Type 0} (K : Ciphers) (J : Json P F) (h : IsSound K) (dek : Option Bytes) where
  -- A file whose lines were all written is read to its end.
  pub load_aof-write_aof :
      (ls : List (Line P F))
      → All (Reads K J dek) ls
      → load_aof K J dek (write_aof K J dek ls) ≡ record { ops = ops_of ls; is_corrupt = false }
  unfolding write_aof
  load_aof-write_aof [] r =
      unfold load_aof load_lines lines_of read_line aof_decode strip strip_left strip_right in refl
  load_aof-write_aof ((nonce, o) ∷ ls) (r, rs) =
      load_aof_line K J h dek (nonce, o) (write_aof K J dek ls) r
      ∙ ap (keep_op o) (load_aof-write_aof ls rs)

  pub ops_of-with_nonces :
      (random : ℕ → Bytes) (ops : List (Op P F)) → ops_of (with_nonces random ops) ≡ ops
  unfolding with_nonces
  ops_of-with_nonces random [] = refl
  ops_of-with_nonces random (o ∷ ops) =
      ap (λ t. o ∷ t) (ops_of-with_nonces (λ n. random (suc n)) ops)

  -- After the repair of an open that finds no snapshot, whatever the file was before it, the file
  -- reads to the end, and to the ops that this open has read from it, where the JSON of the ops it
  -- writes reads back. What `_load` does after the repair is not part of it.
  pub load_aof-repair :
      (random : ℕ → Bytes) (aof : Text)
      → All (Reads K J dek) (with_nonces random (load_aof K J dek aof).ops)
      → load_aof K J dek (repair K J random dek aof)
        ≡ record { ops = (load_aof K J dek aof).ops; is_corrupt = false }
  unfolding repair
  load_aof-repair random aof r = elim (Bool-cases (load_aof K J dek aof).is_corrupt) [
    | inl torn ↦ rw torn (
        load_aof-write_aof (with_nonces random (load_aof K J dek aof).ops) r
        ∙ ap (λ o. record { ops = o; is_corrupt = false })
            (ops_of-with_nonces random (load_aof K J dek aof).ops))
    | inr fine ↦
        rw fine (ap (λ b. record { ops = (load_aof K J dek aof).ops; is_corrupt = b }) fine)
  ]
