-- ===== src/Resp/RoundTrip.antt =====
-- The commands that python/nedb/resp2.py reads back from what a client sends.
use aof_db.Prelude.{
  ℕ, zero, suc, ◌+◌, ◌-◌, ◌≡◌, ◌≤◌, ◌<◌, refl, ap, sym, ◌∙◌, false, Option, some, List, [], ◌∷◌,
  ◌++◌, length, length-append, take, drop, take-append, drop-append, All, append_assoc, map,
  length-map, arith, nat_beq,
}
use aof_db.Prelude.Int.{pos}
use aof_db.Hex.{Bytes}
use aof_db.Resp.{Texts, bulk, arr, join_items, crlf}
use aof_db.Resp.Reader.{
  cons_line, readline, rstrip, cons_stripped, is_eol, read_data, after_header, read_bulk,
  read_bulks, cons_arg, after_line, read_array, command, read_command, requests_loop, requests,
  keep_request,
}

-- What the language promises: `int` reads what `str` writes, in digits, and `decode` what `encode` writes.
pub record IsSound (T : Texts) : Type 0 where
  pub parse_int-print_int : (n : ℕ) → T.parse_int (T.print_int n) ≡ some (pos n)
  pub digits : (n : ℕ) → All (λ c. is_eol c ≡ false) (T.print_int n)
  pub decode-encode : (s : List ℕ) → T.decode (T.encode s) ≡ s

readline-crlf :
    (h rest : Bytes)
    → All (λ c. is_eol c ≡ false) h
    → readline (h ++ b'\r' ∷ b'\n' ∷ rest) ≡ (h ++ crlf, rest)
unfolding readline
readline-crlf [] rest a = refl
readline-crlf (c ∷ h) rest (p, ps) =
    let inside : nat_beq c b'\n' ≡ false = ground arith in
    rw inside (ap (cons_line c) (readline-crlf h rest ps))

rstrip-crlf : (h : Bytes) → All (λ c. is_eol c ≡ false) h → rstrip (h ++ crlf) ≡ h
unfolding rstrip
rstrip-crlf [] a = refl
rstrip-crlf (c ∷ h) (p, ps) = ap (cons_stripped c) (rstrip-crlf h ps) ∙ kept h
  where
    kept : (h : Bytes) → cons_stripped c h ≡ c ∷ h
    kept [] = rw p refl
    kept (d ∷ h) = refl

abbrev pub IsCommand : List (List ℕ) → Type 0
IsCommand args = 0 < length args

module _ (T : Texts) where
  -- The bulk strings of the arguments of a command.
  abbrev pub bulks : List (List ℕ) → List Bytes
  bulks args = map (λ s. bulk T (some s)) args

  -- The bytes of commands that are sent one after the other.
  abbrev pub pipeline : List (List (List ℕ)) → Bytes
  pipeline [] = []
  pipeline (args ∷ commands) = arr T (bulks args) ++ pipeline commands

  -- The call of `_dispatch` for a command: its name in capitals, and its arguments as they are.
  abbrev pub dispatched : List (List ℕ) → List (List ℕ)
  dispatched [] = []
  dispatched (name ∷ args) = T.upper name ∷ args

module _ (T : Texts) (h : IsSound T) where
  -- A header is read to its end, and the marker and the digits are what is left of it.
  header :
      (mark n : ℕ) (rest : Bytes)
      → is_eol mark ≡ false
      → (readline (mark ∷ T.print_int n ++ b'\r' ∷ b'\n' ∷ rest)
          ≡ (mark ∷ T.print_int n ++ crlf, rest))
        × (rstrip (mark ∷ T.print_int n ++ crlf) ≡ mark ∷ T.print_int n)
  header mark n rest m = (
    readline-crlf (mark ∷ T.print_int n) rest (m, h.digits n),
    rstrip-crlf (mark ∷ T.print_int n) (m, h.digits n),
  )

  abbrev whole_data : List ℕ → Bytes
  whole_data s = T.encode s ++ crlf

  length-whole_data : (s : List ℕ) → length (T.encode s) + 2 ≡ length (whole_data s)
  length-whole_data s = sym (length-append (T.encode s) crlf)

  read_data_lem :
      (s : List ℕ) (rest : Bytes)
      → read_data T (some (pos (length (T.encode s)))) (whole_data s ++ rest) ≡ some (s, rest)
  read_data_lem s rest =
      ap (λ n. read_to n) (length-whole_data s)
      ∙ ap
          (λ got. some (
            T.decode (take (length got - 2) got),
            drop (length (whole_data s)) (whole_data s ++ rest),
          ))
          (take-append (whole_data s) rest)
      ∙ ap (λ r. some (T.decode (take (length (whole_data s) - 2) (whole_data s)), r))
          (drop-append (whole_data s) rest)
      ∙ ap (λ n. some (T.decode (take n (whole_data s)), rest)) shorter
      ∙ ap (λ d. some (T.decode d, rest)) (take-append (T.encode s) crlf)
      ∙ ap (λ d. some (d, rest)) (h.decode-encode s)
    where
      read_to : ℕ → Option (List ℕ × Bytes)
      read_to n =
          let got = take n (whole_data s ++ rest) in
          some (T.decode (take (length got - 2) got), drop n (whole_data s ++ rest))

      shorter : length (whole_data s) - 2 ≡ length (T.encode s)
      shorter = omega (arith, length-whole_data s)

  bulk-append :
      (s : List ℕ) (rest : Bytes)
      → bulk T (some s) ++ rest
        ≡ b'$' ∷ T.print_int (length (T.encode s)) ++ b'\r' ∷ b'\n' ∷ (whole_data s ++ rest)
  unfolding bulk
  bulk-append s rest =
      ap (λ t. b'$' ∷ t)
        (append_assoc (T.print_int (length (T.encode s))) (crlf ++ whole_data s) rest)

  read_bulk-bulk :
      (s : List ℕ) (rest : Bytes) → read_bulk T (bulk T (some s) ++ rest) ≡ some (s, rest)
  unfolding read_bulk
  read_bulk-bulk s rest =
      let n = length (T.encode s) in
      let (line, stripped) = header b'$' n (whole_data s ++ rest) refl in
      ap (read_bulk T) (bulk-append s rest)
      ∙ ap (λ p. after_header T (rstrip p.0) p.1) line
      ∙ ap (λ l. after_header T l (whole_data s ++ rest)) stripped
      ∙ ap (λ o. read_data T o (whole_data s ++ rest)) (h.parse_int-print_int n)
      ∙ read_data_lem s rest

  read_bulks-bulks :
      (args : List (List ℕ)) (rest : Bytes)
      → read_bulks T (length args) (join_items T (bulks T args) ++ rest) ≡ command args rest
  unfolding read_bulks
  read_bulks-bulks [] rest = refl
  read_bulks-bulks (s ∷ args) rest =
      let later = join_items T (bulks T args) ++ rest in
      let here : read_bulk T (join_items T (bulks T (s ∷ args)) ++ rest) ≡ some (s, later) =
        ap (read_bulk T) (append_assoc (bulk T (some s)) (join_items T (bulks T args)) rest)
        ∙ read_bulk-bulk s later in
      rw (read_bulks, here) (ap (cons_arg T s) (read_bulks-bulks args rest))

  -- A command that is sent as an array of bulk strings is read back with its arguments, and
  -- what follows it in the stream is left.
  read_command-arr :
      (args : List (List ℕ)) (rest : Bytes)
      → read_command T (arr T (bulks T args) ++ rest) ≡ command args rest
  unfolding read_command arr
  read_command-arr args rest =
      let n = length (bulks T args) in
      let body = join_items T (bulks T args) ++ rest in
      let (line, stripped) = header b'*' n body refl in
      let whole : arr T (bulks T args) ++ rest ≡ b'*' ∷ T.print_int n ++ b'\r' ∷ b'\n' ∷ body =
        ap (λ t. b'*' ∷ t)
          (append_assoc (T.print_int n) (crlf ++ join_items T (bulks T args)) rest) in
      ap (read_command T) whole
      ∙ ap (λ p. after_line T (rstrip p.0) p.1) line
      ∙ ap (λ l. after_line T l body) stripped
      ∙ ap (λ o. read_array T o body) (h.parse_int-print_int n)
      ∙ ap (λ k. read_bulks T k body) (length-map (λ s. bulk T (some s)) args)
      ∙ read_bulks-bulks args rest

  length-pipeline :
      (commands : List (List (List ℕ))) → length commands ≤ length (pipeline T commands)
  unfolding arr
  length-pipeline [] = omega arith
  length-pipeline (args ∷ commands) =
      let n = length (bulks T args) in
      let tail = T.print_int n ++ (crlf ++ join_items T (bulks T args)) in
      omega (arith, length-pipeline commands, length-append (b'*' ∷ tail) (pipeline T commands))

  requests_loop-pipeline :
      (commands : List (List (List ℕ))) (fuel : ℕ)
      → length commands < fuel
      → All IsCommand commands
      → requests_loop T fuel (pipeline T commands) ≡ map (dispatched T) commands
  unfolding requests_loop
  requests_loop-pipeline commands zero l a = absurd (omega arith)
  requests_loop-pipeline [] (suc fuel) l a = unfold read_command readline rstrip in refl
  requests_loop-pipeline (args ∷ commands) (suc fuel) l (p, ps) =
      let here = read_command-arr args (pipeline T commands) in
      rw (requests_loop, here)
        (ap (keep_request T args) (requests_loop-pipeline commands fuel (omega arith) ps)
          ∙ kept args p)
    where
      kept :
          (args : List (List ℕ))
          → IsCommand args
          → keep_request T args (map (dispatched T) commands)
            ≡ dispatched T args ∷ map (dispatched T) commands
      kept [] p = absurd (omega arith)
      kept (s ∷ args) p = refl

  -- Where `int` reads what `str` writes and `decode` what `encode` writes: a pipeline of commands,
  -- each a list of texts that begins with its name and is sent as an array of bulk strings, reaches
  -- `_dispatch` command by command and in their order: the name in capitals, and the arguments as
  -- they were, whatever characters these texts have. Nothing else reaches it.
  pub requests-pipeline :
      (commands : List (List (List ℕ)))
      → All IsCommand commands
      → requests T (pipeline T commands) ≡ map (dispatched T) commands
  unfolding requests
  requests-pipeline commands a =
      requests_loop-pipeline commands (suc (length (pipeline T commands)))
        (omega (arith, length-pipeline commands)) a
