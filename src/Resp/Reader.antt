-- ===== src/Resp/Reader.antt =====
-- `RespReader` of python/nedb/resp2.py, and the loop of `_Handler.handle` that reads commands.
use aof_db.Prelude.{
  ℕ, zero, suc, ◌+◌, ◌-◌, Bool, Option, none, some, List, [], ◌∷◌, length, take, drop,
  if◌then◌else◌, nat_beq, ◌||◌,
}
use aof_db.Prelude.Int.{ℤ, pos, negsuc}
use aof_db.Hex.{Bytes}
use aof_db.Crypto.{is_white}
use aof_db.Resp.{Texts}

abbrev pub cons_line : ℕ → Bytes × Bytes → Bytes × Bytes
cons_line c (line, rest) = (c ∷ line, rest)

-- `readline()`, with what is left of the stream
unfoldable pub readline : Bytes → Bytes × Bytes
readline [] = ([], [])
readline (c ∷ cs) =
    let next = readline cs in if nat_beq c b'\n' then (c ∷ [], cs) else cons_line c next

abbrev pub is_eol : ℕ → Bool
is_eol c = nat_beq c b'\r' || nat_beq c b'\n'

abbrev pub cons_stripped : ℕ → Bytes → Bytes
cons_stripped c [] = if is_eol c then [] else c ∷ []
cons_stripped c (d ∷ cs) = c ∷ d ∷ cs

-- `rstrip(b"\r\n")`
unfoldable pub rstrip : Bytes → Bytes
rstrip [] = []
rstrip (c ∷ cs) = cons_stripped c (rstrip cs)

-- `read(n)`, which reads to the end where `n` is negative
abbrev pub read : ℤ → Bytes → Bytes × Bytes
read (pos n) stream = (take n stream, drop n stream)
read (negsuc n) stream = (stream, [])

-- `length + 2`
abbrev pub plus_two : ℤ → ℤ
plus_two (pos n) = pos (n + 2)
plus_two (negsuc zero) = pos 1
plus_two (negsuc (suc zero)) = pos 0
plus_two (negsuc (suc (suc n))) = negsuc n

-- `range(n)`, by its length
abbrev pub rounds : ℤ → ℕ
rounds (pos n) = n
rounds (negsuc n) = 0

-- The word that is being read, and the words after it.
abbrev close_word : List ℕ × List (List ℕ) → List (List ℕ)
close_word ([], words) = words
close_word (c ∷ word, words) = (c ∷ word) ∷ words

abbrev cons_word : ℕ → List ℕ × List (List ℕ) → List ℕ × List (List ℕ)
cons_word c (word, words) = (c ∷ word, words)

words_from : List ℕ → List ℕ × List (List ℕ)
words_from [] = ([], [])
words_from (c ∷ cs) =
    let next = words_from cs in if is_white c then ([], close_word next) else cons_word c next

-- `split()`
unfoldable pub split : List ℕ → List (List ℕ)
unfolding words_from
split s = close_word (words_from s)

-- What `read_command` does: None, the arguments, or a ValueError.
pub data Read : Type 0 where
  ended : Read
  command : List (List ℕ) → Bytes → Read
  value_error : Read

module _ (T : Texts) where
  abbrev pub read_data : Option ℤ → Bytes → Option (List ℕ × Bytes)
  read_data none stream = none
  read_data (some n) stream =
      let (got, rest) = read (plus_two n) stream in
      some (T.decode (take (length got - 2) got), rest)

  abbrev pub after_header : Bytes → Bytes → Option (List ℕ × Bytes)
  after_header [] stream = none
  after_header (c ∷ digits) stream =
      let got = read_data (T.parse_int digits) stream in if nat_beq c b'$' then got else none

  -- The body of the loop over the arguments.
  unfoldable pub read_bulk : Bytes → Option (List ℕ × Bytes)
  unfolding readline rstrip
  read_bulk stream = let (line, rest) = readline stream in after_header (rstrip line) rest

  abbrev pub cons_arg : List ℕ → Read → Read
  cons_arg a ended = ended
  cons_arg a (command args rest) = command (a ∷ args) rest
  cons_arg a value_error = value_error

  unfoldable pub read_bulks : ℕ → Bytes → Read
  unfolding read_bulk
  read_bulks zero stream = command [] stream
  read_bulks (suc n) stream = elim (read_bulk stream) [
    | none ↦ value_error
    | some (a, rest) ↦ cons_arg a (read_bulks n rest)
  ]

  abbrev pub read_array : Option ℤ → Bytes → Read
  read_array none stream = value_error
  read_array (some n) stream = read_bulks (rounds n) stream

  abbrev pub after_line : Bytes → Bytes → Read
  after_line [] stream = ended
  after_line (c ∷ cs) stream =
      let many = read_array (T.parse_int cs) stream in
      if nat_beq c b'*' then many else command (split (T.decode (c ∷ cs))) stream

  unfoldable pub read_command : Bytes → Read
  unfolding readline rstrip read_bulks split
  read_command stream = let (line, rest) = readline stream in after_line (rstrip line) rest

  abbrev pub keep_request : List (List ℕ) → List (List (List ℕ)) → List (List (List ℕ))
  keep_request [] later = later
  keep_request (cmd ∷ rest) later = (T.upper cmd ∷ rest) ∷ later

  -- The calls of `_dispatch` that the loop of `handle` makes, each with its `cmd` and its `rest`, in at most `fuel` rounds; a round
  -- that goes on has read a byte.
  unfoldable pub requests_loop : ℕ → Bytes → List (List (List ℕ))
  unfolding read_command
  requests_loop zero stream = []
  requests_loop (suc fuel) stream = elim (read_command stream) [
    | ended ↦ []
    | command args rest ↦ keep_request args (requests_loop fuel rest)
    | value_error ↦ []
  ]

  unfoldable pub requests : Bytes → List (List (List ℕ))
  unfolding requests_loop
  requests stream = requests_loop (suc (length stream)) stream
