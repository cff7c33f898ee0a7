-- ===== src/Resp/Tests.antt =====
-- Concrete runs of python/nedb/resp2.py, with a number written as one byte.
use aof_db.Prelude.{
  ℕ, ◌+◌, ◌-◌, ◌≡◌, refl, ap, arith, some, none, List, [], ◌∷◌, ◌++◌, map, leb, if◌then◌else◌, ◌&&◌,
}
use aof_db.Prelude.Texts.{codes}
use aof_db.Prelude.Int.{pos}
use aof_db.Resp.{Texts}
use aof_db.Resp.Reader.{requests, read_command, command}
use aof_db.Resp.RoundTrip.{IsSound, pipeline, requests-pipeline}

abbrev in_capitals : ℕ → ℕ
in_capitals c = if leb b'a' c && leb c b'z' then c - 32 else c

abbrev texts : Texts
texts = record {
  print_int = λ n. (n + 14) ∷ [];
  parse_int = λ b. elim b [ [] ↦ none | c ∷ cs ↦ some (pos (c - 14)) ];
  encode = λ s. s;
  decode = λ b. b;
  upper = λ t. map in_capitals t;
}

texts-IsSound : IsSound texts
texts-IsSound = record {
  parse_int-print_int = λ n. ap (λ m. some (pos m)) (same n);
  digits = λ n. ground arith;
  decode-encode = λ s. refl;
}
  where
    same : (n : ℕ) → n + 14 - 14 ≡ n
    same n = omega arith

-- A key with a line end in it.
abbrev sent : List (List (List ℕ))
sent =
    (codes "SET" ∷ (b'a' ∷ b'\r' ∷ b'\n' ∷ []) ∷ codes "1" ∷ [])
    ∷ (codes "get" ∷ codes "a" ∷ [])
    ∷ []

abbrev received : List (List (List ℕ))
received =
    (codes "SET" ∷ (b'a' ∷ b'\r' ∷ b'\n' ∷ []) ∷ codes "1" ∷ [])
    ∷ (codes "GET" ∷ codes "a" ∷ [])
    ∷ []

requests-pipeline_example : requests texts (pipeline texts sent) ≡ received
requests-pipeline_example = requests-pipeline texts texts-IsSound sent (ground arith)

inline_command :
    read_command texts (codes "PING  x" ++ b'\n' ∷ []) ≡ command (codes "PING" ∷ codes "x" ∷ []) []
unfolding read_command
inline_command = refl
