-- ===== src/Engine/Sample.antt =====
-- Values, a codec and a call of python/nedb/engine.py for the concrete runs.
use aof_db.Prelude.{ℕ, ◌+◌, true, none, some, [], ◌∷◌, nat_eq, ltb}
use aof_db.Hash.{weak}
use aof_db.Index.{Values, Indexes}
use aof_db.Log.{Codec}
use aof_db.Engine.{Payload, Nedb, Outcome, done, replayed, lost, type_error, opened}
use aof_db.Engine.Mutations.{Options, Call, put_call}

-- Values are numbers: those up to 999 can be hashed.
abbrev pub values : Values ℕ
values = record {
  Value = ℕ;
  equal = nat_eq;
  hashable = λ v. ltb v 1000;
  text_of = λ v. none;
  sortable = λ v. true;
  insort = λ x l. some (x ∷ l);
  of_seq = λ q. q;
  of_text = λ t. 1;
  of_seqs = λ l. 2;
  of_float = λ x. x;
  plus = λ x y. x + y;
}

abbrev pub codec : Codec (Payload values) ℕ
codec = record { blake = weak; canon = λ b. b.seq ∷ b.nonce ∷ [] }

abbrev pub by_age : Indexes values
by_age = record {
  eq = ("users.age", []) ∷ [];
  ordered = [];
  inv = [];
  config = (("users", "age"), "eq") ∷ [];
}

abbrev pub options : Options values
options = record {
  client = "ana";
  nonce = none;
  idem = none;
  ttl_s = none;
  caused_by = none;
  evidence = none;
  confidence = none;
  valid_from = none;
  valid_to = none;
}

abbrev pub after : Outcome values → Nedb values
after (done db) = db
after (replayed db) = db
after (lost db) = db
after (type_error l) = opened values by_age

abbrev pub put₁ : Call values codec
put₁ = put_call "users" "1" (("age", 30) ∷ []) options
