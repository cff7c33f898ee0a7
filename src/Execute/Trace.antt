-- ===== src/Execute/Trace.antt =====
-- TRACE of `execute` of python/nedb/engine.py: the documents that caused the rows, or that they
-- caused. A seq is followed once, so the number of ops and of rows bounds both loops.
use aof_db.Prelude.{
  ℕ, zero, suc, ◌+◌, String, Bool, false, Option, none, some, List, [], ◌∷◌, ◌++◌, lookup_list,
  length, get_elem?, if◌then◌else◌, ◌==◌, string_eq, nat_eq, contains,
}
use aof_db.Store as Store
use aof_db.Index.{Values, Doc}
use aof_db.Log.{Op}
use aof_db.Engine.{Payload, put, State}
use aof_db.Engine.Mutations.{key_of}
use aof_db.Execute.{Comparisons, Rows, value_at}

module _ {F : Type 0} {V : Values F} (K : Comparisons V) where
  -- `op.payload["key"]` of a put
  abbrev pub put_key : Option (Op (Payload V) F) → Option String
  put_key none = none
  put_key (some o) = elim o.payload [ put key coll id doc ↦ some key | _ ↦ none ]

  abbrev row_of : String → Option (Doc V) → Option (String × Doc V)
  row_of key none = none
  row_of key (some doc) = some (key, doc)

  abbrev read_put : State V → Option ℕ → Option String → Option (String × Doc V)
  read_put s as_of none = none
  read_put s as_of (some key) = row_of key (Store.get key as_of s.store)

  -- The row of the put at a seq, read as of `as_of`; none past the end of the log.
  unfoldable pub written_at :
      State V → List (Op (Payload V) F) → Option ℕ → ℕ → Option (String × Doc V)
  written_at s ops as_of seq = read_put s as_of (put_key (get_elem? ops seq))

  -- The seqs that were visited, the rows found, in order, and what is still to follow.
  pub record Walk (A : Type 0) : Type 0 where
    pub visited : List ℕ
    pub found : Rows K
    pub to_do : List A

  abbrev push_doc : Option (String × Doc V) → Walk (Doc V) → Walk (Doc V)
  push_doc none w = w
  push_doc (some (key, doc)) w = record w {
    found = w.found ++ (key, doc) ∷ [];
    to_do = doc ∷ w.to_do;
  }

  -- `for cause_seq in causes`; the frontier is a stack with its top first.
  unfoldable pub follow_causes :
      State V → List (Op (Payload V) F) → List ℕ → Walk (Doc V) → Walk (Doc V)
  unfolding written_at
  follow_causes s ops [] w = w
  follow_causes s ops (q ∷ causes) w =
      let skipped = follow_causes s ops causes w in
      let noted = record w { visited = q ∷ w.visited } in
      let followed = follow_causes s ops causes (push_doc (written_at s ops (some q) q) noted) in
      if contains w.visited q then skipped else followed

  unfoldable pub back_loop : ℕ → State V → List (Op (Payload V) F) → Walk (Doc V) → Rows K
  unfolding follow_causes
  back_loop zero s ops w = w.found
  back_loop (suc fuel) s ops w = elim w.to_do [
    | [] ↦ w.found
    | doc ∷ rest ↦
        back_loop fuel s ops (follow_causes s ops (K.causes_of doc) (record w { to_do = rest }))
  ]

  -- `frontier = list(result_docs)`, from whose end `pop` takes
  abbrev stack_of : Rows K → List (Doc V) → List (Doc V)
  stack_of [] stack = stack
  stack_of ((key, doc) ∷ rows) stack = stack_of rows (doc ∷ stack)

  unfoldable pub trace_back : State V → List (Op (Payload V) F) → Rows K → Rows K
  unfolding back_loop
  trace_back s ops rows =
      back_loop (suc (length rows + length ops)) s ops
        (record { visited = []; found = []; to_do = stack_of rows [] })

  abbrev is_key : String → Option String → Bool
  is_key key none = false
  is_key key (some k) = k == key

  abbrev or_else : Option ℕ → Option ℕ → Option ℕ
  or_else none b = b
  or_else (some q) b = some q

  -- The seq of the last put of a key: the loop over the ops from the end.
  unfoldable pub last_put : String → List (Op (Payload V) F) → Option ℕ
  last_put key [] = none
  last_put key (o ∷ ops) =
      or_else (last_put key ops) (if is_key key (put_key (some o)) then some o.seq else none)

  abbrev cons_seq : Option ℕ → List ℕ → List ℕ
  cons_seq none seqs = seqs
  cons_seq (some q) seqs = q ∷ seqs

  unfoldable pub start_seqs : String → List (Op (Payload V) F) → Rows K → List ℕ
  unfolding last_put
  start_seqs coll ops [] = []
  start_seqs coll ops ((key, doc) ∷ rows) =
      let rest = start_seqs coll ops rows in
      let id = value_at K "_id" doc in
      if V.equal.same id K.null
      then rest
      else cons_seq (last_put (key_of coll (K.text_of_id id)) ops) rest

  abbrev push_seq : ℕ → Option (String × Doc V) → Walk ℕ → Walk ℕ
  push_seq q none w = w
  push_seq q (some row) w = record w { found = w.found ++ row ∷ []; to_do = w.to_do ++ q ∷ [] }

  -- `for dep_seq in self.cause_map.get(seq, [])`
  unfoldable pub follow_effects :
      State V → List (Op (Payload V) F) → Option ℕ → List ℕ → Walk ℕ → Walk ℕ
  unfolding written_at
  follow_effects s ops as_of [] w = w
  follow_effects s ops as_of (q ∷ effects) w =
      let skipped = follow_effects s ops as_of effects w in
      let noted = record w { visited = q ∷ w.visited } in
      let followed =
        follow_effects s ops as_of effects (push_seq q (written_at s ops as_of q) noted) in
      if contains w.visited q then skipped else followed

  unfoldable pub forward_loop : ℕ → State V → List (Op (Payload V) F) → Option ℕ → Walk ℕ → Rows K
  unfolding follow_effects
  forward_loop zero s ops as_of w = w.found
  forward_loop (suc fuel) s ops as_of w = elim w.to_do [
    | [] ↦ w.found
    | q ∷ rest ↦
        forward_loop fuel s ops as_of
          (follow_effects s ops as_of (lookup_list q s.cause_map) (record w { to_do = rest }))
  ]

  unfoldable pub trace_forward :
      State V → List (Op (Payload V) F) → String → Option ℕ → Rows K → Rows K
  unfolding forward_loop start_seqs
  trace_forward s ops coll as_of rows =
      forward_loop (suc (length rows + length ops)) s ops as_of
        (record { visited = []; found = []; to_do = start_seqs coll ops rows })

  abbrev pub traced :
      State V → List (Op (Payload V) F) → String → Option ℕ → Option String → Bool → Rows K → Rows K
  traced s ops coll as_of none reverse rows = rows
  traced s ops coll as_of (some String.[]) reverse rows = rows
  traced s ops coll as_of (some (String.◌∷◌ c f)) reverse rows =
      if reverse then trace_forward s ops coll as_of rows else trace_back s ops rows
