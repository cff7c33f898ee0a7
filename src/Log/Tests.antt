-- ===== src/Log/Tests.antt =====
-- Concrete runs of the log of python/nedb/log.py, and of the healing of python/nedb/engine.py.
use aof_db.Prelude.{
  ℕ, ◌≡◌, ◌⊎◌, refl, String, true, false, Option, none, some, [], ◌∷◌, arith, lookup, insert, map,
}
use aof_db.Hash.{Collision, weak, weak_digest}
use aof_db.Prelude.Texts.{text_beq}
use aof_db.Hex.{hex}
use aof_db.Log.{
  Op, Request, OpLog, Codec, returned, replay_error, empty, make_op, extend, append, load, verify,
  genesis,
}
use aof_db.Log.Chain.{end_of}
use aof_db.Log.Recovery.{IsValid, IsValid-empty}
use aof_db.Log.Later.{
  Later, here, next, append-IsValid, load-Later, append_replayed, append_idempotent,
}
use aof_db.Log.Tamper.{SameHistory, hashed, verify_binding}
use aof_db.Log.Heal.{
  self_heal, internally_valid, relink, relinked, bodies, strip, IsPlain, self_heal_repairs,
  self_heal_loses_fields,
}

abbrev codec : Codec ℕ ℕ
codec = record { blake = weak; canon = λ b. b.seq ∷ b.nonce ∷ b.payload ∷ [] }

abbrev request : ℕ → Option String → Request ℕ ℕ
request nonce idem = record {
  client = "ana";
  nonce = nonce;
  op = "put";
  payload = 7;
  idem = idem;
  ts = none;
  caused_by = none;
  evidence = none;
  confidence = none;
  valid_from = none;
  valid_to = none;
}

abbrev log₁ : OpLog ℕ ℕ
log₁ = extend codec (request 3 (some "k")) 100 empty

abbrev op₁ : Op ℕ ℕ
op₁ = make_op codec (request 3 (some "k")) 100 empty

appended₁ : append codec (request 3 (some "k")) 100 empty ≡ returned op₁ true log₁
unfolding append lookup
appended₁ = refl

abbrev log₂ : OpLog ℕ ℕ
log₂ = extend codec (request 8 none) 101 log₁

abbrev op₂ : Op ℕ ℕ
op₂ = make_op codec (request 8 none) 101 log₁

appended₂ : append codec (request 8 none) 101 log₁ ≡ returned op₂ true log₂
unfolding append lookup insert
appended₂ = refl

later₁ : Later codec log₁ log₂
later₁ = next (request 8 none) 101 op₂ true here appended₂

later₂ : Later codec empty log₂
later₂ =
    next (request 8 none) 101 op₂ true (next (request 3 (some "k")) 100 op₁ true here appended₁)
      appended₂

load-Later_example : (verify codec log₂ ≡ true) × (load log₂.ops ≡ log₂)
load-Later_example = load-Later codec log₂ later₂

append_replayed_example : append codec (request 2 none) 102 log₂ ≡ replay_error
append_replayed_example =
    append_replayed codec (request 3 (some "k")) (request 2 none) 100 102 empty log₁ log₂ op₁
      appended₁ later₁ refl (omega arith) refl

append_idempotent_example : append codec (request 1 (some "k")) 103 log₂ ≡ returned op₁ false log₂
append_idempotent_example =
    append_idempotent codec (request 3 (some "k")) (request 1 (some "k")) 100 103 empty log₁ log₂
      op₁ true "k" refl refl appended₁ later₁

verified₂ : verify codec (load log₂.ops) ≡ true
unfolding verify load extend make_op
verified₂ = (load-Later codec log₂ later₂).0

verify_binding_example :
    SameHistory codec log₂.ops log₂.ops
    ⊎ Collision weak (hashed codec genesis log₂.ops) (hashed codec genesis log₂.ops)
verify_binding_example = verify_binding codec log₂.ops log₂.ops verified₂ verified₂ refl refl

valid₂ : IsValid codec log₂
valid₂ = append-IsValid codec (request 8 none) 101 log₁ log₂ op₂ true appended₂ (
    append-IsValid codec (request 3 (some "k")) 100 empty log₁ op₁ true appended₁
      (IsValid-empty codec))

-- The second op of a log whose first op was lost: its content is intact, and its link is broken.
abbrev broken : OpLog ℕ ℕ
broken = record {
  ops = make_op codec (request 8 none) 101 log₁ ∷ [];
  last_nonce = [];
  idem_seqs = [];
  head = op₂.hash;
}

broken_fails : verify codec broken ≡ false
unfolding verify make_op extend text_beq hex weak_digest
broken_fails = refl

broken_intact : internally_valid codec broken.ops ≡ true
unfolding internally_valid make_op extend genesis text_beq hex weak_digest
broken_intact = refl

self_heal_repairs_example :
    (verify codec (self_heal codec broken) ≡ true)
    × ((self_heal codec broken).head ≡ end_of genesis (self_heal codec broken).ops)
    × (bodies codec (self_heal codec broken).ops ≡ map strip (bodies codec broken.ops))
    × (map codec.canon (bodies codec (self_heal codec broken).ops)
        ≡ map codec.canon (bodies codec broken.ops))
    × ((self_heal codec broken).last_nonce ≡ broken.last_nonce)
    × ((self_heal codec broken).idem_seqs ≡ broken.idem_seqs)
self_heal_repairs_example =
    self_heal_repairs codec broken broken_fails broken_intact (unfold make_op in (refl, tt))

healed : verify codec (self_heal codec broken) ≡ true
healed = self_heal_repairs_example.0

self_heal_loses_fields_example :
    IsPlain codec broken.ops
    ⊎ Collision weak
        (relinked codec genesis broken.ops)
        (hashed codec genesis (relink codec genesis broken.ops))
self_heal_loses_fields_example =
    self_heal_loses_fields codec broken broken_fails broken_intact healed
