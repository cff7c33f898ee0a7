-- ===== src/Engine/Mutations.antt =====
-- The mutations of `NEDB` of python/nedb/engine.py: put, delete, link, unlink, and the op that
-- put_file appends.
use Prim.Native.String.{◌++◌ as joined}
use aof_db.Prelude.{ℕ, String, Option, none, some, List, insert, set_default, string_eq}
use aof_db.Index.{Values, Doc}
use aof_db.Log.{Request, Codec}
use aof_db.Engine.{
  Payload, put as put_payload, delete as delete_payload, link as link_payload,
  unlink as unlink_payload, put_file as put_file_payload, name_of, Nedb, Outcome, commit,
}

-- `f"{coll}:{id}"`
abbrev pub key_of : String → String → String
key_of coll id = joined coll (joined ":" id)

module _ {F : Type 0} (V : Values F) where
  -- The optional arguments of `put`.
  pub record Options : Type 0 where
    pub client : String
    pub nonce : Option ℕ
    pub idem : Option String
    pub ttl_s : Option F
    pub caused_by : Option (List ℕ)
    pub evidence : Option String
    pub confidence : Option F
    pub valid_from : Option String
    pub valid_to : Option String

  -- `now` is what `time.time()` returns.
  unfoldable pub embed_ttl : F → Option F → Doc V → Doc V
  embed_ttl now none doc = doc
  embed_ttl now (some ttl_s) doc = insert "_expires_at" (V.of_float (V.plus now ttl_s)) doc

  -- `if x is not None: doc[name] = x`
  abbrev mirror {ℓ} : {A : Type ℓ} → String → (A → V.Value) → Option A → Doc V → Doc V
  mirror name value none doc = doc
  mirror name value (some x) doc = insert name (value x) doc

  -- The document that `put` stores, but for the seq that the fold adds.
  unfoldable pub stored_doc : String → Options → F → Doc V → Doc V
  unfolding embed_ttl set_default
  stored_doc id o now doc =
      let named = embed_ttl now o.ttl_s (set_default "_id" (V.of_text id) doc) in
      let caused = mirror "_caused_by" V.of_seqs o.caused_by named in
      let shown = mirror "_evidence" V.of_text o.evidence caused in
      let sure = mirror "_confidence" V.of_float o.confidence shown in
      let begun = mirror "_valid_from" V.of_text o.valid_from sure in
      mirror "_valid_to" V.of_text o.valid_to begun

  -- A request with no provenance and no valid time.
  abbrev pub plain : String → Option String → Payload V → ℕ → Request (Payload V) F
  plain client idem payload n = record {
    client = client;
    nonce = n;
    op = name_of V payload;
    payload = payload;
    idem = idem;
    ts = none;
    caused_by = none;
    evidence = none;
    confidence = none;
    valid_from = none;
    valid_to = none;
  }

  unfoldable pub put_request : String → String → Doc V → Options → ℕ → Request (Payload V) F
  put_request coll id doc o n =
      record (plain o.client o.idem (put_payload (key_of coll id) coll id doc) n) {
        caused_by = o.caused_by;
        evidence = o.evidence;
        confidence = o.confidence;
        valid_from = o.valid_from;
        valid_to = o.valid_to;
      }

  module _ (C : Codec (Payload V) F) where
    -- `expiry` and `now` are what the two calls of `time.time()` return, for the document's expiry
    -- and for the op.
    unfoldable pub put : String → String → Doc V → Options → F → F → Nedb V → Outcome V
    unfolding stored_doc put_request commit
    put coll id doc o expiry now db =
        commit V C (put_request coll id (stored_doc id o expiry doc) o) o.client o.nonce now db

    unfoldable pub delete :
        String → String → String → Option ℕ → Option String → F → Nedb V → Outcome V
    unfolding commit
    delete coll id client nonce idem now db =
        commit V C (plain client idem (delete_payload (key_of coll id) coll id)) client nonce now db

    unfoldable pub link : String → String → String → String → Option ℕ → F → Nedb V → Outcome V
    unfolding commit
    link frm rel to client nonce now db =
        commit V C (plain client none (link_payload frm rel to)) client nonce now db

    unfoldable pub unlink : String → String → String → String → Option ℕ → F → Nedb V → Outcome V
    unfolding commit
    unlink frm rel to client nonce now db =
        commit V C (plain client none (unlink_payload frm rel to)) client nonce now db

    -- The end of `put_file`: the op that it appends once the blob store has the version and its root
    -- is known. The fold of the op changes nothing.
    unfoldable pub append_file :
        String → String → ℕ → List ℕ → String → Option ℕ → Option String → F → Nedb V → Outcome V
    unfolding commit
    append_file name tier version root client nonce idem now db =
        commit V C (plain client idem (put_file_payload name tier version root)) client nonce now db

    -- A call of one of these methods, with what it is given.
    pub data Call : Type 0 where
      put_call : String → String → Doc V → Options → Call
      delete_call : String → String → String → Option ℕ → Option String → Call
      link_call : String → String → String → String → Option ℕ → Call
      unlink_call : String → String → String → String → Option ℕ → Call
      append_file_call : String → String → ℕ → List ℕ → String → Option ℕ → Option String → Call

    unfoldable pub perform : Call → F → F → Nedb V → Outcome V
    unfolding put delete link unlink append_file
    perform (put_call coll id doc o) expiry now db = put coll id doc o expiry now db
    perform (delete_call coll id client nonce idem) expiry now db =
        delete coll id client nonce idem now db
    perform (link_call frm rel to client nonce) expiry now db = link frm rel to client nonce now db
    perform (unlink_call frm rel to client nonce) expiry now db =
        unlink frm rel to client nonce now db
    perform (append_file_call name tier version root client nonce idem) expiry now db =
        append_file name tier version root client nonce idem now db
