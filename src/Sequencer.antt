-- ===== src/Sequencer.antt =====
-- python/nedb/concurrent.py: the sequencer. Writers put intents on a queue; one committer takes a
-- batch, applies it in order and publishes the seq that reads are pinned to. A step relation is about
-- every interleaving of submits and reads with the committer's steps.
pub mod Snapshot
mod Tests
use aof_db.Prelude.{
  ℕ, zero, suc, ◌-◌, ◌≡◌, ◌≢◌, String, Bool, true, false, not, Option, none, some, List, [], ◌∷◌,
  ◌++◌, length, if◌then◌else◌,
}
use aof_db.Prelude.Int.{ℤ, pos, negsuc}
use aof_db.Store as Store
use aof_db.Relations.{neighbors}
use aof_db.Index.{Values, Doc, Indexes}
use aof_db.Log.{Codec}
use aof_db.Engine.{Payload, State, Nedb, Outcome, done, replayed, lost}
use aof_db.Engine.Mutations.{Call, perform, key_of}

module _ {F : Type 0} (V : Values F) (C : Codec (Payload V) F) where
  -- A write intent, with what `time.time()` returns when it is applied, or the `_STOP` of `close`.
  pub data Queued : Type 0 where
    stop : Queued
    intent : Call V C → F → F → Queued

  -- What the writer of an intent gets: the call returns, or raises a ReplayError or an IndexError.
  pub data Answer : Type 0 where
    returned : Answer
    replay_error : Answer
    index_error : Answer

  -- Where the committer is: it waits for an item, is in a batch, in which it has seen a stop or
  -- not, or has ended.
  pub data Committer : Type 0 where
    waiting : Committer
    in_batch : Bool → Committer
    ended : Committer

  abbrev pub after_batch : Bool → Committer
  after_batch saw_stop = if saw_stop then ended else waiting

  -- The sequencer: the items of the batch that are not applied are `batch`, and `replies` has
  -- those of its intents that are, of which no writer knows before the batch is published.
  pub record Sequencer : Type 0 where
    pub db : Nedb V
    pub max_batch : ℕ
    pub queue : List Queued
    pub batch : List Queued
    pub replies : List Answer
    pub answered : List Answer
    pub committed_seq : ℤ
    pub closed : Bool
    pub committer : Committer

  -- `NEDB.seq`: `len(self.log) - 1`
  abbrev pub seq_of_length : ℕ → ℤ
  seq_of_length zero = negsuc 0
  seq_of_length (suc n) = pos n

  unfoldable pub seq_of : Nedb V → ℤ
  seq_of db = seq_of_length (length db.log.ops)

  abbrev pub started : Nedb V → ℕ → Sequencer
  unfolding seq_of
  started db max_batch = record {
    db = db;
    max_batch = max_batch;
    queue = [];
    batch = [];
    replies = [];
    answered = [];
    committed_seq = seq_of db;
    closed = false;
    committer = waiting;
  }

  -- The items that one batch takes from the queue, up to `n`, and those it leaves.
  unfoldable pub drain : ℕ → List Queued → List Queued × List Queued
  drain zero items = ([], items)
  drain (suc n) [] = ([], [])
  drain (suc n) (i ∷ items) = let (taken, left) = drain n items in (i ∷ taken, left)

  -- `_run`: the first item, and more up to `max_batch`
  unfoldable pub take_batch : Queued → List Queued → Sequencer → Sequencer
  unfolding drain
  take_batch first rest s =
      let (taken, left) = drain (s.max_batch - 1) rest in
      record s { batch = first ∷ taken; queue = left; replies = []; committer = in_batch false }

  -- What an intent leaves and what its writer gets; a TypeError has no case, since it leaves the state
  -- changed in part.
  pub data Applied : Outcome V → Nedb V → Answer → Type 0 where
    returns : {db : Nedb V} → Applied (done db) db returned
    replays : {db : Nedb V} → Applied (replayed db) db replay_error
    loses : {db : Nedb V} → Applied (lost db) db index_error

  -- The steps of writers and of the committer.
  pub data Step : Sequencer → Sequencer → Type 0 where
    -- `_submit`
    submit :
        {s : Sequencer} (c : Call V C) (expiry now : F)
        → s.closed ≡ false
        → Step s (record s { queue = s.queue ++ intent c expiry now ∷ [] })
    -- `close`
    close :
        {s : Sequencer}
        → s.closed ≡ false
        → Step s (record s { queue = s.queue ++ stop ∷ []; closed = true })
    -- `_run` takes a batch.
    take :
        {s : Sequencer} (first : Queued) (rest : List Queued)
        → s.committer ≡ waiting
        → first ≢ stop
        → s.queue ≡ first ∷ rest
        → Step s (take_batch first rest s)
    -- `_run` returns.
    finish :
        {s : Sequencer} (rest : List Queued)
        → s.committer ≡ waiting
        → s.queue ≡ stop ∷ rest
        → Step s (record s { queue = rest; committer = ended })
    -- `_commit_batch` applies the next intent, or passes over a stop.
    apply :
        {s : Sequencer} (c : Call V C) (expiry now : F) (rest : List Queued) (db : Nedb V)
        (reply : Answer)
        → s.batch ≡ intent c expiry now ∷ rest
        → Applied (perform V C c expiry now s.db) db reply
        → Step s (record s { db = db; batch = rest; replies = s.replies ++ reply ∷ [] })
    skip :
        {s : Sequencer} (rest : List Queued)
        → s.batch ≡ stop ∷ rest
        → Step s (record s { batch = rest; committer = in_batch true })
    -- The end of the batch: `committed_seq` is set, and the writers wake.
    publish :
        {s : Sequencer} (saw_stop : Bool)
        → s.committer ≡ in_batch saw_stop
        → s.batch ≡ []
        → Step s (record s {
          committed_seq = seq_of s.db;
          answered = s.answered ++ s.replies;
          replies = [];
          committer = after_batch saw_stop;
        })

  pub data Runs (s : Sequencer) : Sequencer → Type 0 where
    at_start : Runs s s
    then_step : {t u : Sequencer} → Runs s t → Step t u → Runs s u

  -- A read of the state as of a seq, which finds nothing below 0.
  abbrev pub doc_at : String → ℤ → State V → Option (Doc V)
  doc_at key (pos n) s = Store.get key (some n) s.store
  doc_at key (negsuc n) s = none

  abbrev pub neighbors_at : String → String → ℤ → State V → List String
  neighbors_at frm rel (pos n) s = neighbors frm rel (some n) s.relations
  neighbors_at frm rel (negsuc n) s = []

  abbrev or_committed : ℤ → Option ℤ → ℤ
  or_committed committed none = committed
  or_committed committed (some n) = n

  -- `get` and `neighbors`, at the committed seq or at another.
  unfoldable pub get : String → String → Option ℤ → Sequencer → Option (Doc V)
  get coll id as_of s = doc_at (key_of coll id) (or_committed s.committed_seq as_of) s.db.state

  unfoldable pub neighbors_of : String → String → Option ℤ → Sequencer → List String
  neighbors_of frm rel as_of s =
      neighbors_at frm rel (or_committed s.committed_seq as_of) s.db.state
