-- ===== src/Relations/Writes.antt =====
-- What `link` and `unlink` of python/nedb/relations.py do to every read of the graph.
use aof_db.Prelude.{
  ℕ, ◌≤◌, ◌≡◌, String, true, false, Option, ◌++◌, if◌then◌else◌, ◌&&◌, arith, contains, Bool-cases,
  inl, inr, sees, All, All-append, All-weaken, append-nil, suc, ap, string_eq,
}
use aof_db.Relations.{Relations, empty, link, unlink, neighbors, inbound}
use aof_db.Relations.Spans.{
  any_open, any_live, SpanBefore, SpanBefore-mono, any_live-append, any_live-close_all,
  any_live_of_open, All-close_all,
}
use aof_db.Relations.History.{
  IsValid, IsValid-empty, out_spans, new_spans, same_edge, same_edge_eq, out_spans-link,
  in_spans-link, out_spans-unlink, in_spans-unlink, neighbors_lem, inbound_lem,
}

module _ (frm rel to : String) (m q : ℕ) (r : Relations) (v : IsValid m r) (h : m ≤ q) where
  before_q : (f l t : String) → All (SpanBefore q) (out_spans f l t r)
  before_q f l t = All-weaken _ _ (SpanBefore-mono m q h) (v.before f l t)

  before_suc : (f l t : String) → All (SpanBefore (suc q)) (out_spans f l t r)
  before_suc f l t = All-weaken _ _ (SpanBefore-mono m (suc q) (omega arith)) (v.before f l t)

  any_live-old :
      (f l t : String) (as_of : Option ℕ)
      → any_open (out_spans frm rel to r) ≡ true
      → same_edge (frm, rel, to) (f, l, t) ≡ true
      → sees as_of q ≡ true
      → any_live as_of (out_spans f l t r) ≡ true
  any_live-old f l t as_of o same s =
      let (ef, el, et) = same_edge_eq frm rel to f l t same in
      rw (← ef, ← el, ← et)
        (any_live_of_open as_of q (out_spans frm rel to r) (before_q frm rel to) o s)

  -- Linking at a seq that no edge has passed keeps the graph well formed.
  pub link-IsValid : IsValid (suc q) (link frm rel to q r)
  link-IsValid = record {
    mirror = λ f l t.
        rw (out_spans-link, in_spans-link)
          (ap (λ x. x ++ new_spans frm rel to q r f l t) (v.mirror f l t));
    before = λ f l t. rw out_spans-link (
        All-append _ (out_spans f l t r) (new_spans frm rel to q r f l t) (before_suc f l t)
          (ground arith));
  }

  pub unlink-IsValid : IsValid (suc q) (unlink frm rel to q r)
  unlink-IsValid = record {
    mirror = λ f l t. rw (out_spans-unlink, in_spans-unlink, v.mirror f l t);
    before = λ f l t. rw out_spans-unlink (elim (Bool-cases (same_edge (frm, rel, to) (f, l, t))) [
      | inl same ↦ rw same (All-close_all q (out_spans f l t r) (before_q f l t))
      | inr other ↦ rw other (before_suc f l t)
    ]);
  }

  -- After linking an edge at a seq that no edge has passed, a read of that edge at the head, or as
  -- of that seq or a later one, finds it; every other read of the graph is as before.
  pub neighbors-link :
      (f l t : String) (as_of : Option ℕ)
      → contains (neighbors f l as_of (link frm rel to q r)) t ≡ (
          if same_edge (frm, rel, to) (f, l, t) && sees as_of q
          then true
          else contains (neighbors f l as_of r) t)
  neighbors-link f l t as_of =
      rw
        (
          neighbors_lem f l t as_of (link frm rel to q r),
          neighbors_lem f l t as_of r,
          out_spans-link,
        )
        (elim (Bool-cases (any_open (out_spans frm rel to r))) [
          | inl old ↦ rw (old, append-nil) (ground (arith, any_live-old f l t as_of old))
          | inr new ↦ rw new (elim (Bool-cases (same_edge (frm, rel, to) (f, l, t))) [
            | inl same ↦ rw (same, any_live-append) (ground arith)
            | inr other ↦ rw (other, append-nil)
          ])
        ])

  -- After unlinking an edge at a seq that no edge has passed, a read of that edge at the head, or
  -- as of that seq or a later one, does not find it; every other read of the graph is as before.
  pub neighbors-unlink :
      (f l t : String) (as_of : Option ℕ)
      → contains (neighbors f l as_of (unlink frm rel to q r)) t ≡ (
          if same_edge (frm, rel, to) (f, l, t) && sees as_of q
          then false
          else contains (neighbors f l as_of r) t)
  neighbors-unlink f l t as_of =
      rw
        (
          neighbors_lem f l t as_of (unlink frm rel to q r),
          neighbors_lem f l t as_of r,
          out_spans-unlink,
        )
        (elim (Bool-cases (same_edge (frm, rel, to) (f, l, t))) [
          | inl same ↦ rw same (any_live-close_all as_of q (out_spans f l t r) (before_q f l t))
          | inr other ↦ rw other
        ])

-- The graphs that calls of `link` and `unlink` make of the empty one, each call at a seq that is not
-- below those before it; the index is above them all.
pub data Built : ℕ → Relations → Type 0 where
  start : Built 0 empty
  linked :
      {m : ℕ} {r : Relations} (frm rel to : String) (q : ℕ)
      → m ≤ q
      → Built m r
      → Built (suc q) (link frm rel to q r)
  unlinked :
      {m : ℕ} {r : Relations} (frm rel to : String) (q : ℕ)
      → m ≤ q
      → Built m r
      → Built (suc q) (unlink frm rel to q r)

Built-IsValid : {m : ℕ} {r : Relations} → Built m r → IsValid m r
Built-IsValid start = IsValid-empty
Built-IsValid (linked {m} {r} frm rel to q h b) = link-IsValid frm rel to m q r (Built-IsValid b) h
Built-IsValid (unlinked {m} {r} frm rel to q h b) =
    unlink-IsValid frm rel to m q r (Built-IsValid b) h

-- In every graph that links and unlinks at ascending seqs have made, the reverse index agrees with
-- the forward one, at the head and at every seq: `to` is a neighbour of `frm` exactly when `frm` is
-- inbound at `to`.
pub neighbors-inbound :
    (m : ℕ) (r : Relations)
    → Built m r
    → (frm rel to : String) (as_of : Option ℕ)
    → contains (neighbors frm rel as_of r) to ≡ contains (inbound to rel as_of r) frm
neighbors-inbound m r b frm rel to as_of =
    rw (neighbors_lem, inbound_lem) (ap (any_live as_of) ((Built-IsValid b).mirror frm rel to))
