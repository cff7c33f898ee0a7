-- ===== src/Proof/Issue.antt =====
-- The proof that the `proof` endpoint of python/nedb/server.py issues.
use aof_db.Prelude.{
  ℕ, zero, suc, ◌+◌, ◌≡◌, refl, sym, ap, ◌∙◌, true, Option, none, some, List, [], ◌∷◌, ◌++◌, All,
  arith, some-eq, map, take, drop, Bool-cases, inl, inr, get_elem?, subst, All-head, All-tail,
}
use aof_db.Prelude.Texts.{text_beq}
use aof_db.Hex.{Bytes, hex, from_hex}
use aof_db.Hex.RoundTrip.{from_hex-hex, length-hex}
use aof_db.Hash.{Blake}
use aof_db.Proof.{
  Text, genesis, issued, chain_step, fold_head, proof_dict, find_op, issue, is_hex32_text,
}
use aof_db.Proof.Verdict.{IsHex32, IsHex32-decodes, verify_proof_iff}

module _ (H : Blake) where
  fold_head-append :
      (ts us : List Text) (h : Option Text)
      → fold_head H (ts ++ us) h ≡ fold_head H us (fold_head H ts h)
  unfolding fold_head
  fold_head-append [] us h = refl
  fold_head-append (t ∷ ts) us none = fold_head-none us
    where
      fold_head-none : (us : List Text) → none ≡ fold_head H us none
      fold_head-none [] = refl
      fold_head-none (u ∷ us) = refl
  fold_head-append (t ∷ ts) us (some h) = fold_head-append ts us (chain_step H h t)

  hex-IsHex32 : (x : Bytes) → IsHex32 (hex (H.digest x))
  unfolding is_hex32_text
  hex-IsHex32 x =
      rw
        (from_hex-hex (H.digest x) (H.digest_IsBytes x), length-hex (H.digest x), H.length-digest x)

  pub fold_head-IsHex32 :
      (hs : List Text) (h : Text)
      → All IsHex32 hs
      → IsHex32 h
      → (r : Text) × (fold_head H hs (some h) ≡ some r) × IsHex32 r
  unfolding fold_head
  fold_head-IsHex32 [] h ok hx = (h, refl, hx)
  fold_head-IsHex32 (t ∷ ts) h ok hx =
      let (x, ex) = IsHex32-decodes h hx in
      let (y, ey) = IsHex32-decodes t ok.0 in
      let step : chain_step H h t ≡ some (hex (H.digest (x ++ y))) =
        unfold chain_step in rw (ex, ey) in
      let (r, er, hr) =
        fold_head-IsHex32 ts (hex (H.digest (x ++ y))) ok.1 (hex-IsHex32 (x ++ y)) in
      (r, rw step er, hr)

-- The seq of each op is its place in the log, from `k` on.
abbrev pub Numbered : ℕ → List (ℕ × Text) → Type 0
Numbered k [] = Unit
Numbered k (o ∷ ops) = (o.0 ≡ k) × Numbered (suc k) ops

abbrev pub hashes : List (ℕ × Text) → List Text
hashes ops = map (λ o. o.1) ops

find_op-Numbered :
    (k : ℕ) (want : Text) (ops : List (ℕ × Text)) (o : ℕ × Text)
    → Numbered k ops
    → find_op want ops ≡ some o
    → (j : ℕ) × (o.0 ≡ k + j) × (get_elem? (hashes ops) j ≡ some o.1)
unfolding find_op
find_op-Numbered k want [] o n e = cc
find_op-Numbered k want (p ∷ ops) o n e = elim (Bool-cases (text_beq p.1 want)) [
  | inl hit ↦
      let same : p ≡ o = some-eq (rw hit at e) in
      (0, subst (λ q. q.0 ≡ k + 0) same (omega (arith, n.0)), ap (λ q. some q.1) same)
  | inr miss ↦
      let (j, at_j, found) = find_op-Numbered (suc k) want ops o n.1 (rw miss at e) in
      (suc j, omega arith, found)
]

split_at :
    (hs : List Text) (i : ℕ) (t : Text)
    → get_elem? hs i ≡ some t
    → take i hs ++ t ∷ drop (i + 1) hs ≡ hs
split_at [] i t e = cc
split_at (h ∷ hs) zero t e = ap (λ u. u ∷ hs) (sym (some-eq e))
split_at (h ∷ hs) (suc i) t e =
    let next : suc i + 1 ≡ suc (i + 1) = omega arith in
    rw next (ap (λ l. h ∷ l) (split_at hs i t e))

module _ (H : Blake) where
  genesis-IsHex32 : IsHex32 genesis
  unfolding is_hex32_text from_hex genesis
  genesis-IsHex32 = refl

  -- For a log whose ops are numbered by their places and have hashes of the right shape, the
  -- endpoint answers a wanted hash that is in the log with a proof of the op found, whose heads are
  -- the folds of the hashes before the op and of all of them; and that proof verifies.
  pub issue_lem :
      (want : Text) (ops : List (ℕ × Text)) (o : ℕ × Text)
      → IsHex32 want
      → Numbered 0 ops
      → All IsHex32 (hashes ops)
      → find_op want ops ≡ some o
      → (prev : Text) × (head : Text) × (fold_head H (take o.0 (hashes ops)) (some genesis)
          ≡ some prev)
        × (fold_head H (hashes ops) (some genesis) ≡ some head)
        × (issue H want ops ≡ issued (proof_dict o prev (drop (o.0 + 1) (hashes ops)) head) true)
  unfolding issue
  issue_lem want ops o w n ok e =
      let (j, at_j, found) = find_op-Numbered 0 want ops o n e in
      let place : j ≡ o.0 = omega arith in
      let split =
        split_at (hashes ops) o.0 o.1
          (subst (λ i. get_elem? (hashes ops) i ≡ some o.1) place found) in
      let whole = subst (All IsHex32) (sym split) ok in
      let after =
        All-tail IsHex32 (take o.0 (hashes ops)) (o.1 ∷ drop (o.0 + 1) (hashes ops)) whole in
      let (prev, ep, hp) =
        fold_head-IsHex32 H (take o.0 (hashes ops)) genesis
          (All-head IsHex32 (take o.0 (hashes ops)) (o.1 ∷ drop (o.0 + 1) (hashes ops)) whole)
          genesis-IsHex32 in
      let (head, eh, hh) = fold_head-IsHex32 H (hashes ops) genesis ok genesis-IsHex32 in
      let onward : fold_head H (o.1 ∷ drop (o.0 + 1) (hashes ops)) (some prev) ≡ some head =
        ap (fold_head H (o.1 ∷ drop (o.0 + 1) (hashes ops))) (sym ep)
        ∙ (sym (
              fold_head-append H (take o.0 (hashes ops)) (o.1 ∷ drop (o.0 + 1) (hashes ops))
                (some genesis))
            ∙ (ap (λ l. fold_head H l (some genesis)) split ∙ eh)) in
      let verified =
        (verify_proof_iff H o.0 o.1 prev head (drop (o.0 + 1) (hashes ops))).1
          (hp, hh, after, onward) in
      (prev, head, ep, eh, rw (w, e, ep, eh, verified))
