-- ===== src/Proof/Tests.antt =====
-- Concrete runs of the inclusion proofs of python/nedb/proof.py.
use aof_db.Prelude.{ℕ, ◌≡◌, ◌⊎◌, ◌↔◌, refl, true, some, List, [], ◌∷◌, ◌++◌, All, take, drop}
use aof_db.Prelude.Texts.{text_beq}
use aof_db.Hex.{hex, from_hex}
use aof_db.Hash.{Collision, weak, weak_digest}
use aof_db.Proof.{
  Text, dict, genesis, fold_head, verify_proof, proof_dict, issue, issued, find_op, is_hex32_text,
}
use aof_db.Proof.Verdict.{IsHex32, verify_proof_iff}
use aof_db.Proof.Commitment.{IsDigest, SameBytes, AllSame, hashed, verify_proof_binding}
use aof_db.Proof.Issue.{hashes, issue_lem}

abbrev hash₁ : Text
hash₁ = hex (weak_digest (1 ∷ []))

abbrev hash₂ : Text
hash₂ = hex (weak_digest (2 ∷ []))

abbrev head₁ : Text
head₁ = hex (weak_digest (weak_digest (1 ∷ []) ++ weak_digest (2 ∷ [])))

hash₁-IsHex32 : IsHex32 hash₁
unfolding is_hex32_text hex from_hex weak_digest
hash₁-IsHex32 = refl

hash₂-IsHex32 : IsHex32 hash₂
unfolding is_hex32_text hex from_hex weak_digest
hash₂-IsHex32 = refl

hash₁-IsDigest : IsDigest hash₁
unfolding hex from_hex weak_digest
hash₁-IsDigest = (weak_digest (1 ∷ []), refl, refl)

hash₂-IsDigest : IsDigest hash₂
unfolding hex from_hex weak_digest
hash₂-IsDigest = (weak_digest (2 ∷ []), refl, refl)

verify_proof_iff_example :
    (verify_proof weak (dict (proof_dict (0, hash₂) hash₁ [] head₁)) ≡ some true) ↔ (
      IsHex32 hash₁
      × IsHex32 head₁
      × All IsHex32 (hash₂ ∷ [])
      × (fold_head weak (hash₂ ∷ []) (some hash₁) ≡ some head₁))
verify_proof_iff_example = verify_proof_iff weak 0 hash₂ hash₁ head₁ []

accepted : verify_proof weak (dict (proof_dict (0, hash₂) hash₁ [] head₁)) ≡ some true
unfolding is_hex32_text hex from_hex weak_digest fold_head
accepted = verify_proof_iff_example.1 (hash₁-IsHex32, refl, (hash₂-IsHex32, tt), refl)

verify_proof_binding_example :
    (SameBytes hash₁ hash₁ × AllSame (hash₂ ∷ []) (hash₂ ∷ []))
    ⊎ Collision weak (hashed weak hash₁ (hash₂ ∷ [])) (hashed weak hash₁ (hash₂ ∷ []))
verify_proof_binding_example =
    verify_proof_binding weak 0 0 hash₂ hash₂ hash₁ hash₁ head₁ [] [] hash₁-IsDigest hash₁-IsDigest
      (hash₂-IsDigest, tt) (hash₂-IsDigest, tt) refl accepted accepted

abbrev ops : List (ℕ × Text)
ops = (0, hash₁) ∷ (1, hash₂) ∷ []

found : find_op hash₂ ops ≡ some (1, hash₂)
unfolding find_op hex weak_digest text_beq
found = refl

issue_lem_example :
    (prev : Text) × (head : Text) × (fold_head weak (take 1 (hashes ops)) (some genesis)
      ≡ some prev)
    × (fold_head weak (hashes ops) (some genesis) ≡ some head)
    × (issue weak hash₂ ops ≡ issued (proof_dict (1, hash₂) prev (drop 2 (hashes ops)) head) true)
issue_lem_example =
    issue_lem weak hash₂ ops (1, hash₂) hash₂-IsHex32 (refl, (refl, tt))
      (hash₁-IsHex32, (hash₂-IsHex32, tt)) found
