-- ===== src/Merkle/Tests.antt =====
-- Concrete runs of the Merkle tree of python/nedb/merkle.py.
use aof_db.Prelude.{ℕ, ◌≡◌, ◌⊎◌, refl, true, some, List, [], ◌∷◌}
use aof_db.Prelude.Texts.{text_beq, codes}
use aof_db.Hex.{Bytes, hex, from_hex}
use aof_db.Hash.{Collision, weak, weak_digest}
use aof_db.Merkle.{Side, right, decode_all, merkle_proof, merkle_root, merkle_verify}
use aof_db.Merkle.Inclusion.{merkle_verify-merkle_proof}
use aof_db.Merkle.Binding.{hashed, merkle_verify_binding}

abbrev leaves : List (List ℕ)
leaves = codes "0a" ∷ codes "0b" ∷ codes "0c" ∷ []

leaves_decode : decode_all leaves ≡ some ((10 ∷ []) ∷ (11 ∷ []) ∷ (12 ∷ []) ∷ [])
unfolding decode_all from_hex
leaves_decode = refl

merkle_verify-merkle_proof_example :
    (path : List (List ℕ × Side)) × (root : List ℕ) × (merkle_proof weak leaves 2 ≡ some path)
    × (merkle_root weak leaves ≡ some root)
    × (merkle_verify weak (codes "0c") path root ≡ some true)
merkle_verify-merkle_proof_example =
    merkle_verify-merkle_proof weak leaves ((10 ∷ []) ∷ (11 ∷ []) ∷ (12 ∷ []) ∷ []) 2 (codes "0c")
      leaves_decode refl

abbrev path : List (List ℕ × Side)
path = (codes "0b", right) ∷ []

abbrev root : List ℕ
root = hex (weak_digest (10 ∷ 11 ∷ []))

leaf_decodes : from_hex (codes "0a") ≡ some (10 ∷ [])
unfolding from_hex
leaf_decodes = refl

accepted : merkle_verify weak (codes "0a") path root ≡ some true
unfolding merkle_verify from_hex hex text_beq weak_digest
accepted = refl

merkle_verify_binding_example :
    (◌≡◌ {A = Bytes} (10 ∷ []) (10 ∷ []))
    ⊎ Collision weak (hashed weak (10 ∷ []) path) (hashed weak (10 ∷ []) path)
merkle_verify_binding_example =
    merkle_verify_binding weak root (codes "0a") (codes "0a") (10 ∷ []) (10 ∷ []) path path
      leaf_decodes leaf_decodes refl refl accepted accepted
