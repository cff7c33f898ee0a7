-- ===== src/Store.antt =====
-- python/nedb/store.py: the versioned key/value store. `_v` and `_seqs` are kept as the two dicts
-- that the source keeps. The proofs stand in the modules below.
pub mod Bisect
pub mod Invariant
pub mod TimeTravel
pub mod Keys
mod Tests
use text.Mathlib.Text.{starts_with}
use aof_db.Prelude.{
  ℕ, zero, suc, ◌+◌, ◌/◌, String, not, Option, none, some, List, [], ◌∷◌, Dict, lookup_list,
  append_to, keys, length, get_elem?, get_last?, ltb, if◌then◌else◌, ◌&&◌, ◌==◌, or_default,
  string_eq,
}

-- What a version holds: a value, or the tombstone of a delete.
pub data Version {ℓ} (V : Type ℓ) : Type ℓ where
  tomb : Version V
  live : V → Version V

pub record MvccStore {ℓ} (V : Type ℓ) : Type ℓ where
  pub versions : Dict String (List (ℕ × Version V))
  pub seqs : Dict String (List ℕ)

-- `bisect.bisect_right(a, x)` of the standard library: the loop
-- `while lo < hi: mid = (lo + hi) // 2; if x < a[mid]: hi = mid else: lo = mid + 1`.
bisect_loop : ℕ → List ℕ → ℕ → ℕ → ℕ → ℕ
bisect_loop zero a x lo hi = lo
bisect_loop (suc fuel) a x lo hi =
    let mid = (lo + hi) / 2 in
    let left = bisect_loop fuel a x lo mid in
    let right = bisect_loop fuel a x (mid + 1) hi in
    if ltb lo hi then (if ltb x (or_default 0 (get_elem? a mid)) then left else right) else lo

pub bisect_right : List ℕ → ℕ → ℕ
bisect_right a x = bisect_loop (length a) a x 0 (length a)

module _ {ℓ} {V : Type ℓ} where
  abbrev pub empty : MvccStore V
  empty = record { versions = []; seqs = [] }

  -- `None if val is TOMB else val`
  abbrev pub value_of : Version V → Option V
  value_of tomb = none
  value_of (live v) = some v

  abbrev pub resolve : Option (ℕ × Version V) → Option V
  resolve none = none
  resolve (some (s, v)) = value_of v

  -- `chain[i - 1]`, or none where `i - 1 < 0`
  abbrev pub version_before : List (ℕ × Version V) → ℕ → Option (ℕ × Version V)
  version_before chain zero = none
  version_before chain (suc i) = get_elem? chain i

  unfoldable pub write : String → Version V → ℕ → MvccStore V → MvccStore V
  write key v seq s = record {
    versions = append_to key (seq, v) s.versions;
    seqs = append_to key seq s.seqs;
  }

  unfoldable pub put : String → V → ℕ → MvccStore V → MvccStore V
  unfolding write
  put key value seq s = write key (live value) seq s

  unfoldable pub delete : String → ℕ → MvccStore V → MvccStore V
  unfolding write
  delete key seq s = write key tomb seq s

  unfoldable pub get : String → Option ℕ → MvccStore V → Option V
  unfolding bisect_right bisect_loop
  get key none s = resolve (get_last? (lookup_list key s.versions))
  get key (some as_of) s =
      resolve
        (version_before (lookup_list key s.versions) (bisect_right (lookup_list key s.seqs) as_of))

  abbrev pub keep_if_found : Option V → String → List String → List String
  keep_if_found none k rest = rest
  keep_if_found (some v) k rest = k ∷ rest

  -- The loop of `keys` over the snapshot of the key set.
  pub keys_loop : List String → String → Option ℕ → MvccStore V → List String
  keys_loop [] prefix as_of s = []
  keys_loop (k ∷ ks) prefix as_of s =
      let rest = keys_loop ks prefix as_of s in
      let kept = keep_if_found (get k as_of s) k rest in
      if not (prefix == "") && not (starts_with k prefix) then rest else kept

  unfoldable pub keys_of : String → Option ℕ → MvccStore V → List String
  unfolding keys_loop
  keys_of prefix as_of s = keys_loop (keys s.versions) prefix as_of s
