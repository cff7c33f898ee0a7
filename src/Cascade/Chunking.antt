-- ===== src/Cascade/Chunking.antt =====
-- What `chunk` of python/nedb/cascade.py makes of the bytes: the bytes again, cut in pieces within
-- bounds.
use aof_db.Prelude.{
  ℕ, zero, suc, ◌+◌, ◌≡◌, ◌≤◌, ◌<◌, refl, ap, List, [], ◌∷◌, ◌++◌, length, length-append, ◌∙◌, take,
  drop, arith, ◌*◌, ◌%◌, ◌^◌,
}
use aof_db.Hex.{Bytes}
use aof_db.Cascade.{chunk, chunk_loop, cut_loop, chunk_min, chunk_max}

-- The bounds of the inner loop: it cuts after the bytes it has read, and where it cuts before the
-- limit, no sooner than `_MIN`.
module _ (gear : ℕ → ℕ) (low : ℕ) where
  cut_loop_bounds :
      (h k : ℕ) (bs : Bytes)
      → (k ≤ cut_loop gear low h k bs) × (cut_loop gear low h k bs ≤ k + length bs)
  unfolding cut_loop
  cut_loop_bounds h k [] = (omega arith, omega arith)
  cut_loop_bounds h k (b ∷ bs) =
      ground (arith, cut_loop_bounds ((h * 2 + gear b) % 2 ^ 64) (k + 1) bs)

  cut_loop_early :
      (h k : ℕ) (bs : Bytes)
      → cut_loop gear low h k bs < k + length bs
      → low ≤ cut_loop gear low h k bs
  unfolding cut_loop
  cut_loop_early h k [] l = absurd (omega arith)
  cut_loop_early h k (b ∷ bs) l =
      ground (arith, cut_loop_early ((h * 2 + gear b) % 2 ^ 64) (k + 1) bs)

  cut_loop_positive : (h k b : ℕ) (bs : Bytes) → suc k ≤ cut_loop gear low h k (b ∷ bs)
  unfolding cut_loop
  cut_loop_positive h k b bs =
      ground (arith, cut_loop_bounds ((h * 2 + gear b) % 2 ^ 64) (k + 1) bs)

unfoldable pub concat : List Bytes → Bytes
concat [] = []
concat (c ∷ cs) = c ++ concat cs

take-drop {ℓ} : {A : Type ℓ} (n : ℕ) (xs : List A) → take n xs ++ drop n xs ≡ xs
take-drop zero xs = refl
take-drop (suc n) [] = refl
take-drop (suc n) (x ∷ xs) = ap (λ t. x ∷ t) (take-drop n xs)

length-take {ℓ} :
    {A : Type ℓ} (n : ℕ) (xs : List A)
    → (length (take n xs) ≤ n)
      × (length (take n xs) ≤ length xs)
      × (n ≤ length xs → length (take n xs) ≡ n)
      × (length xs ≤ n → length (take n xs) ≡ length xs)
length-take zero xs = (omega arith, omega arith, λ h. refl, λ h. omega arith)
length-take (suc n) [] = (omega arith, omega arith, λ h. absurd (omega arith), λ h. refl)
length-take (suc n) (x ∷ xs) =
    let (a, b, c, d) = length-take n xs in
    (omega arith, omega arith, λ h. ap suc (c (omega arith)), λ h. ap suc (d (omega arith)))

length-drop {ℓ} :
    {A : Type ℓ} (n : ℕ) (xs : List A) → n ≤ length xs → length (drop n xs) + n ≡ length xs
length-drop zero xs h = omega arith
length-drop (suc n) [] h = absurd (omega arith)
length-drop (suc n) (x ∷ xs) h = omega (arith, length-drop n xs (omega arith))

-- Every chunk has at most `high` bytes and at least one, and every chunk but the last has at least
-- `low`.
abbrev pub Cuts : ℕ → ℕ → List Bytes → Type 0
Cuts low high [] = Unit
Cuts low high (c ∷ []) = (1 ≤ length c) × (length c ≤ high)
Cuts low high (c ∷ d ∷ cs) = (low ≤ length c) × (length c ≤ high) × Cuts low high (d ∷ cs)

-- What the inner loop makes of the bytes up to the limit.
record Cut (low high n cut : ℕ) : Type 0 where
  some_bytes : 1 ≤ cut
  at_most : cut ≤ high
  within : cut ≤ n
  no_sooner : cut < n → low ≤ cut

no_sooner_lem :
    (low m t n c : ℕ)
    → low ≤ suc m
    → c ≤ suc t
    → (m ≤ n → t ≡ m)
    → (n ≤ m → t ≡ n)
    → (c < suc t → low ≤ c)
    → c < suc n
    → low ≤ c
no_sooner_lem low m t n c l above full whole early s = ground arith

cut_loop-take :
    (gear : ℕ → ℕ) (low high b : ℕ) (bs : Bytes)
    → low ≤ high
    → 1 ≤ high
    → Cut low high (suc (length bs)) (cut_loop gear low 0 0 (take high (b ∷ bs)))
cut_loop-take gear low zero b bs l h = absurd (omega arith)
cut_loop-take gear low (suc m) b bs l h =
    let (most, fits, full, whole) = length-take m bs in
    let (below, above) = cut_loop_bounds gear low 0 0 (b ∷ take m bs) in
    record {
      some_bytes = cut_loop_positive gear low 0 0 b (take m bs);
      at_most = omega (arith, most, above);
      within = omega (arith, fits, above);
      no_sooner =
          no_sooner_lem low m (length (take m bs)) (length bs)
            (cut_loop gear low 0 0 (b ∷ take m bs)) l (omega (arith, above)) full whole
            (λ s. cut_loop_early gear low 0 0 (b ∷ take m bs) (omega arith));
    }

Cuts-positive :
    (low high : ℕ) (c : Bytes) (cs : List Bytes) → 1 ≤ low → Cuts low high (c ∷ cs) → 1 ≤ length c
Cuts-positive low high c [] h k = k.0
Cuts-positive low high c (d ∷ cs) h k = omega (arith, k.0)

Cuts-cons :
    (low high cut : ℕ) (xs : Bytes) (r : List Bytes)
    → 1 ≤ low
    → Cut low high (length xs) cut
    → concat r ≡ drop cut xs
    → Cuts low high r
    → (concat (take cut xs ∷ r) ≡ xs) × Cuts low high (take cut xs ∷ r)
unfolding concat
Cuts-cons low high cut xs [] l c e k =
    let (most, fits, full, whole) = length-take cut xs in
    (
      ap (λ t. take cut xs ++ t) e ∙ take-drop cut xs,
      (omega (arith, full c.within, c.some_bytes), omega (arith, full c.within, c.at_most)),
    )
Cuts-cons low high cut xs (d ∷ r) l c e k =
    let (most, fits, full, whole) = length-take cut xs in
    let more = ap length e in
    let left : cut < length xs = omega (
      arith,
      Cuts-positive low high d r l k,
      length-append d (concat r),
      more,
      length-drop cut xs c.within,
    ) in
    (
      ap (λ t. take cut xs ++ t) e ∙ take-drop cut xs,
      (omega (arith, full c.within, c.no_sooner left), omega (arith, full c.within, c.at_most), k),
    )

chunk_loop_lem :
    (gear : ℕ → ℕ) (low high fuel : ℕ) (bs : Bytes)
    → 1 ≤ low
    → low ≤ high
    → length bs ≤ fuel
    → (concat (chunk_loop gear low high fuel bs) ≡ bs)
      × Cuts low high (chunk_loop gear low high fuel bs)
unfolding chunk_loop concat
chunk_loop_lem gear low high fuel [] l h f = (refl, tt)
chunk_loop_lem gear low high zero (b ∷ bs) l h f = absurd (omega arith)
chunk_loop_lem gear low high (suc fuel) (b ∷ bs) l h f =
    let cut = cut_loop gear low 0 0 (take high (b ∷ bs)) in
    let c = cut_loop-take gear low high b bs h (omega arith) in
    let (same, cuts) =
      chunk_loop_lem gear low high fuel (drop cut (b ∷ bs)) l h
        (omega (arith, length-drop cut (b ∷ bs) c.within, c.some_bytes)) in
    Cuts-cons low high cut (b ∷ bs) _ l c same cuts

-- Chunking ends, and cuts the bytes in order: the chunks in a row are the bytes, each chunk has from
-- one byte up to 64 KiB, and each but the last has at least 2 KiB.
pub chunk_lem :
    (gear : ℕ → ℕ) (bytes : Bytes)
    → (concat (chunk gear bytes) ≡ bytes) × Cuts chunk_min chunk_max (chunk gear bytes)
unfolding chunk
chunk_lem gear bytes =
    chunk_loop_lem gear chunk_min chunk_max (length bytes) bytes (omega arith) (omega arith)
      (omega arith)
