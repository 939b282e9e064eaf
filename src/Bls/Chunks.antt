-- ===== src/Bls/Chunks.antt =====
-- The batches of series ids (series-fetch.ts: `chunk`) and the cache block of an answer that was
-- put together from several (`mergeCache`).
use federal_mcps.Common.{
  ℕ, zero, suc, ◌≤◌, ◌≡◌, refl, ap, ◌∙◌, Bool, ◌&&◌, ◌||◌, Option, none, some, List, [], ◌∷◌, ◌++◌,
  arith, max, length, take, drop, take-append-drop, length-take, length-drop, All, all, any,
}
use federal_mcps.Http.Cached.{CacheInfo, cache_miss}

module _ {ℓ} {A : Type ℓ} where
  -- The loop over `i`, on fuel: what is left of the items stands for `i`.
  unfoldable pub chunk_from : ℕ → ℕ → List A → List (List A)
  chunk_from zero size items = []
  chunk_from (suc fuel) size [] = []
  chunk_from (suc fuel) size (x ∷ xs) =
      take size (x ∷ xs) ∷ chunk_from fuel size (drop size (x ∷ xs))

  -- A round takes an item at least, so as many rounds as items are enough.
  unfoldable pub chunk : List A → ℕ → List (List A)
  chunk items size = chunk_from (length items) size items

  abbrev pub concat : List (List A) → List A
  concat [] = []
  concat (xs ∷ xss) = xs ++ concat xss

  -- A batch is not empty and no longer than the size.
  abbrev pub IsBatch : ℕ → List A → Type 0
  IsBatch size batch = (1 ≤ length batch) × (length batch ≤ size)

  chunk_from-concat :
      (fuel size : ℕ) (items : List A)
      → 1 ≤ size
      → length items ≤ fuel
      → concat (chunk_from fuel size items) ≡ items
  unfolding chunk_from
  chunk_from-concat zero size [] pos le = refl
  chunk_from-concat zero size (x ∷ xs) pos le = absurd (omega arith)
  chunk_from-concat (suc fuel) size [] pos le = refl
  chunk_from-concat (suc fuel) size (x ∷ xs) pos le =
      ap (λ r. take size (x ∷ xs) ++ r)
        (chunk_from-concat fuel size (drop size (x ∷ xs)) pos
          (omega (arith, length-drop size (x ∷ xs))))
      ∙ take-append-drop size (x ∷ xs)

  chunk_from-IsBatch :
      (fuel size : ℕ) (items : List A) → 1 ≤ size → All (IsBatch size) (chunk_from fuel size items)
  unfolding chunk_from
  chunk_from-IsBatch zero size items pos = tt
  chunk_from-IsBatch (suc fuel) size [] pos = tt
  chunk_from-IsBatch (suc fuel) size (x ∷ xs) pos = (
    (omega (arith, length-take size (x ∷ xs)), omega (arith, length-take size (x ∷ xs))),
    chunk_from-IsBatch fuel size (drop size (x ∷ xs)) pos,
  )

  -- For a size of 1 or more, the batches put together are the items in their order, and each holds
  -- one item at least and no more than the size.
  pub chunk_lem :
      (items : List A) (size : ℕ)
      → 1 ≤ size
      → (concat (chunk items size) ≡ items) × All (IsBatch size) (chunk items size)
  unfolding chunk
  chunk_lem items size pos = (
    chunk_from-concat (length items) size items pos (omega arith),
    chunk_from-IsBatch (length items) size items pos,
  )

abbrev pub older : Option ℕ → Option ℕ → Option ℕ
older none b = b
older (some a) none = some a
older (some a) (some b) = some (max a b)

-- `Math.max(...ages)` of the entries that have an age.
unfoldable pub oldest : List CacheInfo → Option ℕ
oldest [] = none
oldest (c ∷ cs) = older c.age_seconds (oldest cs)

unfoldable pub merge_cache : List CacheInfo → CacheInfo
merge_cache [] = cache_miss
merge_cache (c ∷ cs) = record {
  hit = all (λ e. e.hit) (c ∷ cs);
  age_seconds = oldest (c ∷ cs);
  stale = any (λ e. e.stale) (c ∷ cs);
}

-- An age that is no greater than another.
abbrev pub IsAtMost : Option ℕ → Option ℕ → Type 0
IsAtMost none b = Unit
IsAtMost (some a) none = ⊥
IsAtMost (some a) (some b) = a ≤ b

-- What the merged block may not hide of one of its entries.
abbrev pub IsCovered : CacheInfo → CacheInfo → Type 0
IsCovered merged c =
    IsAtMost c.age_seconds merged.age_seconds
    × (merged.hit && c.hit ≡ merged.hit)
    × (merged.stale || c.stale ≡ merged.stale)

IsAtMost-older : (a b c : Option ℕ) → IsAtMost a b → IsAtMost a (older c b)
IsAtMost-older none b c h = tt
IsAtMost-older (some a) none c h = absurd h
IsAtMost-older (some a) (some b) none h = h
IsAtMost-older (some a) (some b) (some c) h = omega arith

older_first : (a b : Option ℕ) → IsAtMost a (older a b)
older_first none b = tt
older_first (some a) none = omega arith
older_first (some a) (some b) = omega arith

IsCovered-grows :
    (c : CacheInfo) (age : Option ℕ) (hit stale : Bool) (e : CacheInfo)
    → IsCovered (record { hit = hit; age_seconds = age; stale = stale }) e
    → IsCovered
        (record {
          hit = c.hit && hit;
          age_seconds = older c.age_seconds age;
          stale = c.stale || stale;
        })
        e
IsCovered-grows c age hit stale e (a, h, s) =
    (IsAtMost-older e.age_seconds age c.age_seconds a, ground arith, ground arith)

abbrev together : List CacheInfo → CacheInfo
together cs = record {
  hit = all (λ e. e.hit) cs;
  age_seconds = oldest cs;
  stale = any (λ e. e.stale) cs;
}

All-grows :
    (c : CacheInfo) (m : CacheInfo) (cs : List CacheInfo)
    → All (IsCovered m) cs
    → All
        (IsCovered (record {
          hit = c.hit && m.hit;
          age_seconds = older c.age_seconds m.age_seconds;
          stale = c.stale || m.stale;
        }))
        cs
All-grows c m [] h = tt
All-grows c m (e ∷ cs) (h, r) =
    (IsCovered-grows c m.age_seconds m.hit m.stale e h, All-grows c m cs r)

together-IsCovered : (cs : List CacheInfo) → All (IsCovered (together cs)) cs
unfolding oldest
together-IsCovered [] = tt
together-IsCovered (c ∷ cs) = (
  (older_first c.age_seconds (oldest cs), ground arith, ground arith),
  All-grows c (together cs) cs (together-IsCovered cs),
)

-- The merged block is a hit only if every entry is, is stale if any entry is, and is at least as
-- old as the oldest of them.
pub merge_cache-IsCovered : (cs : List CacheInfo) → All (IsCovered (merge_cache cs)) cs
unfolding merge_cache
merge_cache-IsCovered [] = tt
merge_cache-IsCovered (c ∷ cs) = together-IsCovered (c ∷ cs)
