-- ===== src/Kheap/Merge.antt =====
-- What joining neighbouring free blocks does to a list of blocks.
use palley_os.Prelude.{
  ℕ, ◌+◌, ◌%◌, ◌<◌, ◌≡◌, refl, inl, inr, false, List, [], ◌∷◌, arith, u32_mod, length, Bool-cases,
  if◌then◌else◌,
}
use palley_os.Kheap.{header_size, Heap, done, compact_heap}
use palley_os.Kheap.Chain.{Block, Lists}
use palley_os.Kheap.Compact.{
  merge, both_free, compact_from, compact, compact_from-merge, compact_from-keep,
  compact_heap-Lists,
}

-- No two neighbours are free.
abbrev pub NoFreePair : List Block → Type 0
NoFreePair [] = Unit {0}
NoFreePair (b ∷ []) = Unit {0}
NoFreePair (b ∷ c ∷ bs) = (both_free b c ≡ false) × NoFreePair (c ∷ bs)

-- The allocated blocks, in order.
pub used : List Block → List Block
used [] = []
used (b ∷ bs) = if b.allocated then b ∷ used bs else used bs

-- The bytes that headers and contents take up.
pub span : List Block → ℕ
span [] = 0
span (b ∷ bs) = header_size + b.size + span bs

-- A block that may stand in front of what `compact_from b` makes.
NoFreePair-cons :
    (a b : Block) (bs : List Block)
    → both_free a b ≡ false
    → NoFreePair (compact_from b bs)
    → NoFreePair (a ∷ compact_from b bs)
unfolding compact_from
NoFreePair-cons a b [] e h = (e, tt)
NoFreePair-cons a b (c ∷ bs) e h = elim (Bool-cases (both_free b c)) [
  | inl f ↦
      let joined : NoFreePair (compact_from (merge b c) bs) =
        rw (compact_from-merge b c bs f) at h in
      rw (compact_from-merge b c bs f) (NoFreePair-cons a (merge b c) bs e joined)
  | inr f ↦
      let kept : NoFreePair (b ∷ compact_from c bs) = rw (compact_from-keep b c bs f) at h in
      rw (compact_from-keep b c bs f) (e, kept)
]

compact_from-NoFreePair : (b : Block) (bs : List Block) → NoFreePair (compact_from b bs)
unfolding compact_from
compact_from-NoFreePair b [] = tt
compact_from-NoFreePair b (c ∷ bs) = elim (Bool-cases (both_free b c)) [
  | inl f ↦ rw (compact_from-merge b c bs f) (compact_from-NoFreePair (merge b c) bs)
  | inr f ↦
      rw (compact_from-keep b c bs f) (NoFreePair-cons b c bs f (compact_from-NoFreePair c bs))
]

used-compact_from : (b : Block) (bs : List Block) → used (compact_from b bs) ≡ used (b ∷ bs)
unfolding used compact_from
used-compact_from b [] = refl
used-compact_from b (c ∷ bs) = elim (Bool-cases (both_free b c)) [
  | inl f ↦ rw (compact_from-merge b c bs f) (ground (arith, used-compact_from (merge b c) bs))
  | inr f ↦ rw (compact_from-keep b c bs f) (ground (arith, used-compact_from c bs))
]

span-compact_from :
    (b : Block) (bs : List Block) → span (compact_from b bs) % u32_mod ≡ span (b ∷ bs) % u32_mod
unfolding span compact_from
span-compact_from b [] = refl
span-compact_from b (c ∷ bs) = elim (Bool-cases (both_free b c)) [
  | inl f ↦ rw (compact_from-merge b c bs f) (omega (arith, span-compact_from (merge b c) bs))
  | inr f ↦ rw (compact_from-keep b c bs f) (omega (arith, span-compact_from c bs))
]

-- Compaction leaves no two neighbouring free blocks, keeps every allocated block with its address
-- and size, in order, and keeps the number of bytes that headers and contents take up, as a 32-bit
-- number.
compact_lem :
    (bs : List Block)
    → NoFreePair (compact bs)
      × (used (compact bs) ≡ used bs)
      × (span (compact bs) % u32_mod ≡ span bs % u32_mod)
unfolding compact
compact_lem [] = (tt, refl, refl)
compact_lem (b ∷ bs) =
    (compact_from-NoFreePair b bs, used-compact_from b bs, span-compact_from b bs)

-- compactHeap, on a heap that lists blocks and with more fuel than blocks: it ends, and the heap
-- then lists blocks of which no two neighbours are free; the allocated ones are those from before,
-- in their order, and the sum of headers and contents is the same modulo 2^32.
pub compact_heap-NoFreePair :
    (fuel : ℕ) (h : Heap) (bs : List Block)
    → Lists h bs
    → length bs < fuel
    → (after : Heap) × (bs' : List Block) × (compact_heap fuel h ≡ done tt after)
      × Lists after bs'
      × NoFreePair bs'
      × (used bs' ≡ used bs)
      × (span bs' % u32_mod ≡ span bs % u32_mod)
compact_heap-NoFreePair fuel h bs l enough =
    let (after, ends, lists, same) = compact_heap-Lists fuel h bs l enough in
    let (tidy, kept, sum) = compact_lem bs in (after, compact bs, ends, lists, tidy, kept, sum)
