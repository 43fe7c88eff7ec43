-- ===== src/Kheap/Free.antt =====
-- kheapFree on a heap that lists its blocks.
use palley_os.Prelude.{
  ℕ, ◌+◌, ◌<◌, ◌≡◌, ◌≢◌, refl, sym, ◌∙◌, ◌⊎◌, inl, inr, false, List, [], ◌∷◌, arith, ◌==◌,
  if◌then◌else◌, length, u32_mod,
}
use palley_os.Kheap.{
  HeapNode, Heap, done, halted, put, write, header_size, kheap_magic, kheap_free, contents_to_node,
}
use palley_os.Kheap.Chain.{Block, first, Chain, Chain-put, Lists}
use palley_os.Kheap.Compact.{compact, compact_heap-Lists}

-- There is a block at `a`.
abbrev pub At : ℕ → List Block → Type 0
At a [] = ⊥
At a (b ∷ bs) = (b.addr ≡ a) ⊎ At a bs

-- The block at `a` marked free.
pub release : ℕ → List Block → List Block
release a [] = []
release a (b ∷ bs) = if b.addr == a then record b { allocated = false } ∷ bs else b ∷ release a bs

first-release : (a : ℕ) (bs : List Block) → first (release a bs) ≡ first bs
unfolding release
first-release a [] = refl
first-release a (b ∷ bs) = ground arith

length-release : (a : ℕ) (bs : List Block) → length (release a bs) ≡ length bs
unfolding release
length-release a [] = refl
length-release a (b ∷ bs) = ground (arith, length-release a bs)

abbrev freed : (ℕ → HeapNode) → ℕ → ℕ → HeapNode
freed hs a = put hs a (record (hs a) { allocated = false })

At-above : (hs : ℕ → HeapNode) (lo a : ℕ) (bs : List Block) → Chain hs lo bs → At a bs → lo < a
At-above hs lo a [] c at = absurd at
At-above hs lo a (b ∷ bs) c (inl e) = omega arith
At-above hs lo a (b ∷ bs) c (inr at) = omega (arith, At-above hs b.addr a bs c.2 at)

release-here :
    (a : ℕ) (b : Block) (bs : List Block)
    → b.addr ≡ a
    → release a (b ∷ bs) ≡ record b { allocated = false } ∷ bs
unfolding release
release-here a b bs e = ground arith

release-there :
    (a : ℕ) (b : Block) (bs : List Block) → b.addr ≢ a → release a (b ∷ bs) ≡ b ∷ release a bs
unfolding release
release-there a b bs e = ground arith

Chain-release :
    (hs : ℕ → HeapNode) (lo a : ℕ) (bs : List Block)
    → Chain hs lo bs
    → At a bs
    → Chain (freed hs a) lo (release a bs)
Chain-release hs lo a [] c at = absurd at
Chain-release hs lo a (b ∷ bs) c (inl e) = rw (release-here a b bs e) (
  c.0,
  ground arith,
  Chain-put hs b.addr a (record (hs a) { allocated = false }) bs (omega arith) c.2,
)
Chain-release hs lo a (b ∷ bs) c (inr at) =
    let above : b.addr < a = At-above hs b.addr a bs c.2 at in
    rw (release-there a b bs (omega arith))
      (c.0, ground (arith, first-release a bs), Chain-release hs b.addr a bs c.2 at)

At-magic :
    (hs : ℕ → HeapNode) (lo a : ℕ) (bs : List Block)
    → Chain hs lo bs
    → At a bs
    → (hs a).magic_number ≡ kheap_magic
At-magic hs lo a [] c at = absurd at
At-magic hs lo a (b ∷ bs) c (inl e) = ground arith
At-magic hs lo a (b ∷ bs) c (inr at) = At-magic hs b.addr a bs c.2 at

contents_of : (a : ℕ) → a + header_size < u32_mod → contents_to_node (a + header_size) ≡ a
contents_of a h = omega arith

-- kheapFree: given the contents of a block of the heap's list, and more fuel than blocks, it ends,
-- and the heap then lists the blocks with that one marked free and free neighbours joined; the
-- contents are as they were.
pub kheap_free-Lists :
    (fuel a : ℕ) (h : Heap) (bs : List Block)
    → Lists h bs
    → At a bs
    → a + header_size < u32_mod
    → length bs < fuel
    → (after : Heap) × (kheap_free fuel (a + header_size) h ≡ done tt after)
      × Lists after (compact (release a bs))
      × (after.bytes ≡ h.bytes)
unfolding kheap_free
kheap_free-Lists fuel a h bs l at small enough =
    let h1 : Heap = write h a (record (h.headers a) { allocated = false }) in
    let l1 : Lists h1 (release a bs) = record {
      root = l.root ∙ sym (first-release a bs);
      chain = Chain-release h.headers 0 a bs l.chain at;
    } in
    let (after, run, rest, same) =
      compact_heap-Lists fuel h1 (release a bs) l1 (omega (arith, length-release a bs)) in
    (
      after,
      rw (contents_of a small) (ground (arith, At-magic h.headers 0 a bs l.chain at)),
      rest,
      same,
    )

-- kheapFree halts on a pointer that does not stand behind a header with the magic number.
pub kheap_free_bad :
    (fuel ptr : ℕ) (h : Heap)
    → (h.headers (contents_to_node ptr)).magic_number ≢ kheap_magic
    → kheap_free fuel ptr h ≡ halted
unfolding kheap_free
kheap_free_bad fuel ptr h bad = ground arith
