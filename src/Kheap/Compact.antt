-- ===== src/Kheap/Compact.antt =====
-- compactHeap against a function on the list of blocks, and what that function does.
use palley_os.Prelude.{
  ℕ, zero, suc, ◌+◌, ◌%◌, ◌<◌, ◌≡◌, refl, ap, ◌∙◌, inl, inr, Bool, true, false, not, ◌&&◌, List, [],
  ◌∷◌, arith, length, u32_mod, Bool-cases,
}
use palley_os.Kheap.{HeapNode, Heap, done, write, header_size, compact_loop, compact_heap}
use palley_os.Kheap.Chain.{Block, first, header, Chain, Chain-put, Chain-lower, Lists}

-- Two blocks as one: the second one's header and contents become contents of the first.
abbrev pub merge : Block → Block → Block
merge b c = record b { size = (b.size + (header_size + c.size)) % u32_mod }

abbrev pub both_free : Block → Block → Bool
both_free b c = not b.allocated && not c.allocated

-- The list behind a current block, with runs of free blocks joined.
unfoldable pub compact_from : Block → List Block → List Block
compact_from b [] = b ∷ []
compact_from b (c ∷ bs) = elim (both_free b c) [
  | true ↦ compact_from (merge b c) bs
  | false ↦ b ∷ compact_from c bs
]

unfoldable pub compact : List Block → List Block
compact [] = []
compact (b ∷ bs) = compact_from b bs

pub compact_from-merge :
    (b c : Block) (bs : List Block)
    → both_free b c ≡ true
    → compact_from b (c ∷ bs) ≡ compact_from (merge b c) bs
unfolding compact_from
compact_from-merge b c bs e = ground arith

pub compact_from-keep :
    (b c : Block) (bs : List Block)
    → both_free b c ≡ false
    → compact_from b (c ∷ bs) ≡ b ∷ compact_from c bs
unfolding compact_from
compact_from-keep b c bs e = ground arith

first-compact_from : (b : Block) (bs : List Block) → first (compact_from b bs) ≡ b.addr
unfolding compact_from
first-compact_from b [] = refl
first-compact_from b (c ∷ bs) = elim (Bool-cases (both_free b c)) [
  | inl e ↦ ap first (compact_from-merge b c bs e) ∙ first-compact_from (merge b c) bs
  | inr e ↦ ap first (compact_from-keep b c bs e)
]

module _ (fuel : ℕ) (h : Heap) (b : Block) (pos : 0 < b.addr) where
  compact_loop-last : h.headers b.addr ≡ header b 0 → compact_loop (suc fuel) b.addr h ≡ done tt h
  unfolding compact_loop
  compact_loop-last e = ground arith

  module _ (d : Block) (next : ℕ) (pos' : 0 < d.addr) (eb : h.headers b.addr ≡ header b d.addr)
      (ed : h.headers d.addr ≡ header d next) where
    pub compact_loop-merge :
        both_free b d ≡ true
        → compact_loop (suc fuel) b.addr h
          ≡ compact_loop fuel b.addr (write h b.addr (header (merge b d) next))
    unfolding compact_loop
    compact_loop-merge e = ground arith

    pub compact_loop-keep :
        both_free b d ≡ false → compact_loop (suc fuel) b.addr h ≡ compact_loop fuel d.addr h
    unfolding compact_loop
    compact_loop-keep e = ground arith

-- What the loop leaves behind, started at a block above `lo`.
record Compacted (lo : ℕ) (h : Heap) (b : Block) (out : List Block) (after : Heap) : Type 0 where
  chain : Chain after.headers lo out
  root : after.root_node ≡ h.root_node
  bytes : after.bytes ≡ h.bytes
  below : (a : ℕ) → a < b.addr → after.headers a ≡ h.headers a

compact_loop-Chain :
    (fuel lo : ℕ) (h : Heap) (b : Block) (bs : List Block)
    → Chain h.headers lo (b ∷ bs)
    → length bs < fuel
    → (after : Heap) × (compact_loop fuel b.addr h ≡ done tt after)
      × Compacted lo h b (compact_from b bs) after
compact_loop-Chain zero lo h b bs c enough = absurd (omega arith)
compact_loop-Chain (suc fuel) lo h b [] c enough = (
  h,
  compact_loop-last fuel h b (omega arith) c.1,
  unfold compact_from in record { chain = c; root = refl; bytes = refl; below = λ a lt. refl },
)
compact_loop-Chain (suc fuel) lo h b (d ∷ bs) c enough = elim (Bool-cases (both_free b d)) [
  | inl e ↦
      let merged : HeapNode = header (merge b d) (first bs) in
      let h1 : Heap = write h b.addr merged in
      let low : Chain h1.headers b.addr bs =
        Chain-put h.headers b.addr b.addr merged bs (omega arith)
          (Chain-lower h.headers d.addr b.addr bs (omega arith) c.2.2) in
      let (after, run, rest) =
        compact_loop-Chain fuel lo h1 (merge b d) bs (c.0, ground arith, low) (omega arith) in
      (
        after,
        compact_loop-merge fuel h b (omega arith) d (first bs) (omega arith) c.1 c.2.1 e ∙ run,
        rw (compact_from-merge b d bs e) (record {
          chain = rest.chain;
          root = rest.root;
          bytes = rest.bytes;
          below = λ a lt. ground (arith, rest.below a);
        }),
      )
  | inr e ↦
      let (after, run, rest) = compact_loop-Chain fuel b.addr h d bs c.2 (omega arith) in
      (
        after,
        compact_loop-keep fuel h b (omega arith) d (first bs) (omega arith) c.1 c.2.1 e ∙ run,
        rw (compact_from-keep b d bs e) (record {
          chain = (c.0, ground (arith, rest.below b.addr, first-compact_from d bs), rest.chain);
          root = rest.root;
          bytes = rest.bytes;
          below = λ a lt. ground (arith, rest.below a);
        }),
      )
]

-- compactHeap: on a heap that lists `bs`, with more fuel than blocks, the loop ends, and the heap
-- then lists `compact bs`, with the root and the contents as they were.
pub compact_heap-Lists :
    (fuel : ℕ) (h : Heap) (bs : List Block)
    → Lists h bs
    → length bs < fuel
    → (after : Heap) × (compact_heap fuel h ≡ done tt after)
      × Lists after (compact bs)
      × (after.bytes ≡ h.bytes)
unfolding compact_heap compact
compact_heap-Lists zero h [] l enough = absurd (omega arith)
compact_heap-Lists (suc fuel) h [] l enough = (h, unfold compact_loop in ground arith, l, refl)
compact_heap-Lists fuel h (b ∷ bs) l enough =
    let (after, run, rest) = compact_loop-Chain fuel 0 h b bs l.chain (omega arith) in
    (
      after,
      ap (λ p. compact_loop fuel p h) l.root ∙ run,
      record { root = ground (arith, rest.root, first-compact_from b bs); chain = rest.chain },
      rest.bytes,
    )
