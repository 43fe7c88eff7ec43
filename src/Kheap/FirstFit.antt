-- ===== src/Kheap/FirstFit.antt =====
-- The search of kheapAlloc on a heap that lists its blocks: first fit.
use palley_os.Prelude.{
  ℕ, zero, suc, ◌<◌, ◌≡◌, Bool, true, false, not, ◌&&◌, List, [], ◌∷◌, ◌++◌, arith, leb, length,
  All,
}
use palley_os.Kheap.{HeapNode, Heap, halted, find_fit, found, exhausted, take_node, kheap_alloc}
use palley_os.Kheap.Chain.{Block, first, Chain, Lists}

-- The test of the search.
abbrev pub fits : ℕ → Block → Bool
fits size b = not b.allocated && leb size b.size

-- The search of kheapAlloc, on headers that hold a chain of blocks, and with more fuel than blocks in
-- front: it finds the first free block that is large enough.
pub find_fit-found :
    (fuel size lo : ℕ) (hs : ℕ → HeapNode) (pre : List Block) (b : Block) (post : List Block)
    → Chain hs lo (pre ++ (b ∷ post))
    → All (λ c. fits size c ≡ false) pre
    → fits size b ≡ true
    → length pre < fuel
    → find_fit fuel hs size (first (pre ++ (b ∷ post))) ≡ found b.addr
unfolding find_fit
find_fit-found zero size lo hs pre b post c small fit enough = absurd (omega arith)
find_fit-found (suc fuel) size lo hs [] b post c small fit enough = ground arith
find_fit-found (suc fuel) size lo hs (a ∷ pre) b post c small fit enough =
    ground (arith, find_fit-found fuel size a.addr hs pre b post c.2 small.1 fit (omega arith))

find_fit-exhausted :
    (fuel size lo : ℕ) (hs : ℕ → HeapNode) (bs : List Block)
    → Chain hs lo bs
    → All (λ c. fits size c ≡ false) bs
    → length bs < fuel
    → find_fit fuel hs size (first bs) ≡ exhausted
unfolding find_fit
find_fit-exhausted zero size lo hs bs c small enough = absurd (omega arith)
find_fit-exhausted (suc fuel) size lo hs [] c small enough = ground arith
find_fit-exhausted (suc fuel) size lo hs (a ∷ bs) c small enough =
    ground (arith, find_fit-exhausted fuel size a.addr hs bs c.2 small.1 (omega arith))

-- kheapAlloc halts where no free block is large enough.
pub kheap_alloc-full :
    (fuel size : ℕ) (h : Heap) (bs : List Block)
    → Lists h bs
    → All (λ c. fits size c ≡ false) bs
    → length bs < fuel
    → kheap_alloc fuel size h ≡ halted
unfolding kheap_alloc
kheap_alloc-full fuel size h bs l small enough =
    ground (arith, l.root, find_fit-exhausted fuel size 0 h.headers bs l.chain small enough)

pub kheap_alloc-found :
    (fuel size p : ℕ) (h : Heap)
    → find_fit fuel h.headers size h.root_node ≡ found p
    → kheap_alloc fuel size h ≡ take_node fuel size h p
unfolding kheap_alloc
kheap_alloc-found fuel size p h e = rw (e, kheap_alloc)
