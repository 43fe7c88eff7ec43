-- ===== src/Kheap/Alloc.antt =====
-- kheapAlloc on a heap that lists its blocks: where the block after the chosen one leaves room for
-- a header, the chosen block is split.
use palley_os.Prelude.{
  ℕ, ◌+◌, ◌-◌, ◌%◌, ◌≤◌, ◌<◌, ◌≡◌, ◌≢◌, refl, ap, ◌⊎◌, ◌∙◌, true, false, List, [], ◌∷◌, ◌++◌, arith,
  length, All, length-append, u32_mod,
}
use palley_os.Kheap.{
  HeapNode, Heap, done, put, write, header_size, unaccounted_space, consume_empty_space,
  create_node, find_fit, found, take_node, kheap_alloc,
}
use palley_os.Kheap.Chain.{Block, first, header, Chain, Chain-same, Lists}
use palley_os.Kheap.FirstFit.{fits, find_fit-found, kheap_alloc-found}
use palley_os.Kheap.Compact.{compact, compact_heap-Lists}

-- A block of a chain replaced, with all that follows it.
pub Chain-replace :
    (hs gs : ℕ → HeapNode) (lo : ℕ) (pre : List Block) (b b' : Block) (post post' : List Block)
    → Chain hs lo (pre ++ (b ∷ post))
    → b'.addr ≡ b.addr
    → ((a : ℕ) → a < b.addr → gs a ≡ hs a)
    → gs b.addr ≡ header b' (first post')
    → Chain gs b.addr post'
    → Chain gs lo (pre ++ (b' ∷ post'))
Chain-replace hs gs lo [] b b' post post' c e same here next = (omega arith, rw e here, rw e next)
Chain-replace hs gs lo (a ∷ pre) b b' post post' c e same here next =
    let above : a.addr < b.addr = below a.addr pre c.2 in
    (
      c.0,
      ground (arith, same a.addr, first-append pre),
      Chain-replace hs gs a.addr pre b b' post post' c.2 e same here next,
    )
  where
    below : (lo : ℕ) (pre : List Block) → Chain hs lo (pre ++ (b ∷ post)) → lo < b.addr
    below lo [] c = c.0
    below lo (a ∷ pre) c = omega (arith, c.0, below a.addr pre c.2)

    first-append : (pre : List Block) → first (pre ++ (b' ∷ post')) ≡ first (pre ++ (b ∷ post))
    first-append [] = e
    first-append (a ∷ pre) = refl

-- The two blocks that a split makes.
abbrev pub taken : ℕ → Block → Block
taken size b = record b { size = size; allocated = true }

abbrev pub space : ℕ → Block → List Block → ℕ
space size b post = (first post + u32_mod - b.addr + size) % u32_mod

abbrev pub split_rest : ℕ → Block → List Block → Block
split_rest size b post = record {
  addr = b.addr + header_size + size;
  size = space size b post - header_size;
  allocated = false;
}

-- A header at an address ends in front of a list of blocks.
abbrev pub Before : ℕ → List Block → Type 0
Before a [] = Unit {0}
Before a (c ∷ bs) = a + header_size ≤ c.addr

-- There is room for a header between the allocated bytes and the next block.
pub record Room (size : ℕ) (b : Block) (post : List Block) : Type 0 where
  pub in_memory : b.addr + header_size + size < u32_mod
  pub before : Before (b.addr + header_size + size) post
  pub gap : header_size < space size b post

-- The headers as the split leaves them.
abbrev split_headers : (ℕ → HeapNode) → HeapNode → ℕ → Block → List Block → ℕ → HeapNode
split_headers hs n1 size b post =
    let place = b.addr + header_size + size in
    put (put (put hs b.addr n1) place (header (split_rest size b post) (first post))) b.addr
      (header (taken size b) place)

split-Chain :
    (hs : ℕ → HeapNode) (n1 : HeapNode) (size : ℕ) (b : Block) (post : List Block)
    → Chain hs b.addr post
    → Room size b post
    → Chain (split_headers hs n1 size b post) b.addr (split_rest size b post ∷ post)
split-Chain hs n1 size b [] c r = (omega arith, ground arith, tt)
split-Chain hs n1 size b (d ∷ post) c r = (
  omega arith,
  ground arith,
  Chain-same hs (split_headers hs n1 size b (d ∷ post)) (b.addr + header_size + size) (d ∷ post)
      (λ a above. ground arith) (omega (arith, r.before), c.1, c.2),
)

pub block-Chain :
    (hs : ℕ → HeapNode) (lo : ℕ) (pre : List Block) (b : Block) (post : List Block)
    → Chain hs lo (pre ++ (b ∷ post))
    → (hs b.addr ≡ header b (first post)) × Chain hs b.addr post
block-Chain hs lo [] b post c = (c.1, c.2)
block-Chain hs lo (a ∷ pre) b post c = block-Chain hs a.addr pre b post c.2

-- consumeEmptySpace where a header fits: a free block is put behind the node.
pub consume-node :
    (h : Heap) (p place : ℕ) (node : HeapNode)
    → h.headers p ≡ node
    → (p + header_size + node.size) % u32_mod ≡ place
    → p ≢ place
    → header_size < unaccounted_space p node
    → consume_empty_space h p
      ≡ write
          (create_node h place (unaccounted_space p node - header_size) node.next_node false)
          p
          (record node { next_node = place })
unfolding consume_empty_space
consume-node h p place node e f ne gap = rw e (rw f (ground arith))

consume-split :
    (h : Heap) (n : HeapNode) (size : ℕ) (b : Block) (post : List Block)
    → n ≡ header (taken size b) (first post)
    → Room size b post
    → consume_empty_space (write h b.addr n) b.addr
      ≡ record h { headers = split_headers h.headers n size b post }
consume-split h n size b post e r =
    consume-node (write h b.addr n) b.addr (b.addr + header_size + size)
      (header (taken size b) (first post)) (ground arith) (omega (arith, r.in_memory)) (omega arith)
      r.gap

take_node-split :
    (fuel size : ℕ) (h : Heap) (pre : List Block) (b : Block) (post : List Block)
    → Lists h (pre ++ (b ∷ post))
    → Room size b post
    → length pre + length post + 2 < fuel
    → (after : Heap) × (take_node fuel size h b.addr ≡ done (b.addr + header_size) after)
      × Lists after (compact (pre ++ (taken size b ∷ split_rest size b post ∷ post)))
      × (after.bytes ≡ h.bytes)
unfolding take_node
take_node-split fuel size h pre b post l r enough =
    let n : HeapNode = record (h.headers b.addr) { size = size; allocated = true } in
    let (here, next) = block-Chain h.headers 0 pre b post l.chain in
    let hs : ℕ → HeapNode = split_headers h.headers n size b post in
    let blocks : List Block = pre ++ (taken size b ∷ split_rest size b post ∷ post) in
    let l1 : Lists (record h { headers = hs }) blocks = record {
      root = l.root ∙ first-pre pre;
      chain =
          Chain-replace h.headers hs 0 pre b (taken size b) post (split_rest size b post ∷ post)
            l.chain refl (λ a lt. ground arith) (ground arith)
            (split-Chain h.headers n size b post next r);
    } in
    let (after, run, rest, same) =
      compact_heap-Lists fuel (record h { headers = hs }) blocks l1
        (omega (arith, length-append pre (taken size b ∷ split_rest size b post ∷ post))) in
    (
      after,
      rw (consume-split h n size b post (rw here refl) r) (rw run (ground (arith, r.in_memory))),
      rest,
      same,
    )
  where
    first-pre :
        (pre : List Block)
        → first (pre ++ (b ∷ post)) ≡ first (pre ++ (taken size b ∷ split_rest size b post ∷ post))
    first-pre [] = refl
    first-pre (a ∷ pre) = refl

-- kheapAlloc: it takes the first free block that is large enough. Where the bytes of a header fit
-- between the allocated bytes and the next block, below 2 ^ 32, and the code finds more space than a
-- header, the call ends with more fuel than there are blocks and one, returns the address behind that block's header, and the heap lists the blocks with this
-- one replaced by an allocated block of the size asked for and a free one behind it, free neighbours
-- joined; the contents outside of the new header are as they were.
pub kheap_alloc-split :
    (fuel size : ℕ) (h : Heap) (pre : List Block) (b : Block) (post : List Block)
    → Lists h (pre ++ (b ∷ post))
    → All (λ c. fits size c ≡ false) pre
    → fits size b ≡ true
    → Room size b post
    → length pre + length post + 2 < fuel
    → (after : Heap) × (kheap_alloc fuel size h ≡ done (b.addr + header_size) after)
      × Lists after (compact (pre ++ (taken size b ∷ split_rest size b post ∷ post)))
      × ((a : ℕ)
          → (a < b.addr + header_size + size) ⊎ (b.addr + header_size + size + header_size ≤ a)
          → after.bytes a ≡ h.bytes a)
kheap_alloc-split fuel size h pre b post l small fit r enough =
    let (after, run, rest, same) = take_node-split fuel size h pre b post l r enough in
    let search : find_fit fuel h.headers size h.root_node ≡ found b.addr =
      rw l.root (find_fit-found fuel size 0 h.headers pre b post l.chain small fit (omega arith)) in
    (after, kheap_alloc-found fuel size b.addr h search ∙ run, rest, λ a out. ap (λ f. f a) same)
