-- ===== src/Kheap/Overlap.antt =====
-- Where kheapAlloc goes wrong: consumeEmptySpace counts the header and the size twice over, so the
-- free block that it makes runs into the next block, and takes that block's place on an exact fit.
use palley_os.Prelude.{
  ℕ, zero, suc, ◌+◌, ◌-◌, ◌*◌, ◌%◌, ◌<◌, ◌≡◌, refl, sym, ap, ◌∙◌, inl, inr, Bool, true, false, List,
  [], ◌∷◌, ◌++◌, arith, length, All, Bool-cases, u32_mod,
}
use palley_os.Kheap.{
  HeapNode, Heap, out_of_fuel, put, write, header_size, unaccounted_space, consume_empty_space,
  compact_loop, compact_heap, create_node, find_fit, found, take_node, kheap_alloc,
}
use palley_os.Kheap.Chain.{Block, first, header, Chain, Lists}
use palley_os.Kheap.Compact.{merge, both_free, compact_loop-merge, compact_loop-keep}
use palley_os.Kheap.FirstFit.{fits, find_fit-found, kheap_alloc-found}
use palley_os.Kheap.Alloc.{taken, consume-node, block-Chain}

-- consumeEmptySpace on a node of `size` bytes with at least a byte between it and the next node:
-- the free node that it makes ends `2 * size + 11` bytes behind the start of the next node, which
-- it therefore overlaps.
pub consume_empty_space-overlap :
    (h : Heap) (p size next : ℕ) (used : Bool)
    → h.headers p ≡ header (record { addr = p; size = size; allocated = used }) next
    → p + header_size + size < next
    → next + size < u32_mod
    → let place = p + header_size + size in
      let n = (consume_empty_space h p).headers place in
      (n.allocated ≡ false)
      × (n.next_node ≡ next)
      × (place + header_size + n.size ≡ next + header_size + 2 * size)
consume_empty_space-overlap h p size next used e before small =
    rw
      (consume-node h p (p + header_size + size)
        (header (record { addr = p; size = size; allocated = used }) next) e (omega arith)
        (omega arith) (omega arith))
      (ground arith, ground arith, ground arith)

-- A free header that is linked to itself.
abbrev Spins : (ℕ → HeapNode) → ℕ → Type 0
Spins hs q = (hs q).allocated ≡ false × ((hs q).next_node ≡ q) × (0 < q)

compact_loop-Spins :
    (fuel q : ℕ) (h : Heap) → Spins h.headers q → compact_loop fuel q h ≡ out_of_fuel
unfolding compact_loop
compact_loop-Spins zero q h s = refl
compact_loop-Spins (suc fuel) q h s =
    let node : HeapNode = h.headers q in
    let next : HeapNode = h.headers node.next_node in
    let h1 : Heap = write h q (record node {
      size = (node.size + (header_size + next.size)) % u32_mod;
      next_node = next.next_node;
    }) in
    ground (arith, compact_loop-Spins fuel q h1 (ground arith))

-- From the first block the links lead to an allocated one, and from that to `q`.
abbrev Leads : (ℕ → HeapNode) → Block → List Block → ℕ → Type 0
Leads hs b [] q = (hs b.addr ≡ header b q) × (b.allocated ≡ true) × (b.addr < q) × (0 < b.addr)
Leads hs b (d ∷ bs) q =
    (hs b.addr ≡ header b d.addr) × (b.addr < d.addr) × (0 < b.addr) × Leads hs d bs q

Leads-put :
    (hs : ℕ → HeapNode) (a : ℕ) (n : HeapNode) (b : Block) (bs : List Block) (q : ℕ)
    → a < b.addr
    → Leads hs b bs q
    → Leads (put hs a n) b bs q
Leads-put hs a n b [] q lt l = (ground arith, l.1, l.2, l.3)
Leads-put hs a n b (d ∷ bs) q lt l =
    (ground arith, l.1, l.2, Leads-put hs a n d bs q (omega arith) l.3)

Leads-lt : (hs : ℕ → HeapNode) (b : Block) (bs : List Block) (q : ℕ) → Leads hs b bs q → b.addr < q
Leads-lt hs b [] q l = l.2
Leads-lt hs b (d ∷ bs) q l = omega (arith, Leads-lt hs d bs q l.3)

compact_loop-Leads :
    (fuel : ℕ) (h : Heap) (b : Block) (bs : List Block) (q : ℕ)
    → Leads h.headers b bs q
    → Spins h.headers q
    → compact_loop fuel b.addr h ≡ out_of_fuel
unfolding compact_loop
compact_loop-Leads zero h b bs q l s = refl
compact_loop-Leads (suc fuel) h b [] q l s = ground (arith, compact_loop-Spins fuel q h s)
compact_loop-Leads (suc fuel) h b (d ∷ []) q l s =
    ground (arith, compact_loop-Leads fuel h d [] q l.3 s)
compact_loop-Leads (suc fuel) h b (d ∷ e ∷ bs) q l s = elim (Bool-cases (both_free b d)) [
  | inl f ↦
      let joined : HeapNode = header (merge b d) e.addr in
      let past : d.addr < q = Leads-lt h.headers d (e ∷ bs) q l.3 in
      compact_loop-merge fuel h b l.2 d e.addr (omega arith) l.0 l.3.0 f
      ∙ compact_loop-Leads fuel (write h b.addr joined) (merge b d) (e ∷ bs) q
          (
            ground arith,
            omega (arith, l.1, l.3.1),
            l.2,
            Leads-put h.headers b.addr joined e bs q (omega (arith, l.1, l.3.1)) l.3.3,
          )
          (ground arith, ground arith, omega arith)
  | inr f ↦
      compact_loop-keep fuel h b l.2 d e.addr (omega arith) l.0 l.3.0 f
      ∙ compact_loop-Leads fuel h d (e ∷ bs) q l.3 s
]

-- The blocks in front of a rewritten one lead to it.
module _ (hs gs : ℕ → HeapNode) (b b' : Block) (post : List Block) (q : ℕ) (e : b'.addr ≡ b.addr)
    (same : (a : ℕ) → a < b.addr → gs a ≡ hs a) (end : Leads gs b' [] q) where
  Leads-pre :
      (a : Block) (pre : List Block)
      → 0 < a.addr
      → Chain hs a.addr (pre ++ (b ∷ post))
      → hs a.addr ≡ header a (first (pre ++ (b ∷ post)))
      → Leads gs a (pre ++ (b' ∷ [])) q
  Leads-pre a [] pos c here = (ground (arith, same a.addr), omega (arith, c.0), pos, end)
  Leads-pre a (d ∷ pre) pos c here = (
    ground (arith, same a.addr, below a.addr (d ∷ pre) c),
    c.0,
    pos,
    Leads-pre d pre (omega (arith, c.0)) c.2 c.1,
  )
    where
      below : (lo : ℕ) (pre : List Block) → Chain hs lo (pre ++ (b ∷ post)) → lo < b.addr
      below lo [] c = c.0
      below lo (a ∷ pre) c = omega (arith, c.0, below a.addr pre c.2)

  compact_heap-leads :
      (fuel : ℕ) (h : Heap) (pre : List Block)
      → h.headers ≡ gs
      → h.root_node ≡ first (pre ++ (b ∷ post))
      → Chain hs 0 (pre ++ (b ∷ post))
      → Spins gs q
      → compact_heap fuel h ≡ out_of_fuel
  unfolding compact_heap
  compact_heap-leads fuel h [] eh er c s =
      ap (λ p. compact_loop fuel p h) (er ∙ sym e)
      ∙ compact_loop-Leads fuel h b' [] q (rw eh end) (rw eh s)
  compact_heap-leads fuel h (a ∷ pre) eh er c s =
      ap (λ p. compact_loop fuel p h) er
      ∙ compact_loop-Leads fuel h a (pre ++ (b' ∷ [])) q (rw eh (Leads-pre a pre c.0 c.2 c.1))
          (rw eh s)

-- kheapAlloc never returns where the first free block that is large enough is followed, right
-- behind the `size` bytes asked for, by another header: the new free header is written over that
-- one and linked to itself, and compactHeap joins it to itself for ever, whatever the fuel.
pub kheap_alloc-exact_hangs :
    (fuel size : ℕ) (h : Heap) (pre : List Block) (b c : Block) (post : List Block)
    → Lists h (pre ++ (b ∷ c ∷ post))
    → All (λ d. fits size d ≡ false) pre
    → fits size b ≡ true
    → 0 < size
    → c.addr ≡ b.addr + header_size + size
    → c.addr + size < u32_mod
    → length pre < fuel
    → kheap_alloc fuel size h ≡ out_of_fuel
unfolding take_node
kheap_alloc-exact_hangs fuel size h pre b c post l small fit pos exact room enough =
    let (here, next) = block-Chain h.headers 0 pre b (c ∷ post) l.chain in
    let n : HeapNode = record (h.headers b.addr) { size = size; allocated = true } in
    let after : Heap =
      write
        (create_node (write h b.addr n) c.addr
          (unaccounted_space b.addr (header (taken size b) c.addr) - header_size) c.addr false)
        b.addr (header (taken size b) c.addr) in
    let consumed : consume_empty_space (write h b.addr n) b.addr ≡ after =
      consume-node (write h b.addr n) b.addr c.addr (header (taken size b) c.addr) (ground arith)
        (omega arith) (omega arith) (omega arith) in
    let hangs : compact_heap fuel after ≡ out_of_fuel =
      compact_heap-leads h.headers after.headers b (taken size b) (c ∷ post) c.addr refl
        (λ a lt. ground arith) (ground arith, refl, omega arith, positive 0 pre l.chain) fuel after
        pre refl l.root l.chain (ground arith, ground arith, omega arith) in
    let search : find_fit fuel h.headers size h.root_node ≡ found b.addr =
      rw l.root (find_fit-found fuel size 0 h.headers pre b (c ∷ post) l.chain small fit enough) in
    kheap_alloc-found fuel size b.addr h search ∙ rw (consumed, hangs)
  where
    positive : (lo : ℕ) (pre : List Block) → Chain h.headers lo (pre ++ (b ∷ c ∷ post)) → 0 < b.addr
    positive lo [] ch = omega (arith, ch.0)
    positive lo (a ∷ pre) ch = positive a.addr pre ch.2
