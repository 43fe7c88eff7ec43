-- ===== src/Kheap/Realloc.antt =====
-- kheapRealloc of src/stdlib/kheap.c, and its in-place cases.
use palley_os.Prelude.{
  ℕ, zero, suc, ◌+◌, ◌-◌, ◌*◌, ◌%◌, ◌≤◌, ◌<◌, ◌≡◌, false, not, ◌||◌, Option, none, some, arith,
  ◌==◌, leb, ltb, if◌then◌else◌, u32_mod,
}
use palley_os.Kstdlib.{kmemcpy}
use palley_os.Kheap.{
  HeapNode, Heap, Run, done, halted, out_of_fuel, ◌>>=◌, write, create_node, header_size,
  kheap_magic, node_to_contents, contents_to_node, compact_heap, kheap_alloc, kheap_free,
}

-- The walk over the free nodes from `iter` on: the space that they hold with their headers, and the
-- node behind them.
free_run : ℕ → (ℕ → HeapNode) → ℕ → ℕ → Option (ℕ × ℕ)
free_run zero hs iter possible_size = none
free_run (suc fuel) hs iter possible_size =
    let node = hs iter in
    let rest =
      free_run fuel hs node.next_node ((possible_size + (header_size + node.size)) % u32_mod) in
    if (iter == 0) || node.allocated then some (possible_size, iter) else rest

-- `NODE_TO_CONTENTS(node) + size` on a `HeapNode*` steps by whole headers.
pub shrunk_place : ℕ → ℕ → ℕ
shrunk_place p size = (node_to_contents p + header_size * size) % u32_mod

-- The node cut to `size`, with a free node for what is left, linked to `next`.
pub cut_node : Heap → ℕ → ℕ → ℕ → ℕ → Heap
unfolding shrunk_place
cut_node h p size size_delta next =
    let place = shrunk_place p size in
    let h1 = create_node h place (size_delta - header_size) next false in
    write h1 p (record (h1.headers p) { next_node = place; size = size })

-- The last case: a new block, a copy of the contents, and the old block freed.
move_block : ℕ → ℕ → ℕ → Heap → Run ℕ
move_block fuel ptr size h = kheap_alloc fuel size h >>= λ new_ptr h1.
    let num = (h1.headers (contents_to_node ptr)).size in
    kheap_free fuel ptr (record h1 { bytes = (kmemcpy h1.bytes new_ptr ptr num).0 }) >>= λ _ h2.
    done new_ptr h2

-- The case of a larger size.
grow : ℕ → ℕ → ℕ → Heap → Run ℕ
unfolding free_run move_block cut_node
grow fuel ptr size h =
    let p = contents_to_node ptr in
    let node = h.headers p in
    elim (free_run fuel h.headers node.next_node 0) [
      | none ↦ out_of_fuel
      | some (possible_size, iter) ↦
          let size_delta = possible_size - size in
          let moved = move_block fuel ptr size h in
          let cut = compact_heap fuel (cut_node h p size size_delta iter) >>= λ _ h'.
          done (node_to_contents p) h' in
          let whole =
            done (node_to_contents p)
              (write h p (record node { next_node = iter; size = possible_size })) in
          if leb size possible_size
          then if leb (header_size + 1) size_delta then cut else whole
          else moved
    ]

pub kheap_realloc : ℕ → ℕ → ℕ → Heap → Run ℕ
unfolding grow cut_node
kheap_realloc fuel ptr size h =
    let p = contents_to_node ptr in
    let node = h.headers p in
    let size_delta = node.size - size in
    let freed = kheap_free fuel ptr h >>= λ _ h'. done 0 h' in
    let cut = compact_heap fuel (cut_node h p size size_delta node.next_node) >>= λ _ h'.
    done (node_to_contents p) h' in
    let grown = grow fuel ptr size h in
    if size == 0
    then freed
    else if not (node.magic_number == kheap_magic)
    then halted
    else if size == node.size
    then done ptr h
    else if ltb size node.size
    then if leb (header_size + 1) size_delta then cut else done (node_to_contents p) h
    else grown

-- kheapRealloc of a block to its own size, or to a smaller one other than zero that frees at most
-- the 11 bytes of a header, returns the pointer that it was given and changes nothing.
pub kheap_realloc-same :
    (fuel p size : ℕ) (h : Heap)
    → p + header_size < u32_mod
    → (h.headers p).magic_number ≡ kheap_magic
    → 0 < size
    → size ≤ (h.headers p).size
    → (h.headers p).size ≤ size + header_size
    → kheap_realloc fuel (p + header_size) size h ≡ done (p + header_size) h
unfolding kheap_realloc
kheap_realloc-same fuel p size h small magic pos le near =
    let back : contents_to_node (p + header_size) ≡ p = omega arith in
    let forth : node_to_contents p ≡ p + header_size = omega arith in
    rw (back, forth) (ground arith)

-- kheapRealloc to a smaller size, where it makes room for a free node: the header of that node is
-- put 11 bytes further for each byte kept, and outside the block that is made smaller unless the
-- block has at least eleven times the new size.
pub cut_node-outside :
    (h : Heap) (p size size_delta next : ℕ)
    → 0 < size
    → p + header_size + header_size * size < u32_mod
    → let h' = cut_node h p size size_delta next in
      ((h'.headers p).next_node ≡ p + header_size + header_size * size)
      × ((h.headers p).size < header_size * size
          → p + header_size + (h.headers p).size < (h'.headers p).next_node)
unfolding cut_node
cut_node-outside h p size size_delta next pos small =
    let place : shrunk_place p size ≡ p + header_size + header_size * size =
      unfold shrunk_place in omega arith in
    ground (arith, place)
