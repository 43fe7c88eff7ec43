-- ===== src/Kheap/Aligned.antt =====
-- kheapAlignedAlloc of src/stdlib/kheap.c, and where the block that it returns stands.
use palley_os.Prelude.{
  ℕ, zero, suc, ◌+◌, ◌*◌, ◌%◌, ◌<◌, ◌≡◌, refl, sym, ap, ◌∙◌, ◌⊎◌, inl, inr, ◌/◌, true, not, ◌&&◌,
  arith, ◌==◌, leb, ltb, if◌then◌else◌, u32_mod,
}
use native.Mathlib.Nat.{div-add-mod, mod-lt, mul-mod_right, mod-add-mod}
use palley_os.Kstdlib.{sub32}
use palley_os.Kheap.{
  HeapNode, Heap, Run, done, halted, out_of_fuel, ◌>>=◌, write, create_node, header_size,
  kheap_magic, node_to_contents, compact_heap, consume_empty_space,
}

-- How far the new header is moved behind the contents of `iter`.
pub aligned_offset : ℕ → ℕ → ℕ
aligned_offset iter alignment =
    let offset = sub32 alignment (node_to_contents iter % alignment) in
    if offset == alignment then 0 else offset

pub data AlignedSearch : Type 0 where
  chosen : ℕ → ℕ → AlignedSearch
  stopped : AlignedSearch
  unfinished : AlignedSearch

-- The search; `stopped` is a bad magic number, the end of the list or, with an alignment of zero, a
-- division by zero.
find_aligned : ℕ → (ℕ → HeapNode) → ℕ → ℕ → ℕ → AlignedSearch
unfolding aligned_offset
find_aligned zero hs size alignment iter = unfinished
find_aligned (suc fuel) hs size alignment iter =
    let node = hs iter in
    let need = (header_size + size) % u32_mod in
    let offset = aligned_offset iter alignment in
    let rest = find_aligned fuel hs size alignment node.next_node in
    if iter == 0
    then stopped
    else if not (node.magic_number == kheap_magic)
    then stopped
    else if not node.allocated && leb need node.size
    then if alignment == 0
      then stopped
      else if ltb (sub32 node.size offset) need
      then rest
      else chosen iter ((node_to_contents iter + offset) % u32_mod)
    else rest

pub kheap_aligned_alloc : ℕ → ℕ → ℕ → Heap → Run ℕ
unfolding find_aligned
kheap_aligned_alloc fuel size alignment h =
    elim (find_aligned fuel h.headers size alignment h.root_node) [
      | chosen iter place ↦
          let h1 = create_node h place size (h.headers iter).next_node true in
          let h2 = write h1 iter (record (h1.headers iter) {
            size = sub32 (sub32 place iter) header_size;
            next_node = place;
          }) in
          compact_heap fuel (consume_empty_space h2 place) >>= λ _ h'.
          done (node_to_contents place) h'
      | stopped ↦ halted
      | unfinished ↦ out_of_fuel
    ]

-- The next multiple of the alignment.
aligned_offset-multiple :
    (iter alignment q r : ℕ)
    → 0 < alignment
    → alignment < u32_mod
    → iter + header_size < u32_mod
    → (iter + header_size) % alignment ≡ r
    → alignment * q + r ≡ iter + header_size
    → r < alignment
    → (iter + header_size + aligned_offset iter alignment ≡ alignment * q)
      ⊎ (iter + header_size + aligned_offset iter alignment ≡ alignment * (q + 1))
unfolding aligned_offset
aligned_offset-multiple iter alignment q r pos small room er split lt =
    let wrap : (iter + header_size) % u32_mod ≡ iter + header_size = omega arith in
    rw (wrap, er) (ground arith)

-- The header of a block from kheapAlignedAlloc is put at a multiple of the alignment, so the
-- contents, 11 bytes behind it, leave the remainder 11 by the alignment, and are not aligned to any
-- alignment that does not divide 11.
pub aligned_offset-remainder :
    (iter alignment : ℕ)
    → 0 < alignment
    → alignment < u32_mod
    → iter + header_size < u32_mod
    → ((iter + header_size + aligned_offset iter alignment) % alignment ≡ 0)
      × ((iter + header_size + aligned_offset iter alignment + header_size) % alignment
          ≡ header_size % alignment)
aligned_offset-remainder iter alignment pos small room =
    let place = iter + header_size + aligned_offset iter alignment in
    let q = (iter + header_size) / alignment in
    let cases =
      aligned_offset-multiple iter alignment q ((iter + header_size) % alignment) pos small room
        refl (div-add-mod (iter + header_size) alignment) (mod-lt (iter + header_size) pos) in
    let zero_rest : place % alignment ≡ 0 = elim cases [
      | inl e ↦ rw (e, mul-mod_right) refl
      | inr e ↦ rw (e, mul-mod_right) refl
    ] in
    (
      zero_rest,
      sym (mod-add-mod place alignment header_size)
          ∙ ap (λ (t : ℕ). (t + header_size) % alignment) zero_rest,
    )
