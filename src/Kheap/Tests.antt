-- ===== src/Kheap/Tests.antt =====
-- The heap's operations on a heap of three blocks.
use palley_os.Prelude.{
  ◌<◌, ◌≤◌, ◌⊎◌, ℕ, ◌%◌, ◌≡◌, refl, inl, true, false, List, [], ◌∷◌, arith, ◌==◌, if◌then◌else◌,
  u32_mod,
}
use palley_os.Kheap.{HeapNode, Heap, done, out_of_fuel, compact_heap, kheap_free, kheap_alloc}
use palley_os.Kheap.Chain.{Block, header, Lists}
use palley_os.Kheap.Compact.{compact, compact_heap-Lists}
use palley_os.Kheap.Merge.{NoFreePair, used, span, compact_heap-NoFreePair}
use palley_os.Kheap.Free.{release, kheap_free-Lists}
use palley_os.Kheap.Alloc.{taken, split_rest, Room, kheap_alloc-split}
use palley_os.Kheap.Overlap.{kheap_alloc-exact_hangs}

abbrev left_block : Block
left_block = record { addr = 1000; size = 20; allocated = true }

abbrev middle_block : Block
middle_block = record { addr = 1031; size = 100; allocated = false }

abbrev right_block : Block
right_block = record { addr = 1142; size = 10; allocated = false }

abbrev blocks : List Block
blocks = left_block ∷ middle_block ∷ right_block ∷ []

abbrev node_at : ℕ → HeapNode
node_at a =
    if a == 1000
    then header left_block 1031
    else if a == 1031
    then header middle_block 1142
    else header right_block 0

abbrev heap : Heap
heap = record { root_node = 1000; headers = node_at; bytes = λ a. 0 }

heap-Lists : Lists heap blocks
heap-Lists = record {
  root = refl;
  chain = (omega arith, refl, (omega arith, refl, (omega arith, refl, tt)));
}

compact_heap-Lists_example :
    (after : Heap) × (compact_heap 4 heap ≡ done tt after)
    × Lists after (compact blocks)
    × (after.bytes ≡ heap.bytes)
compact_heap-Lists_example = compact_heap-Lists 4 heap blocks heap-Lists (omega arith)

compact_heap-NoFreePair_example :
    (after : Heap) × (bs' : List Block) × (compact_heap 4 heap ≡ done tt after)
    × Lists after bs'
    × NoFreePair bs'
    × (used bs' ≡ used blocks)
    × (span bs' % u32_mod ≡ span blocks % u32_mod)
compact_heap-NoFreePair_example = compact_heap-NoFreePair 4 heap blocks heap-Lists (omega arith)

kheap_free-Lists_example :
    (after : Heap) × (kheap_free 4 1011 heap ≡ done tt after)
    × Lists after (compact (release 1000 blocks))
    × (after.bytes ≡ heap.bytes)
kheap_free-Lists_example =
    kheap_free-Lists 4 1000 heap blocks heap-Lists (inl refl) (omega arith) (omega arith)

room : Room 30 middle_block (right_block ∷ [])
room = record { in_memory = omega arith; before = omega arith; gap = omega arith }

kheap_alloc-split_example :
    (after : Heap) × (kheap_alloc 8 30 heap ≡ done 1042 after)
    × Lists after (
        compact (
          left_block
          ∷ taken 30 middle_block
          ∷ split_rest 30 middle_block (right_block ∷ [])
          ∷ right_block
          ∷ []))
    × ((a : ℕ) → (a < 1072) ⊎ (1083 ≤ a) → after.bytes a ≡ heap.bytes a)
kheap_alloc-split_example =
    kheap_alloc-split 8 30 heap (left_block ∷ []) middle_block (right_block ∷ []) heap-Lists
      (refl, tt) refl room (omega arith)

-- An allocation whose bytes end where the block at 1142 begins.
kheap_alloc-exact_hangs_example : kheap_alloc 100 100 heap ≡ out_of_fuel
kheap_alloc-exact_hangs_example =
    kheap_alloc-exact_hangs 100 100 heap (left_block ∷ []) middle_block right_block [] heap-Lists
      (refl, tt) refl (omega arith) refl (omega arith) (omega arith)
