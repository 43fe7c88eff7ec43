-- ===== src/Kheap.antt =====
-- src/stdlib/kheap.c: the kernel heap, a singly linked list of packed 11-byte headers, each in
-- front of its contents. Headers are cells of a store indexed by their address; headers that
-- overlap without being at one address are not told apart by the byte. A loop over the list runs on
-- fuel; `halted` is the endless loop that follows a message, or a division by zero.
pub mod Chain
pub mod Compact
pub mod Merge
pub mod Free
pub mod FirstFit
pub mod Alloc
pub mod Overlap
pub mod Realloc
pub mod Aligned
mod Tests
use palley_os.Prelude.{
  ℕ, zero, suc, ◌+◌, ◌-◌, ◌%◌, Bool, true, false, not, ◌&&◌, ◌||◌, ◌==◌, ltb, leb, if◌then◌else◌,
  u32_mod,
}
use palley_os.Prelude.Memory.{Mem}
use palley_os.Kstdlib.{sub32, kmemcpy}

abbrev pub kheap_start : ℕ
kheap_start = 0xf000000

abbrev pub kheap_end : ℕ
kheap_end = 0xfffffff

abbrev pub kheap_magic : ℕ
kheap_magic = 0x7ea4

-- `sizeof(HeapNode)`: 2 + 4 + 4 + 1 packed bytes.
abbrev pub header_size : ℕ
header_size = 11

pub record HeapNode : Type 0 where
  pub magic_number : ℕ
  pub size : ℕ
  pub next_node : ℕ
  pub allocated : Bool

pub record Heap : Type 0 where
  pub root_node : ℕ
  pub headers : ℕ → HeapNode
  pub bytes : Mem

abbrev pub put : (ℕ → HeapNode) → ℕ → HeapNode → ℕ → HeapNode
put hs a n b = if b == a then n else hs b

abbrev pub write : Heap → ℕ → HeapNode → Heap
write h a n = record h { headers = put h.headers a n }

pub data Run {ℓ} (A : Type ℓ) : Type ℓ where
  done : A → Heap → Run A
  halted : Run A
  out_of_fuel : Run A

infixl 5 ◌>>=◌
abbrev pub ◌>>=◌ {ℓ κ} : {A : Type ℓ} {B : Type κ} → Run A → (A → Heap → Run B) → Run B
done a h >>= k = k a h
halted >>= k = halted
out_of_fuel >>= k = out_of_fuel

-- `NODE_TO_CONTENTS` and `CONTENTS_TO_NODE`.
abbrev pub node_to_contents : ℕ → ℕ
node_to_contents p = (p + header_size) % u32_mod

abbrev pub contents_to_node : ℕ → ℕ
contents_to_node p = sub32 p header_size

unfoldable pub kheap_init : Heap → Heap
kheap_init h =
    write (record h { root_node = kheap_start }) kheap_start
      (record {
        magic_number = kheap_magic;
        size = kheap_end - kheap_start - header_size;
        next_node = 0;
        allocated = false;
      })

abbrev pub create_node : Heap → ℕ → ℕ → ℕ → Bool → Heap
create_node h place size next allocated =
    write h place
      (record { magic_number = kheap_magic; size = size; next_node = next; allocated = allocated })

unfoldable pub compact_loop : ℕ → ℕ → Heap → Run (Unit {0})
compact_loop zero iter h = out_of_fuel
compact_loop (suc fuel) iter h =
    let node = h.headers iter in
    let next = h.headers node.next_node in
    let merged = compact_loop fuel iter (
      write h iter (record node {
        size = (node.size + (header_size + next.size)) % u32_mod;
        next_node = next.next_node;
      })) in
    let onward = compact_loop fuel node.next_node h in
    if iter == 0
    then done tt h
    else if node.next_node == 0
    then done tt h
    else if not node.allocated && not next.allocated
    then merged
    else onward

unfoldable pub compact_heap : ℕ → Heap → Run (Unit {0})
unfolding compact_loop
compact_heap fuel h = compact_loop fuel h.root_node h

-- The pointer difference is taken before `size` is added, and wraps at 2 ^ 32.
abbrev pub unaccounted_space : ℕ → HeapNode → ℕ
unaccounted_space p node = (node.next_node + u32_mod - p + node.size) % u32_mod

unfoldable pub consume_empty_space : Heap → ℕ → Heap
consume_empty_space h p =
    let node = h.headers p in
    let space = unaccounted_space p node in
    let place = (p + header_size + node.size) % u32_mod in
    let h' = create_node h place (space - header_size) node.next_node false in
    if ltb header_size space
    then write h' p (record (h'.headers p) { next_node = place })
    else write h p (record node { size = (node.size + space) % u32_mod })

-- What a walk over the list comes to.
pub data Search : Type 0 where
  found : ℕ → Search
  corrupted : Search
  exhausted : Search
  unfinished : Search

unfoldable pub find_fit : ℕ → (ℕ → HeapNode) → ℕ → ℕ → Search
find_fit zero hs size iter = unfinished
find_fit (suc fuel) hs size iter =
    let node = hs iter in
    let rest = find_fit fuel hs size node.next_node in
    if iter == 0
    then exhausted
    else if not (node.magic_number == kheap_magic)
    then corrupted
    else if not node.allocated && leb size node.size
    then found iter
    else rest

-- The end of `__kheapAlloc`, behind its search.
unfoldable pub take_node : ℕ → ℕ → Heap → ℕ → Run ℕ
unfolding consume_empty_space compact_heap
take_node fuel size h p =
    let h1 = write h p (record (h.headers p) { size = size; allocated = true }) in
    compact_heap fuel (consume_empty_space h1 p) >>= λ _ h2. done (node_to_contents p) h2

-- `__kheapAlloc(size, false)`.
unfoldable pub alloc_again : ℕ → ℕ → Heap → Run ℕ
unfolding take_node find_fit
alloc_again fuel size h = elim (find_fit fuel h.headers size h.root_node) [
  | found p ↦ take_node fuel size h p
  | corrupted ↦ halted
  | exhausted ↦ halted
  | unfinished ↦ out_of_fuel
]

-- `__kheapAlloc(size, true)`: a bad magic number sets the heap up, if the root has one, and the
-- search starts again.
unfoldable pub kheap_alloc : ℕ → ℕ → Heap → Run ℕ
unfolding alloc_again kheap_init
kheap_alloc fuel size h = elim (find_fit fuel h.headers size h.root_node) [
  | found p ↦ take_node fuel size h p
  | corrupted ↦
      alloc_again fuel size
        (if not ((h.headers h.root_node).magic_number == kheap_magic) then kheap_init h else h)
  | exhausted ↦ halted
  | unfinished ↦ out_of_fuel
]

unfoldable pub kheap_free : ℕ → ℕ → Heap → Run (Unit {0})
unfolding compact_heap
kheap_free fuel ptr h =
    let p = contents_to_node ptr in
    let node = h.headers p in
    let freed = compact_heap fuel (write h p (record node { allocated = false })) in
    if not (node.magic_number == kheap_magic) then halted else freed
