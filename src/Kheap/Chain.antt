-- ===== src/Kheap/Chain.antt =====
-- The list of blocks that the headers of a heap spell out, and what a header write does to it.
use palley_os.Prelude.{ℕ, ◌≤◌, ◌<◌, ◌≡◌, Bool, List, [], ◌∷◌, arith}
use palley_os.Kheap.{HeapNode, Heap, put, kheap_magic}

-- A header with its address.
pub record Block : Type 0 where
  pub addr : ℕ
  pub size : ℕ
  pub allocated : Bool

-- The address that leads to a list: that of its first block, or NULL.
abbrev pub first : List Block → ℕ
first [] = 0
first (b ∷ bs) = b.addr

abbrev pub header : Block → ℕ → HeapNode
header b next = record {
  magic_number = kheap_magic;
  size = b.size;
  next_node = next;
  allocated = b.allocated;
}

-- The headers hold the blocks, at rising addresses above `lo`, each linked to the next.
abbrev pub Chain : (ℕ → HeapNode) → ℕ → List Block → Type 0
Chain hs lo [] = Unit {0}
Chain hs lo (b ∷ bs) = (lo < b.addr) × (hs b.addr ≡ header b (first bs)) × Chain hs b.addr bs

-- The heap's list is `bs`.
pub record Lists (h : Heap) (bs : List Block) : Type 0 where
  pub root : h.root_node ≡ first bs
  pub chain : Chain h.headers 0 bs

-- Headers that agree above `lo` hold the same blocks there.
pub Chain-same :
    (hs gs : ℕ → HeapNode) (lo : ℕ) (bs : List Block)
    → ((a : ℕ) → lo < a → gs a ≡ hs a)
    → Chain hs lo bs
    → Chain gs lo bs
Chain-same hs gs lo [] same c = tt
Chain-same hs gs lo (b ∷ bs) same c = (
  c.0,
  ground (arith, same b.addr),
  Chain-same hs gs b.addr bs (λ a above. same a (omega arith)) c.2,
)

pub Chain-put :
    (hs : ℕ → HeapNode) (lo a : ℕ) (n : HeapNode) (bs : List Block)
    → a ≤ lo
    → Chain hs lo bs
    → Chain (put hs a n) lo bs
Chain-put hs lo a n bs le c = Chain-same hs (put hs a n) lo bs (λ b above. ground arith) c

pub Chain-lower :
    (hs : ℕ → HeapNode) (lo lo' : ℕ) (bs : List Block) → lo' ≤ lo → Chain hs lo bs → Chain hs lo' bs
Chain-lower hs lo lo' [] le c = tt
Chain-lower hs lo lo' (b ∷ bs) le c = (omega arith, c.1, c.2)
