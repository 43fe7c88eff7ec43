-- ===== src/Paging/Frames.antt =====
-- handle_page_fault: the whole frames of the memory's regions, from which it takes the first unused.
use palley_os.Prelude.{ℕ, zero, suc, ◌+◌, ◌-◌, ◌/◌, ◌%◌, ◌^◌, ◌<◌, List, [], ◌∷◌, ◌++◌}
use palley_os.Paging.{Paging, Region}

-- `n` frames from number `f` on.
abbrev pub numbers : ℕ → ℕ → List ℕ
numbers f zero = []
numbers f (suc n) = f ∷ numbers (f + 1) n

-- The numbers of the frames of 4 MiB that begin behind the first byte of a region and end in it; of
-- more than 255 of them, as many as the number's low byte tells.
abbrev pub whole_frames : Region → List ℕ
whole_frames region =
    let first = region.address / 0x400000 + 1 in
    let behind = (region.address + region.size) / 0x400000 in numbers first ((behind - first) % 256)

abbrev pub offered : List Region → List ℕ
offered [] = []
offered (region ∷ regions) = whole_frames region ++ offered regions

-- A region of the 32-bit address space that does not begin in its last frame.
abbrev pub InMemory : Region → Type 0
InMemory region = (region.address + region.size < 2 ^ 32) × (region.address + 0x400000 < 2 ^ 32)
