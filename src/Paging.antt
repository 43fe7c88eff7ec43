-- ===== src/Paging.antt =====
-- src/memory.c: the page directory, the bitmap of used frames and the page fault handler, with
-- frames of 4 MiB. The regions are those that the boot loader reports, at most sixteen. The
-- translation buffer and the register that enables paging are the processor's, and not modelled.
pub mod Faults
pub mod Frames
pub mod Start
pub mod Exclusive
mod Tests
use Prim.Native.Nat.{bit_and, bit_or}
use palley_os.Prelude.{
  ℕ, zero, suc, ◌+◌, ◌-◌, ◌*◌, ◌/◌, ◌%◌, ◌^◌, Bool, true, false, not, Option, none, some, List, [],
  ◌∷◌, ◌++◌, ◌==◌, ltb, leb, if◌then◌else◌, length, get_or, set, replicate, u32_mod,
}
use palley_os.Prelude.Bits.{is_clear}
use palley_os.Kstdlib.{sub32}

abbrev pub frame_size : ℕ
frame_size = 4 * 1024 * 1024

pub data PageSize : Type 0 where
  page_size_4_kib page_size_4_mib : PageSize

pub data PageRw : Type 0 where
  page_read_only page_read_write : PageRw

pub data PagePermission : Type 0 where
  page_supervisor_only page_user_and_supervisor : PagePermission

abbrev size_bit : PageSize → ℕ
size_bit page_size_4_kib = 0
size_bit page_size_4_mib = 2 ^ 7

abbrev rw_bit : PageRw → ℕ
rw_bit page_read_only = 0
rw_bit page_read_write = 2 ^ 1

abbrev permission_bit : PagePermission → ℕ
permission_bit page_supervisor_only = 0
permission_bit page_user_and_supervisor = 2 ^ 2

-- `none` is the endless loop that follows the message.
unfoldable pub construct_page_dir_entry : ℕ → PageSize → PageRw → PagePermission → Option ℕ
construct_page_dir_entry pfn page_size rw permission =
    if leb 0x40000 pfn
    then none
    else some (
        bit_or
          (bit_or (bit_or (bit_or (pfn * 2 ^ 22 % u32_mod) (size_bit page_size)) (rw_bit rw))
            (permission_bit permission))
          1)

abbrev pub get_virtual_frame_number : ℕ → ℕ
get_virtual_frame_number virtual_address = virtual_address / 2 ^ 22

abbrev pub get_physical_frame_number : ℕ → ℕ
get_physical_frame_number physical_address = physical_address / 2 ^ 22

pub record Region : Type 0 where
  pub address : ℕ
  pub size : ℕ

pub record Paging : Type 0 where
  pub page_directory : List ℕ
  pub words : List ℕ
  pub regions : List Region

abbrev pub is_frame_used : List ℕ → ℕ → Bool
is_frame_used words pfn = not (is_clear (get_or words (pfn / 32) 0) (pfn % 32))

abbrev pub set_frame_used : List ℕ → ℕ → List ℕ
set_frame_used words pfn =
    set words (pfn / 32) (bit_or (get_or words (pfn / 32) 0) (2 ^ (pfn % 32)))

-- The loop over the frames of a region from `frame` on, with `left` of them to come.
unfoldable pub find_frame : List ℕ → ℕ → ℕ → ℕ → Option ℕ
find_frame words frame_start zero frame = none
find_frame words frame_start (suc left) frame =
    let pfn = get_physical_frame_number ((frame_start + frame * frame_size) % u32_mod) in
    let rest = find_frame words frame_start left (frame + 1) in
    if is_frame_used words pfn then rest else some pfn

abbrev pub frame_start_of : Region → ℕ
frame_start_of region = (region.address - region.address % frame_size + frame_size) % u32_mod

-- frame_count is a uint8_t.
abbrev pub frame_count_of : Region → ℕ
frame_count_of region =
    sub32 region.size (sub32 (frame_start_of region) region.address) / frame_size % 256

-- The loop over the regions.
unfoldable pub find_in_regions : List ℕ → List Region → Option ℕ
unfolding find_frame
find_in_regions words [] = none
find_in_regions words (region ∷ regions) =
    let rest = find_in_regions words regions in
    let here : Option ℕ =
      elim (find_frame words (frame_start_of region) (frame_count_of region) 0) [
        | none ↦ rest
        | some pfn ↦ some pfn
      ] in
    if ltb ((region.address + region.size) % u32_mod) (frame_start_of region) then rest else here

-- `none` is one of the endless loops: no frame is left, or the entry is refused.
unfoldable pub handle_page_fault : ℕ → Paging → Option Paging
unfolding find_in_regions construct_page_dir_entry
handle_page_fault fault_address p = elim (find_in_regions p.words p.regions) [
  | none ↦ none
  | some pfn ↦
      elim (construct_page_dir_entry pfn page_size_4_mib page_read_write page_user_and_supervisor) [
        | none ↦ none
        | some entry ↦ some (record p {
          words = set_frame_used p.words pfn;
          page_directory = set p.page_directory (get_virtual_frame_number fault_address) entry;
        })
      ]
]

-- A descriptor of the boot loader's memory map.
pub record Descriptor : Type 0 where
  pub size : ℕ
  pub base_addr_low : ℕ
  pub length_low : ℕ
  pub region_type : ℕ

-- The loop over the map: the descriptors in the order in which their sizes lead from one to the
-- next. The loop ends when the sizes have reached the length of the map.
unfoldable pub load_loop : ℕ → ℕ → List Descriptor → List Region → List Region
load_loop mmap_length traversed [] regions = regions
load_loop mmap_length traversed (d ∷ ds) regions =
    let added : List Region =
      if d.region_type == 1
      then regions ++ (record { address = d.base_addr_low; size = d.length_low } ∷ [])
      else regions in
    let rest = load_loop mmap_length ((traversed + d.size + 4) % u32_mod) ds added in
    if ltb traversed mmap_length then rest else regions

-- `none` is the endless loop on a boot loader without a memory map.
unfoldable pub load_physical_memory_region_descriptors :
    ℕ → ℕ → List Descriptor → Paging → Option Paging
unfolding load_loop
load_physical_memory_region_descriptors flags mmap_length ds p =
    if is_clear flags 6 then none else some (record p { regions = load_loop mmap_length 0 ds [] })

unfoldable pub setup_paging : Paging → Option Paging
unfolding construct_page_dir_entry
setup_paging p =
    elim (construct_page_dir_entry 0 page_size_4_mib page_read_write page_user_and_supervisor) [
      | none ↦ none
      | some entry ↦ some (record p {
        page_directory = set (replicate 1024 0) 0 entry;
        words = set (replicate 32 0) 0 (bit_or 0 (2 ^ 0));
      })
    ]
