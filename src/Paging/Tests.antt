-- ===== src/Paging/Tests.antt =====
-- Paging with a region of two frames, the first of which is used.
use palley_os.Prelude.{◌+◌, ◌*◌, ◌^◌, ◌≡◌, refl, some, [], ◌∷◌, arith, set, replicate}
use palley_os.Paging.{Paging, frame_size, handle_page_fault, setup_paging, construct_page_dir_entry}
use palley_os.Paging.Exclusive.{start, fault, IsExclusive, Faults-IsExclusive}
use palley_os.Paging.Start.{StartsAt, setup_paging-StartsAt}

abbrev paging : Paging
paging = record {
  page_directory = replicate 1024 0;
  words = set (replicate 32 0) 0 3;
  regions = record { address = 4096; size = 3 * frame_size } ∷ [];
}

-- The start, and two faults behind it.
abbrev started : Paging
started = record paging {
  page_directory = set (replicate 1024 0) 0 0x87;
  words = set (replicate 32 0) 0 1;
}

abbrev one_fault : Paging
one_fault = record started {
  page_directory = set started.page_directory 768 (2 ^ 22 + 0x87);
  words = set (replicate 32 0) 0 3;
}

abbrev two_faults : Paging
two_faults = record one_fault {
  page_directory = set one_fault.page_directory 3 (2 * 2 ^ 22 + 0x87);
  words = set (replicate 32 0) 0 7;
}

starts : setup_paging paging ≡ some started
unfolding setup_paging construct_page_dir_entry
starts = refl

first_fault : handle_page_fault 0xC0000123 started ≡ some one_fault
unfolding handle_page_fault
first_fault = refl

second_fault : handle_page_fault 0x00C00000 one_fault ≡ some two_faults
unfolding handle_page_fault
second_fault = refl

Faults-IsExclusive_example : IsExclusive two_faults
Faults-IsExclusive_example =
    Faults-IsExclusive paging started two_faults starts (
      fault 0x00C00000 (fault 0xC0000123 start (omega arith) first_fault) (omega arith)
        second_fault)

setup_paging-StartsAt_example : StartsAt 5 (setup_paging paging)
setup_paging-StartsAt_example = setup_paging-StartsAt paging 5 (omega arith)
