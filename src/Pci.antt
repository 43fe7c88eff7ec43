-- ===== src/Pci.antt =====
-- src/pci.c: the scan of the buses. The file begins in the middle of pciCheckFunction: that function
-- and the reads of the configuration space are missing from the repository and are parameters. What
-- is printed is dropped.
pub mod Scan
mod Tests
use palley_os.Prelude.{
  ℕ, zero, suc, ◌+◌, ◌%◌, Bool, true, false, not, ◌&&◌, List, [], ◌∷◌, ◌==◌, if◌then◌else◌,
}

-- The fields that the scan reads.
pub record PciDevice : Type 0 where
  pub bus : ℕ
  pub device : ℕ
  pub function : ℕ
  pub vendor_id : ℕ
  pub header_type : ℕ
  pub class_code : ℕ
  pub sub_class : ℕ

pub record Pci : Type 1 where
  pub State : Type 0
  pub get_device : ℕ → ℕ → ℕ → State → PciDevice × State
  pub check_function : ℕ → ℕ → ℕ → State → State
  pub read_bar : ℕ → ℕ → ℕ → ℕ → State → ℕ × State

module _ (v : Pci) where
  open v use {State, get_device, check_function, read_bar}

  -- The six registers from `num` on; nothing is done with them.
  unfoldable pub read_bars : ℕ → ℕ → PciDevice → State → State
  read_bars zero num pd s = s
  read_bars (suc left) num pd s =
      read_bars left (num + 1) pd (read_bar pd.bus pd.device pd.function num s).1

  unfoldable pub handle_dist_controller : PciDevice → State → State
  unfolding read_bars
  handle_dist_controller pd s = read_bars 6 0 pd s

  -- A round of the loop over the functions.
  unfoldable pub visit_function : ℕ → ℕ → ℕ → State → State
  unfolding handle_dist_controller
  visit_function bus device function s =
      let (tmp_pd, s') = get_device bus device function s in
      let checked = check_function bus device function s' in
      if tmp_pd.vendor_id == 0xffff
      then s'
      else if tmp_pd.class_code == 0x01 && (tmp_pd.sub_class == 0x01)
      then handle_dist_controller tmp_pd checked
      else checked

  unfoldable pub function_loop : ℕ → ℕ → ℕ → ℕ → State → State
  function_loop zero bus device function s = s
  function_loop (suc left) bus device function s =
      function_loop left bus device (function + 1) (visit_function bus device function s)

  unfoldable pub pci_check_device : ℕ → ℕ → State → State
  pci_check_device bus device s =
      let (pd, s') = get_device bus device 0 s in
      let checked = check_function bus device 0 s' in
      if pd.header_type == 0 then checked else function_loop 7 bus device 1 checked

  unfoldable pub device_loop : ℕ → ℕ → ℕ → State → State
  device_loop zero bus device s = s
  device_loop (suc left) bus device s =
      device_loop left bus (device + 1) (pci_check_device bus device s)

  unfoldable pub pci_check_bus : ℕ → State → State
  pci_check_bus bus s = device_loop 32 bus 0 s

  -- The number of the bus is passed as a uint8_t.
  unfoldable pub bus_loop : ℕ → ℕ → State → State
  bus_loop zero bus s = s
  bus_loop (suc left) bus s = bus_loop left (bus + 1) (device_loop 32 (bus % 256) 0 s)

  unfoldable pub pci_check_all_buses : State → State
  pci_check_all_buses s = bus_loop 256 0 s
