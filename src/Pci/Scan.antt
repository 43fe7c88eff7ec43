-- ===== src/Pci/Scan.antt =====
-- src/pci.c: the functions that the scan checks, against a list of them.
use palley_os.Prelude.{
  ℕ, zero, suc, ◌+◌, ◌%◌, List, [], ◌∷◌, ◌++◌, ◌==◌, if◌then◌else◌, ◌≡◌, refl, ◌∙◌, arith,
  Bool-cases, inl, inr,
}
use palley_os.Pci.{
  Pci, PciDevice, read_bars, handle_dist_controller, visit_function, function_loop,
  pci_check_device, device_loop, bus_loop, pci_check_all_buses,
}

-- A configuration space that stays as it is while it is read, and while functions are checked.
pub record Fixed (v : Pci) : Type 0 where
  pub table : ℕ → ℕ → ℕ → PciDevice
  pub devices_read : (b d f : ℕ) (s : v.State) → v.get_device b d f s ≡ (table b d f, s)
  pub bars_read : (b d f n : ℕ) (s : v.State) → (v.read_bar b d f n s).1 ≡ s

pub record Place : Type 0 where
  pub bus : ℕ
  pub device : ℕ
  pub function : ℕ

module _ (v : Pci) (x : Fixed v) where
  -- The functions of a device from `function` on that are there.
  abbrev pub present : ℕ → ℕ → ℕ → ℕ → List Place
  present b d zero function = []
  present b d (suc left) function =
      if (x.table b d function).vendor_id == 0xffff
      then present b d left (function + 1)
      else record { bus = b; device = d; function = function } ∷ present b d left (function + 1)

  -- The first function, there or not, and the others where the first has a header type.
  abbrev pub of_device : ℕ → ℕ → List Place
  of_device b d =
      record { bus = b; device = d; function = 0 }
      ∷ (if (x.table b d 0).header_type == 0 then [] else present b d 7 1)

  abbrev pub of_devices : ℕ → ℕ → ℕ → List Place
  of_devices b zero d = []
  of_devices b (suc left) d = of_device b d ++ of_devices b left (d + 1)

  abbrev pub of_buses : ℕ → ℕ → List Place
  of_buses zero b = []
  of_buses (suc left) b = of_devices (b % 256) 32 0 ++ of_buses left (b + 1)

  -- The functions of a list checked in their order.
  abbrev pub check_each : List Place → v.State → v.State
  check_each [] s = s
  check_each (p ∷ ps) s = check_each ps (v.check_function p.bus p.device p.function s)

  check_each-append :
      (ps qs : List Place) (s : v.State) → check_each (ps ++ qs) s ≡ check_each qs (check_each ps s)
  check_each-append [] qs s = refl
  check_each-append (p ∷ ps) qs s =
      check_each-append ps qs (v.check_function p.bus p.device p.function s)

  read_bars-state : (left num : ℕ) (pd : PciDevice) (s : v.State) → read_bars v left num pd s ≡ s
  unfolding read_bars
  read_bars-state zero num pd s = refl
  read_bars-state (suc left) num pd s =
      read_bars-state left (num + 1) pd _ ∙ x.bars_read pd.bus pd.device pd.function num s

  visit_function-checks :
      (b d f : ℕ) (s : v.State)
      → visit_function v b d f s
        ≡ (if (x.table b d f).vendor_id == 0xffff then s else v.check_function b d f s)
  unfolding visit_function handle_dist_controller
  visit_function-checks b d f s =
      rw (x.devices_read b d f s)
        (ground (arith, read_bars-state 6 0 (x.table b d f) (v.check_function b d f s)))

  function_loop-present :
      (left b d f : ℕ) (s : v.State)
      → function_loop v left b d f s ≡ check_each (present b d left f) s
  unfolding function_loop
  function_loop-present zero b d f s = refl
  function_loop-present (suc left) b d f s =
      elim (Bool-cases ((x.table b d f).vendor_id == 0xffff)) [
        | inl absent ↦
            rw (visit_function-checks b d f s, absent) (function_loop-present left b d (f + 1) s)
        | inr there ↦
            rw (visit_function-checks b d f s, there)
              (function_loop-present left b d (f + 1) (v.check_function b d f s))
      ]

  pci_check_device-checks :
      (b d : ℕ) (s : v.State) → pci_check_device v b d s ≡ check_each (of_device b d) s
  unfolding pci_check_device
  pci_check_device-checks b d s =
      rw (x.devices_read b d 0 s) (elim (Bool-cases ((x.table b d 0).header_type == 0)) [
        | inl single ↦ rw single refl
        | inr several ↦ rw several (function_loop-present 7 b d 1 (v.check_function b d 0 s))
      ])

  device_loop-checks :
      (left b d : ℕ) (s : v.State) → device_loop v left b d s ≡ check_each (of_devices b left d) s
  unfolding device_loop
  device_loop-checks zero b d s = refl
  device_loop-checks (suc left) b d s =
      rw
        (
          pci_check_device-checks b d s,
          check_each-append (of_device b d) (of_devices b left (d + 1)) s,
        )
        (device_loop-checks left b (d + 1) (check_each (of_device b d) s))

  bus_loop-checks :
      (left b : ℕ) (s : v.State) → bus_loop v left b s ≡ check_each (of_buses left b) s
  unfolding bus_loop
  bus_loop-checks zero b s = refl
  bus_loop-checks (suc left) b s =
      rw
        (
          device_loop-checks 32 (b % 256) 0 s,
          check_each-append (of_devices (b % 256) 32 0) (of_buses left (b + 1)) s,
        )
        (bus_loop-checks left (b + 1) (check_each (of_devices (b % 256) 32 0) s))

  -- pciCheckAllBuses does what checking the functions of a list in order does: of each of the 32
  -- devices of each of the 256 buses the first function, whether there is one or not, and, where
  -- the header type read for it is not 0, those of the other seven that have a vendor.
  pub pci_check_all_buses-checks :
      (s : v.State) → pci_check_all_buses v s ≡ check_each (of_buses 256 0) s
  unfolding pci_check_all_buses
  pci_check_all_buses-checks s = bus_loop-checks 256 0 s
