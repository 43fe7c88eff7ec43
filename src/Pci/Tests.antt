-- ===== src/Pci/Tests.antt =====
-- A configuration space with one device of two functions, and a log of the checks.
use palley_os.Prelude.{ℕ, ◌&&◌, List, [], ◌∷◌, ◌==◌, if◌then◌else◌, ◌≡◌, refl}
use palley_os.Pci.{
  Pci, PciDevice, pci_check_all_buses, pci_check_device, function_loop, visit_function,
  handle_dist_controller,
}
use palley_os.Pci.Scan.{Fixed, Place, check_each, of_buses, pci_check_all_buses-checks}

abbrev config : ℕ → ℕ → ℕ → PciDevice
config b d f = record {
  bus = b;
  device = d;
  function = f;
  vendor_id =
      if (b == 0) && (d == 1) && (f == 0)
      then 0x8086
      else if (b == 0) && (d == 1) && (f == 3)
      then 0x8086
      else 0xffff;
  header_type = if (b == 0) && (d == 1) then 0x80 else 0xff;
  class_code = 1;
  sub_class = 1;
}

abbrev logged : Pci
logged = record {
  State = List Place;
  get_device = λ b d f s. (config b d f, s);
  check_function = λ b d f s. record { bus = b; device = d; function = f } ∷ s;
  read_bar = λ b d f n s. (0, s);
}

abbrev fixed : Fixed logged
fixed = record { table = config; devices_read = λ b d f s. refl; bars_read = λ b d f n s. refl }

-- The first function and the fourth.
one_device :
    pci_check_device logged 0 1 []
    ≡ record { bus = 0; device = 1; function = 3 }
      ∷ record { bus = 0; device = 1; function = 0 }
      ∷ []
unfolding pci_check_device function_loop visit_function handle_dist_controller
one_device = refl

pci_check_all_buses-checks_example :
    pci_check_all_buses logged [] ≡ check_each logged fixed (of_buses logged fixed 256 0) []
pci_check_all_buses-checks_example = pci_check_all_buses-checks logged fixed []
