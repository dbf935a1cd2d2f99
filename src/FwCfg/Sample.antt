-- ===== src/FwCfg/Sample.antt =====
-- A device that does what QEMU documents: the hypotheses on it can hold.
use ziran_os.Prelude.{ℕ, List, refl}
use ziran_os.FwCfg.{Ports}
use ziran_os.FwCfg.Device.{Documented, first_or_zero, after_first}

-- A device whose state is what is left of the item that was selected.
abbrev pub ports_of : (ℕ → List ℕ) → Ports (List ℕ)
ports_of items = record {
  select = λ sel s. items sel;
  data_byte = λ s. (first_or_zero s, after_first s);
}

pub ports_of-Documented : (items : ℕ → List ℕ) → Documented (ports_of items) items
ports_of-Documented items = record {
  remaining = λ s. s;
  remaining-select = λ sel s. refl;
  byte_lem = λ s. refl;
  remaining-byte = λ s. refl;
}
