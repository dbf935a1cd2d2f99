-- ===== src/FwCfg/Device.antt =====
-- What QEMU documents of fw_cfg, and how src/fw_cfg.rs reads bytes of it.
use ziran_os.Prelude.{ℕ, ◌≡◌, refl, ap, ◌∙◌, List, [], ◌∷◌, ◌++◌, length}
use ziran_os.FwCfg.{Ports, data_bytes}

abbrev pub first_or_zero : List ℕ → ℕ
first_or_zero [] = 0
first_or_zero (b ∷ bs) = b

abbrev pub after_first : List ℕ → List ℕ
after_first [] = []
after_first (b ∷ bs) = bs

-- A write to the selector starts the item of that number; each read gives its next byte, and zeros
-- when it is at its end.
pub record Documented {S : Type 0} (ports : Ports S) (items : ℕ → List ℕ) : Type 0 where
  pub remaining : S → List ℕ
  pub remaining-select : (sel : ℕ) (s : S) → remaining (ports.select sel s) ≡ items sel
  pub byte_lem : (s : S) → (ports.data_byte s).0 ≡ first_or_zero (remaining s)
  pub remaining-byte : (s : S) → remaining (ports.data_byte s).1 ≡ after_first (remaining s)

module _ {S : Type 0} (ports : Ports S) (items : ℕ → List ℕ) (d : Documented ports items) where
  -- The item leads on with these bytes, and then the others.
  pub next_byte :
      (s : S) (b : ℕ) (rest : List ℕ)
      → d.remaining s ≡ b ∷ rest
      → ((ports.data_byte s).0 ≡ b) × (d.remaining (ports.data_byte s).1 ≡ rest)
  next_byte s b rest e = (d.byte_lem s ∙ ap first_or_zero e, d.remaining-byte s ∙ ap after_first e)

  pub data_bytes_lem :
      (bs rest : List ℕ) (s : S)
      → d.remaining s ≡ bs ++ rest
      → ((data_bytes ports (length bs) s).0 ≡ bs)
        × (d.remaining (data_bytes ports (length bs) s).1 ≡ rest)
  unfolding data_bytes
  data_bytes_lem [] rest s e = (refl, e)
  data_bytes_lem (b ∷ bs) rest s e =
      let (here, left) = next_byte s b (bs ++ rest) e in
      let (there, done) = data_bytes_lem bs rest (ports.data_byte s).1 left in (cc, done)
