-- ===== src/Sd/Access.antt =====
-- What single loads and stores do to the driver's state, and what is assumed of the timer.
use dhruvaos.Base.{
  ℕ, ◌+◌, ◌/◌, ◌^◌, ◌<◌, ◌≤◌, ◌≡◌, refl, ap, sym, ◌∙◌, List, [], ◌++◌, append-nil, append_assoc,
  u32,
}
use dhruvaos.Base.Action.{Ensures, pure, gets, modify, ◌>>=◌}
use dhruvaos.Sd.{
  Device, Driver, Transfer, Line, loaded, stored, mmio_r, mmio_w, print, timer_clo_addr,
}

-- `clock` is the time in nanoseconds. A load takes at least one and at most 1000 seconds, and the
-- timer shows the microseconds in 32 bits.
pub record IsTimed (dev : Device) : Type 0 where
  pub clock : dev.Hardware → ℕ
  pub read_later : (addr : ℕ) (h : dev.Hardware) → clock h < clock (dev.read addr h).1
  pub read_soon : (addr : ℕ) (h : dev.Hardware) → clock (dev.read addr h).1 ≤ clock h + 10 ^ 12
  pub timer : (h : dev.Hardware) → u32 (dev.read timer_clo_addr h).0 ≡ u32 (clock h / 1000)

-- The transfers `ts` were made, and the card's address and kind are as before.
pub record Moved {H : Type 0} (ts : List Transfer) (s t : Driver H) : Type 0 where
  pub transfers : t.transfers ≡ s.transfers ++ ts
  pub rca : t.rca ≡ s.rca
  pub is_sdhc : t.is_sdhc ≡ s.is_sdhc

module _ {H : Type 0} where
  pub Moved-refl : (s : Driver H) → Moved [] s s
  Moved-refl s = record { transfers = sym (append-nil s.transfers); rca = refl; is_sdhc = refl }

  pub Moved-trans :
      {ts us : List Transfer} {s t u : Driver H}
      → Moved ts s t
      → Moved us t u
      → Moved (ts ++ us) s u
  Moved-trans {ts} {us} {s} {t} {u} h k = record {
    transfers = k.transfers ∙ (ap (λ xs. xs ++ us) h.transfers ∙ append_assoc s.transfers ts us);
    rca = k.rca ∙ h.rca;
    is_sdhc = k.is_sdhc ∙ h.is_sdhc;
  }

module _ (dev : Device) where
  pub mmio_r-Ensures :
      (addr : ℕ) (s : Driver dev.Hardware)
      → Ensures
          (λ v t.
            Moved (loaded addr v) s t
            × (v ≡ u32 (dev.read addr s.hardware).0)
            × (t.hardware ≡ (dev.read addr s.hardware).1))
          (mmio_r dev addr s)
  unfolding mmio_r ◌>>=◌ gets modify pure
  mmio_r-Ensures addr s = record {
    result = u32 (dev.read addr s.hardware).0;
    state = _;
    returned = refl;
    post = (record { transfers = refl; rca = refl; is_sdhc = refl }, refl, refl);
  }

  pub mmio_w-Ensures :
      (addr v : ℕ) (s : Driver dev.Hardware)
      → Ensures (λ u t. Moved (stored addr v) s t) (mmio_w dev addr v s)
  unfolding mmio_w modify
  mmio_w-Ensures addr v s = record {
    result = tt;
    state = _;
    returned = refl;
    post = record { transfers = refl; rca = refl; is_sdhc = refl };
  }

  pub print-Ensures :
      (line : Line) (s : Driver dev.Hardware) → Ensures (λ u t. Moved [] s t) (print dev line s)
  unfolding modify
  print-Ensures line s = record {
    result = tt;
    state = _;
    returned = refl;
    post = record { transfers = sym (append-nil s.transfers); rca = refl; is_sdhc = refl };
  }
