-- ===== src/Sd/Init/Quiet.antt =====
-- What the reset and the choice of the clock put on the bus.
use mathlib.Core.List.{map}
use dhruvaos.Base.{
  ℕ, zero, suc, ◌+◌, ◌^◌, ◌<◌, ◌≤◌, Bool, List, [], ◌∷◌, ◌++◌, length, bit_and, ◌==◌, arith,
}
use dhruvaos.Base.Action.{
  Ensures, Ensures-pure, Ensures-if, Ensures-bind, Ensures-weaken, then_gets, modify, ◌>>=◌, ◌>>◌,
}
use dhruvaos.Sd.{
  Device, Driver, Io, Transfer, mmio_w, udelay_real, sdtout_addr, sdcdiv_addr, sdvdd_addr,
  sdedm_addr, sdhcfg_addr, sdhbct_addr, sdhblc_addr, sddata_addr, gpfsel4_addr, gpfsel5_addr,
}
use dhruvaos.Sd.Access.{IsTimed, Moved, Moved-refl, Moved-trans, mmio_w-Ensures}
use dhruvaos.Sd.Poll.{udelay_real-Ensures}
use dhruvaos.Sd.Command.Sends.{then_read, then_write}
use dhruvaos.Sd.Block.{fill_of}
use dhruvaos.Sd.Init.{
  preclear, set_pins, cycle_power, reset_and_ident_clock, store_words, message, wait_room,
  reply_rate, wait_reply, ask_rate, get_core_clock_hz, set_data_clock,
}

-- The words that the reset drops from the FIFO, and then the sizes, set to 0.
abbrev pub reset_transfers : List ℕ → List Transfer
reset_transfers junk =
    map Transfer.data_in junk ++ Transfer.byte_count 0 ∷ Transfer.block_count 0 ∷ []

module _ (dev : Device) (timed : IsTimed dev) (fuel : ℕ) (enough : 10 ^ 9 ≤ fuel) where
  -- A wait of at most a second, and what follows it.
  pub then_delay :
      {B : Type 0} {Q : B → Driver dev.Hardware → Type 0} (us : ℕ) (m : Io dev B)
      (s : Driver dev.Hardware)
      → 0 < us
      → us ≤ 1000000
      → ((t : Driver dev.Hardware) → Moved [] s t → Ensures Q (m t))
      → Ensures Q ((udelay_real dev fuel us >> m) s)
  then_delay us m s pos short k =
      Ensures-bind (udelay_real dev fuel us) _ s
        (udelay_real-Ensures dev timed fuel us s pos short (omega arith)) (λ u t h. k t h.0)

  abbrev IsCleared : ℕ → Driver dev.Hardware → Driver dev.Hardware → Type 0
  IsCleared iters s t =
      (junk : List ℕ) × (length junk ≤ iters) × Moved (map Transfer.data_in junk) s t

  preclear-Ensures :
      (iters : ℕ) (s : Driver dev.Hardware)
      → Ensures (λ u t. IsCleared iters s t) (preclear dev fuel iters s)
  unfolding preclear
  preclear-Ensures zero s = Ensures-pure tt s ([], omega arith, Moved-refl s)
  preclear-Ensures (suc iters) s = then_read dev sdedm_addr _ s (λ edm s1 h1.
      Ensures-if (fill_of edm == 0) _ _ s1 (λ e. Ensures-pure tt s1 ([], omega arith, h1))
        (λ e. then_read dev sddata_addr _ s1 (λ v s2 h2.
          Ensures-weaken (preclear-Ensures iters s2) (λ u t (junk, size, h).
            (v ∷ junk, omega (arith, size), Moved-trans h1 (Moved-trans h2 h))))))

  set_pins-Ensures : (s : Driver dev.Hardware) → Ensures (λ u t. Moved [] s t) (set_pins dev fuel s)
  unfolding set_pins
  set_pins-Ensures s = then_read dev gpfsel4_addr _ s (λ r4 s1 h1.
      then_write dev gpfsel4_addr _ _ s1 (λ s2 h2. then_read dev gpfsel5_addr _ s2 (λ r5 s3 h3.
        then_write dev gpfsel5_addr _ _ s3 (λ s4 h4. then_read dev sdedm_addr _ s4 (λ temp s5 h5.
          Ensures-weaken (mmio_w-Ensures dev sdedm_addr _ s5) (λ u t h6.
            Moved-trans h1
              (Moved-trans h2 (Moved-trans h3 (Moved-trans h4 (Moved-trans h5 h6))))))))))

  cycle_power-Ensures :
      (s : Driver dev.Hardware) → Ensures (λ u t. Moved [] s t) (cycle_power dev fuel s)
  unfolding cycle_power
  cycle_power-Ensures s = then_delay 20000 _ s (omega arith) (omega arith) (λ s1 h1.
      then_write dev sdvdd_addr 0 _ s1 (λ s2 h2.
        then_delay 20000 _ s2 (omega arith) (omega arith) (λ s3 h3.
          then_write dev sdvdd_addr 1 _ s3 (λ s4 h4.
            Ensures-weaken
              (udelay_real-Ensures dev timed fuel 20000 s4 (omega arith) (omega arith)
                (omega arith))
              (λ u t h5. Moved-trans h1 (Moved-trans h2 (Moved-trans h3 (Moved-trans h4 h5.0))))))))

  set_registers-Ensures :
      (s : Driver dev.Hardware)
      → Ensures
          (λ u t. Moved (Transfer.byte_count 0 ∷ Transfer.block_count 0 ∷ []) s t)
          ((mmio_w dev sdcdiv_addr 0x148
              >> (mmio_w dev sdtout_addr 0xF00000
                  >> (mmio_w dev sdhbct_addr 0
                      >> (mmio_w dev sdhblc_addr 0 >> mmio_w dev sdhcfg_addr 0))))
            s)
  set_registers-Ensures s = then_write dev sdcdiv_addr 0x148 _ s (λ s1 h1.
      then_write dev sdtout_addr 0xF00000 _ s1 (λ s2 h2. then_write dev sdhbct_addr 0 _ s2 (λ s3 h3.
        then_write dev sdhblc_addr 0 _ s3 (λ s4 h4.
          Ensures-weaken (mmio_w-Ensures dev sdhcfg_addr 0 s4)
            (λ u t h5. Moved-trans h1 (Moved-trans h2 (Moved-trans h3 (Moved-trans h4 h5))))))))

  pub reset_and_ident_clock-Ensures :
      (s : Driver dev.Hardware)
      → Ensures
          (λ u t. (junk : List ℕ) × (length junk ≤ 1000) × Moved (reset_transfers junk) s t)
          (reset_and_ident_clock dev fuel s)
  unfolding reset_and_ident_clock
  reset_and_ident_clock-Ensures s =
      Ensures-bind (set_pins dev fuel) _ s (set_pins-Ensures s) (λ u s1 h1.
        Ensures-bind (cycle_power dev fuel) _ s1 (cycle_power-Ensures s1) (λ u s2 h2.
          Ensures-bind (preclear dev fuel 1000) _ s2 (preclear-Ensures 1000 s2)
            (λ u s3 (junk, size, h3).
              Ensures-weaken (set_registers-Ensures s3)
                (λ u t h4. (junk, size, Moved-trans h1 (Moved-trans h2 (Moved-trans h3 h4)))))))

  store_words-Ensures :
      (addr : ℕ) (ws : List ℕ) (s : Driver dev.Hardware)
      → Ensures (λ u t. Moved [] s t) (store_words dev fuel addr ws s)
  unfolding store_words ◌>>=◌ modify
  store_words-Ensures addr [] s = Ensures-pure tt s (Moved-refl s)
  store_words-Ensures addr (w ∷ ws) s =
      Ensures-weaken
        (store_words-Ensures (addr + 4) ws (record s { hardware = dev.write addr w s.hardware }))
        (λ u t h. record { transfers = h.transfers; rca = h.rca; is_sdhc = h.is_sdhc })

  wait_room-Ensures :
      (polls : ℕ) (s : Driver dev.Hardware)
      → Ensures (λ b t. Moved [] s t) (wait_room dev fuel polls s)
  unfolding wait_room
  wait_room-Ensures zero s = Ensures-pure _ s (Moved-refl s)
  wait_room-Ensures (suc polls) s = then_read dev 0x2000B898 _ s (λ status t h.
      Ensures-if (bit_and status 0x80000000 == 0) _ _ t (λ e. Ensures-pure _ t h)
        (λ e. Ensures-weaken (wait_room-Ensures polls t) (λ b u k. Moved-trans h k)))

  reply_rate-Ensures :
      (s : Driver dev.Hardware) → Ensures (λ hz t. Moved [] s t) (reply_rate dev fuel s)
  unfolding reply_rate
  reply_rate-Ensures s = then_gets (λ d. dev.reply d.hardware) _ s (Ensures-pure _ s (Moved-refl s))

  wait_reply-Ensures :
      (polls : ℕ) (s : Driver dev.Hardware)
      → Ensures (λ hz t. Moved [] s t) (wait_reply dev fuel polls s)
  unfolding wait_reply
  wait_reply-Ensures zero s = Ensures-pure _ s (Moved-refl s)
  wait_reply-Ensures (suc polls) s = then_read dev 0x2000B898 _ s (λ status t h.
      Ensures-if (bit_and status 0x40000000 == 0) _ _ t
        (λ e. then_read dev 0x2000B880 _ t (λ got u k.
          Ensures-if (got == message dev fuel) _ _ u
            (λ e'.
              Ensures-weaken (reply_rate-Ensures u) (λ hz v l. Moved-trans h (Moved-trans k l)))
            (λ e'.
              Ensures-weaken (wait_reply-Ensures polls u)
                (λ hz v l. Moved-trans h (Moved-trans k l)))))
        (λ e. Ensures-weaken (wait_reply-Ensures polls t) (λ hz u k. Moved-trans h k)))

  ask_rate-Ensures :
      (room : Bool) (s : Driver dev.Hardware)
      → Ensures (λ hz t. Moved [] s t) (ask_rate dev fuel room s)
  unfolding ask_rate
  ask_rate-Ensures room s =
      Ensures-if room _ _ s
        (λ e.
          then_write dev 0x2000B8A0 _ _ s
            (λ t h. Ensures-weaken (wait_reply-Ensures 100000 t) (λ hz u k. Moved-trans h k)))
        (λ e. Ensures-pure _ s (Moved-refl s))

  pub get_core_clock_hz-Ensures :
      (s : Driver dev.Hardware) → Ensures (λ hz t. Moved [] s t) (get_core_clock_hz dev fuel s)
  unfolding get_core_clock_hz
  get_core_clock_hz-Ensures s =
      Ensures-bind (store_words dev fuel dev.mailbox _) _ s (store_words-Ensures dev.mailbox _ s)
        (λ u s1 h1.
          Ensures-bind (wait_room dev fuel 100000) _ s1 (wait_room-Ensures 100000 s1) (λ room s2 h2.
            Ensures-weaken (ask_rate-Ensures room s2)
              (λ hz t h3. Moved-trans h1 (Moved-trans h2 h3))))

  pub set_data_clock-Ensures :
      (hz : ℕ) (s : Driver dev.Hardware)
      → Ensures (λ u t. Moved [] s t) (set_data_clock dev fuel hz s)
  unfolding set_data_clock
  set_data_clock-Ensures hz s =
      Ensures-if (hz == 0) _ _ s (λ e. Ensures-pure tt s (Moved-refl s))
        (λ e. then_write dev sdcdiv_addr _ _ s (λ s1 h1. then_write dev sdtout_addr _ _ s1 (λ s2 h2.
          Ensures-weaken
            (udelay_real-Ensures dev timed fuel 10000 s2 (omega arith) (omega arith) (omega arith))
            (λ u t h3. Moved-trans h1 (Moved-trans h2 h3.0)))))
