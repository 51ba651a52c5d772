-- ===== src/Sd/Block/Fifo.antt =====
-- What the parts of a block's transfer put on the bus.
use mathlib.Core.List.{map}
use dhruvaos.Base.{
  ℕ, zero, suc, ◌^◌, min, ◌<◌, ◌≤◌, ◌≡◌, refl, ap, Option, none, some, false, List, [], ◌∷◌, length,
  ltb, bit_and, ◌==◌, arith,
}
use dhruvaos.Base.Action.{Ensures, Ensures-pure, Ensures-if, Ensures-bind, Ensures-weaken}
use dhruvaos.Sd.{
  Device, Driver, Io, Transfer, mmio_r, poll_for, sdhsts_addr, sdedm_addr, sddata_addr, timeout_us,
}
use dhruvaos.Sd.Access.{IsTimed, Moved, Moved-refl, Moved-trans, mmio_r-Ensures, mmio_w-Ensures}
use dhruvaos.Sd.Poll.{BodyDone, poll_for-Ensures}
use dhruvaos.Sd.Command.{is_idle}
use dhruvaos.Sd.Command.Sends.{then_read, then_write}
use dhruvaos.Sd.Block.{
  fill_of, unforced, is_wedged, force_data_mode_settle, force_data_mode, transfer_done,
  check_errors, wait_idle, end_transfer, read_words, write_words, fifo_round, drain,
}

module _ (dev : Device) (fuel : ℕ) where
  settle-Ensures :
      (iters : ℕ) (s : Driver dev.Hardware)
      → Ensures (λ u t. Moved [] s t) (force_data_mode_settle dev fuel iters s)
  unfolding force_data_mode_settle
  settle-Ensures zero s = then_read dev sdedm_addr _ s (λ edm t h.
      Ensures-weaken (mmio_w-Ensures dev sdedm_addr (unforced edm) t) (λ u v k. Moved-trans h k))
  settle-Ensures (suc iters) s = then_read dev sdedm_addr _ s (λ edm t h.
      Ensures-if (is_idle edm) _ _ t
        (λ e.
          Ensures-weaken (mmio_w-Ensures dev sdedm_addr (unforced edm) t)
            (λ u v k. Moved-trans h k))
        (λ e. Ensures-weaken (settle-Ensures iters t) (λ u v k. Moved-trans h k)))

  force-Ensures :
      (edm : ℕ) (s : Driver dev.Hardware)
      → Ensures (λ o t. Moved [] s t × (o ≡ some tt)) (force_data_mode dev fuel edm s)
  unfolding force_data_mode
  force-Ensures edm s = then_write dev sdedm_addr _ _ s (λ t h.
      Ensures-bind (force_data_mode_settle dev fuel 1000) _ t (settle-Ensures 1000 t)
        (λ u v k. Ensures-pure (some tt) v (Moved-trans h k, refl)))

  check_errors-Ensures :
      (o : Option (Unit {0})) (s : Driver dev.Hardware)
      → Ensures (λ b t. Moved [] s t) (check_errors dev fuel o s)
  unfolding check_errors
  check_errors-Ensures none s = Ensures-pure false s (Moved-refl s)
  check_errors-Ensures (some u) s =
      then_read dev sdhsts_addr _ s
        (λ v t h. then_write dev sdhsts_addr _ _ t (λ t' k. Ensures-pure _ t' (Moved-trans h k)))

  pub read_words-Ensures :
      (n : ℕ) (s : Driver dev.Hardware)
      → Ensures
          (λ ws t. (length ws ≡ n) × Moved (map Transfer.data_in ws) s t)
          (read_words dev fuel n s)
  unfolding read_words
  read_words-Ensures zero s = Ensures-pure [] s (refl, Moved-refl s)
  read_words-Ensures (suc n) s = then_read dev sddata_addr _ s (λ v t h.
      Ensures-bind (read_words dev fuel n) _ t (read_words-Ensures n t)
        (λ ws u (size, k). Ensures-pure (v ∷ ws) u (ap suc size, Moved-trans h k)))

  pub write_words-Ensures :
      (ws : List ℕ) (s : Driver dev.Hardware)
      → Ensures (λ u t. Moved (map Transfer.data_out ws) s t) (write_words dev fuel ws s)
  unfolding write_words
  write_words-Ensures [] s = Ensures-pure tt s (Moved-refl s)
  write_words-Ensures (w ∷ ws) s =
      then_write dev sddata_addr w _ s
        (λ t h. Ensures-weaken (write_words-Ensures ws t) (λ u v k. Moved-trans h k))

  -- A round only waits, or it passes at least one word and no more than are left.
  pub fifo_round-Ensures :
      {A : Type 0} {Q : A → Driver dev.Hardware → Type 0} (available : ℕ → ℕ) (left : ℕ)
      (wait : Io dev A) (pass : ℕ → Io dev A) (s : Driver dev.Hardware)
      → 0 < left
      → ((t : Driver dev.Hardware) → Moved [] s t → Ensures Q (wait t))
      → ((n : ℕ) (t : Driver dev.Hardware) → 0 < n → n ≤ left → Moved [] s t → Ensures Q (pass n t))
      → Ensures Q (fifo_round dev fuel available left wait pass s)
  unfolding fifo_round
  fifo_round-Ensures available left wait pass s pos hw hp = then_read dev sdedm_addr _ s (λ edm t h.
      Ensures-if (ltb (available (fill_of edm)) (min 8 left)) _ _ t (λ e. hw t h)
        (λ e. hp (min (available (fill_of edm)) left) t (ground (arith, e)) (omega arith) h))

  pub drain-Ensures :
      (iters : ℕ) (s : Driver dev.Hardware) → Ensures (λ u t. Moved [] s t) (drain dev fuel iters s)
  unfolding drain
  drain-Ensures zero s = Ensures-pure tt s (Moved-refl s)
  drain-Ensures (suc iters) s = then_read dev sdedm_addr _ s (λ edm t h.
      Ensures-if (fill_of edm == 0) _ _ t (λ e. Ensures-pure tt t h)
        (λ e. Ensures-weaken (drain-Ensures iters t) (λ u v k. Moved-trans h k)))

module _ (dev : Device) (timed : IsTimed dev) (fuel : ℕ) (enough : 10 ^ 9 ≤ fuel) where
  transfer_done-Ensures :
      (s : Driver dev.Hardware)
      → Ensures (BodyDone dev timed (λ u. Unit) s) (transfer_done dev fuel s)
  unfolding transfer_done
  transfer_done-Ensures s =
      Ensures-bind (mmio_r dev sdedm_addr) _ s (mmio_r-Ensures dev sdedm_addr s)
        (λ edm t (h, value, hardware).
          Ensures-if (is_idle edm) _ _ t (λ e. Ensures-pure (some tt) t (h, tt))
            (λ e.
              Ensures-if (is_wedged edm) _ _ t
                (λ e'.
                  Ensures-weaken (force-Ensures dev fuel edm t)
                    (λ o u (k, is_some). rw is_some (Moved-trans h k, tt)))
                (λ e'. Ensures-pure none t (
                  h,
                  rw hardware (omega (arith, timed.read_later sdedm_addr s.hardware)),
                  rw hardware (timed.read_soon sdedm_addr s.hardware),
                ))))

  wait_idle-Ensures :
      (s : Driver dev.Hardware) → Ensures (λ b t. Moved [] s t) (wait_idle dev fuel s)
  unfolding wait_idle
  wait_idle-Ensures s =
      Ensures-bind (poll_for dev fuel timeout_us (transfer_done dev fuel)) _ s
        (poll_for-Ensures dev timed (λ u. Unit) (transfer_done dev fuel) fuel timeout_us s
          transfer_done-Ensures (omega arith) (omega arith) (omega arith))
        (λ o t h. Ensures-weaken (check_errors-Ensures dev fuel o t) (λ b u k. Moved-trans h.0 k))

  pub end_transfer-Ensures :
      (s : Driver dev.Hardware) → Ensures (λ b t. Moved [] s t) (end_transfer dev fuel s)
  unfolding end_transfer
  end_transfer-Ensures s = then_read dev sdhsts_addr _ s (λ v t h.
      Ensures-if (bit_and v 0xF8 == 0) _ _ t
        (λ e. Ensures-weaken (wait_idle-Ensures t) (λ b u k. Moved-trans h k))
        (λ e. Ensures-pure false t h))
