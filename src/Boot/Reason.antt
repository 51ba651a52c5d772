-- ===== src/Boot/Reason.antt =====
-- The reset reason that a boot records, and where it misleads.
use dhruvaos.Base.{ℕ, zero, suc, ◌+◌, ◌≤◌, ◌<◌, ◌^◌, ◌≡◌, ◌≢◌, true, arith}
use dhruvaos.Slot.{SlotState}
use dhruvaos.Boot.{
  limit_of, try_fallback, reset_reason, update_record, reason_clean_reboot, reason_power_on,
  reason_watchdog_or_hang,
}
use dhruvaos.Boot.Fallback.{boots}

clean_step :
    (s : SlotState)
    → s.last_reset_reason ≡ reason_clean_reboot
    → s.attempt_count < limit_of s
    → limit_of s < 2 ^ 32
    → ((update_record s).last_reset_reason ≡ reason_clean_reboot)
      × ((update_record s).attempt_count ≡ s.attempt_count + 1)
      × (limit_of (update_record s) ≡ limit_of s)
unfolding update_record try_fallback limit_of reset_reason
clean_step s c h fits = ground arith

-- Once a clean reboot is recorded, each of the updates up to a limit below 2 ^ 32 records a clean
-- reboot again, although the attempts that they count show that no slot was marked good.
pub clean_reboot_sticks :
    (n : ℕ) (s : SlotState)
    → s.last_reset_reason ≡ reason_clean_reboot
    → s.attempt_count + n ≤ limit_of s
    → limit_of s < 2 ^ 32
    → ((boots n s).last_reset_reason ≡ reason_clean_reboot)
      × ((boots n s).attempt_count ≡ s.attempt_count + n)
unfolding boots
clean_reboot_sticks zero s c h fits = (c, omega arith)
clean_reboot_sticks (suc n) s c h fits =
    let (reason, attempts, limit) = clean_step s c (omega arith) fits in
    let (reason', attempts') =
      clean_reboot_sticks n (update_record s) reason (omega (arith, attempts, limit))
        (omega (arith, limit)) in
    (reason', omega (arith, attempts', attempts))

-- When an update falls back to the other slot, the update after it records a power-on, although no
-- slot was marked good between them.
pub fallback_hang_unreported :
    (s : SlotState) → (try_fallback s).1 ≡ true → (boots 2 s).last_reset_reason ≡ reason_power_on
unfolding boots update_record try_fallback limit_of reset_reason
fallback_hang_unreported s h = ground arith

-- The second of two updates of a record whose reason is not a clean reboot, with two attempts left
-- below a limit that is less than 2 ^ 32, records a hang.
pub hang_reported :
    (s : SlotState)
    → s.last_reset_reason ≢ reason_clean_reboot
    → s.attempt_count + 2 ≤ limit_of s
    → limit_of s < 2 ^ 32
    → (boots 2 s).last_reset_reason ≡ reason_watchdog_or_hang
unfolding boots update_record try_fallback limit_of reset_reason
hang_reported s c h fits = ground arith
