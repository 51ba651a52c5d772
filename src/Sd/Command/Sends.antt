-- ===== src/Sd/Command/Sends.antt =====
-- What a command puts on the bus.
use mathlib.Core.Path.{subst}
use dhruvaos.Base.{
  ℕ, ◌+◌, ◌^◌, ◌≤◌, ◌≡◌, ◌≢◌, ◌⊎◌, inl, inr, refl, Option, none, some, Bool, true, false, not, ◌&&◌,
  ◌||◌, List, [], ◌∷◌, ◌++◌, bit_and, ◌==◌, if◌then◌else◌, arith,
}
use dhruvaos.Base.Action.{
  Ensures, Ensures-pure, Ensures-if, Ensures-bind, Ensures-weaken, ◌>>=◌, ◌>>◌,
}
use dhruvaos.Sd.{
  Device, Driver, Io, Line, Transfer, loaded, stored, mmio_r, mmio_w, poll_for, print, sdcmd_addr,
  sdarg_addr, sdrsp0_addr, sdrsp1_addr, sdrsp2_addr, sdrsp3_addr, sdhsts_addr, sdedm_addr,
  sdhbct_addr, sdhblc_addr, cmd_timeout_us,
}
use dhruvaos.Sd.Access.{
  IsTimed, Moved, Moved-refl, Moved-trans, mmio_r-Ensures, mmio_w-Ensures, print-Ensures,
}
use dhruvaos.Sd.Poll.{BodyDone, poll_for-Ensures}
use dhruvaos.Sd.Command.Word.{word_of, command_word_lem}
use dhruvaos.Sd.Command.{
  Command, CmdResult, minus, failed, command_word, is_idle, command_done, clear_errors, set_sizes,
  read_long, read_short, read_response, fail_with, check_failure, complete, issue, start, send_cmd,
}

-- The sizes, if the command carries data.
abbrev pub sizes_of : Command → List Transfer
sizes_of c =
    if c.data_blksz == 0
    then []
    else Transfer.byte_count c.data_blksz ∷ Transfer.block_count c.data_blocks ∷ []

abbrev pub transfers_of : Command → List Transfer
transfers_of c = sizes_of c ++ Transfer.argument c.arg ∷ Transfer.command (word_of c) ∷ []

-- The whole command was sent, or it ended before anything was.
abbrev pub IsSent : {H : Type 0} → Command → Driver H → CmdResult → Driver H → Type 0
IsSent c s r t = Moved (transfers_of c) s t ⊎ (Moved [] s t × (r.err ≢ 0))

-- Steps of a block, with what they add to the bus.
module _ (dev : Device) {B : Type 0} {Q : B → Driver dev.Hardware → Type 0} where
  pub then_read :
      (addr : ℕ) (f : ℕ → Io dev B) (s : Driver dev.Hardware)
      → ((v : ℕ) (t : Driver dev.Hardware) → Moved (loaded addr v) s t → Ensures Q (f v t))
      → Ensures Q ((mmio_r dev addr >>= f) s)
  then_read addr f s k =
      Ensures-bind (mmio_r dev addr) f s (mmio_r-Ensures dev addr s) (λ v t h. k v t h.0)

  pub then_write :
      (addr v : ℕ) (m : Io dev B) (s : Driver dev.Hardware)
      → ((t : Driver dev.Hardware) → Moved (stored addr v) s t → Ensures Q (m t))
      → Ensures Q ((mmio_w dev addr v >> m) s)
  then_write addr v m s k =
      Ensures-bind (mmio_w dev addr v) _ s (mmio_w-Ensures dev addr v s) (λ u t h. k t h)

module _ (dev : Device) (timed : IsTimed dev) (fuel : ℕ) (enough : 10 ^ 9 ≤ fuel) where
  read_response-Ensures :
      (c : Command) (s : Driver dev.Hardware)
      → Ensures (λ r t. Moved [] s t) (read_response dev fuel c s)
  unfolding read_response read_long read_short
  read_response-Ensures c s =
      Ensures-if c.resp_present _ _ s
        (λ e.
          Ensures-if c.resp_136 _ _ s
            (λ e'. then_read dev sdrsp0_addr _ s (λ r0 s1 h1.
              then_read dev sdrsp1_addr _ s1 (λ r1 s2 h2.
                then_read dev sdrsp2_addr _ s2 (λ r2 s3 h3.
                  then_read dev sdrsp3_addr _ s3 (λ r3 s4 h4.
                    Ensures-pure _ s4 (Moved-trans h1 (Moved-trans h2 (Moved-trans h3 h4))))))))
            (λ e'. then_read dev sdrsp0_addr _ s (λ r0 s1 h1. Ensures-pure _ s1 h1)))
        (λ e. Ensures-pure _ s (Moved-refl s))

  fail_with-Ensures :
      (line : Line) (n : ℕ) (s : Driver dev.Hardware)
      → Ensures (λ r t. Moved [] s t × (r.err ≡ minus n)) (fail_with dev fuel line n s)
  fail_with-Ensures line n s =
      Ensures-bind (print dev line) _ s (print-Ensures dev line s)
        (λ u t h. Ensures-pure (failed (minus n)) t (h, refl))

  check_failure-Ensures :
      (c : Command) (s : Driver dev.Hardware)
      → Ensures (λ r t. Moved [] s t) (check_failure dev fuel c s)
  unfolding check_failure
  check_failure-Ensures c s = then_read dev sdhsts_addr _ s (λ v s1 h1.
      then_write dev sdhsts_addr 0xF8 _ s1 (λ s2 h2.
        let so_far = Moved-trans h1 h2 in
        Ensures-if ((c.allow_crc7_tolerance && not (bit_and v 0x10 == 0)) || c.ignore_fail_flag) _ _
          s2 (λ e. Ensures-weaken (read_response-Ensures c s2) (λ r t h. Moved-trans so_far h))
          (λ e. Ensures-weaken (fail_with-Ensures _ 2 s2) (λ r t h. Moved-trans so_far h.0))))

  complete-Ensures :
      (c : Command) (got : Option ℕ) (s : Driver dev.Hardware)
      → Ensures (λ r t. Moved [] s t) (complete dev fuel c got s)
  unfolding complete
  complete-Ensures c none s = Ensures-weaken (fail_with-Ensures _ 1 s) (λ r t h. h.0)
  complete-Ensures c (some sdcmd) s =
      Ensures-if (bit_and sdcmd 0x4000 == 0) _ _ s (λ e. read_response-Ensures c s)
        (λ e. check_failure-Ensures c s)

  found_if :
      (b : Bool) (v : ℕ) (s t : Driver dev.Hardware)
      → Moved [] s t
      → timed.clock s.hardware ≤ timed.clock t.hardware
      → timed.clock t.hardware ≤ timed.clock s.hardware + 10 ^ 12
      → BodyDone dev timed (λ w. Unit) s (if b then some v else none) t
  found_if true v s t moved later soon = (moved, tt)
  found_if false v s t moved later soon = (moved, later, soon)

  command_done-Ensures :
      (s : Driver dev.Hardware)
      → Ensures (BodyDone dev timed (λ w. Unit) s) (command_done dev fuel s)
  unfolding command_done
  command_done-Ensures s =
      Ensures-bind (mmio_r dev sdcmd_addr) _ s (mmio_r-Ensures dev sdcmd_addr s)
        (λ v t (moved, value, hardware). Ensures-pure _ t (
          found_if (bit_and v 0x8000 == 0) v s t moved
            (rw hardware (omega (arith, timed.read_later sdcmd_addr s.hardware)))
            (rw hardware (timed.read_soon sdcmd_addr s.hardware))))

  wait-Ensures :
      (s : Driver dev.Hardware)
      → Ensures (λ o t. Moved [] s t) (poll_for dev fuel cmd_timeout_us (command_done dev fuel) s)
  wait-Ensures s =
      Ensures-weaken
        (poll_for-Ensures dev timed (λ v. Unit) (command_done dev fuel) fuel cmd_timeout_us s
          command_done-Ensures (omega arith) (omega arith) (omega arith))
        (λ o t h. h.0)

  clear_errors-Ensures :
      (s : Driver dev.Hardware) → Ensures (λ u t. Moved [] s t) (clear_errors dev fuel s)
  unfolding clear_errors
  clear_errors-Ensures s = then_read dev sdhsts_addr _ s (λ v t h.
      Ensures-if (bit_and v 0xF8 == 0) _ _ t (λ e. Ensures-pure tt t h)
        (λ e. Ensures-weaken (mmio_w-Ensures dev sdhsts_addr v t) (λ u t' k. Moved-trans h k)))

  set_sizes-Ensures :
      (c : Command) (s : Driver dev.Hardware)
      → Ensures (λ u t. Moved (sizes_of c) s t) (set_sizes dev fuel c s)
  unfolding set_sizes
  set_sizes-Ensures c s =
      Ensures-if (c.data_blksz == 0) _ _ s (λ e. Ensures-pure tt s (rw e (Moved-refl s)))
        (λ e. then_write dev sdhbct_addr c.data_blksz _ s (λ t h.
          Ensures-weaken (mmio_w-Ensures dev sdhblc_addr c.data_blocks t)
            (λ u t' k. rw e (Moved-trans h k))))

  issue-Ensures :
      (c : Command) (got : Option ℕ) (s : Driver dev.Hardware)
      → Ensures (IsSent c s) (issue dev fuel c got s)
  unfolding issue
  issue-Ensures c none s =
      Ensures-weaken (fail_with-Ensures _ 1 s) (λ r t (h, e). inr (h, omega (arith, e)))
  issue-Ensures c (some previous) s =
      Ensures-bind (clear_errors dev fuel) _ s (clear_errors-Ensures s) (λ u s1 h1.
        Ensures-bind (set_sizes dev fuel c) _ s1 (set_sizes-Ensures c s1) (λ u s2 h2.
          then_write dev sdarg_addr c.arg _ s2 (λ s3 h3.
            then_write dev sdcmd_addr (command_word c) _ s3 (λ s4 h4.
              let h4' =
                subst (λ v. Moved (Transfer.command v ∷ []) s3 s4) (command_word_lem c) h4 in
              Ensures-bind (poll_for dev fuel cmd_timeout_us (command_done dev fuel)) _ s4
                (wait-Ensures s4)
                (λ got s5 h5. Ensures-weaken (complete-Ensures c got s5) (λ r t h6. inl (
                  Moved-trans h1
                    (Moved-trans h2 (Moved-trans h3 (Moved-trans h4' (Moved-trans h5 h6)))))))))))

  -- On timed hardware, with fuel of 10 ^ 9, `stage0_send_cmd` returns for every command. It has
  -- sent the whole command, which is the sizes if there is data, the argument, and the command word
  -- as the sum of its fields, or it has sent nothing and its error is not 0.
  pub send_cmd-IsSent :
      (c : Command) (s : Driver dev.Hardware) → Ensures (IsSent c s) (send_cmd dev fuel c s)
  unfolding send_cmd start
  send_cmd-IsSent c s = then_read dev sdedm_addr _ s (λ edm s1 h1.
      Ensures-if (is_idle edm) _ _ s1
        (λ e.
          Ensures-bind (poll_for dev fuel cmd_timeout_us (command_done dev fuel)) _ s1
            (wait-Ensures s1)
            (λ got s2 h2.
              Ensures-weaken (issue-Ensures c got s2) (λ r t. after (Moved-trans h1 h2) r t)))
        (λ e.
          Ensures-weaken (fail_with-Ensures _ 3 s1)
            (λ r t (h, e'). inr (Moved-trans h1 h, omega (arith, e')))))
    where
      after :
          {a b : Driver dev.Hardware}
          → Moved [] a b
          → (r : CmdResult) (t : Driver dev.Hardware) → IsSent c b r t
          → IsSent c a r t
      after h r t (inl k) = inl (Moved-trans h k)
      after h r t (inr (k, e)) = inr (Moved-trans h k, e)
