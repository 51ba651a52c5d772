-- ===== src/Sd/Init/Tries.antt =====
-- The tries of CMD55 and ACMD41, and a command that may end the initialization.
use mathlib.Core.Path.{subst}
use dhruvaos.Base.{
  ℕ, zero, suc, ◌+◌, ◌^◌, ◌≤◌, sym, Option, none, some, [], ◌++◌, append-nil, bit_and, ◌==◌, arith,
}
use dhruvaos.Base.Action.{Ensures, Ensures-pure, Ensures-if, Ensures-bind, Ensures-weaken}
use dhruvaos.Sd.{Device, Driver, Io}
use dhruvaos.Sd.Access.{IsTimed, Moved, Moved-trans}
use dhruvaos.Sd.Command.{Command, CmdResult, send_cmd}
use dhruvaos.Sd.Command.Sends.{transfers_of, IsSent, send_cmd-IsSent}
use dhruvaos.Sd.Block.Reads.{IsSent-Moved}
use dhruvaos.Sd.Init.{app_cmd, send_op_cond, response_0, checked, op_cond, unless_ready, power_up}
use dhruvaos.Sd.Init.Trace.{op_conds, IsCut, sent-IsCut, before-IsCut, more-IsCut}
use dhruvaos.Sd.Init.Quiet.{then_delay}

module _ (dev : Device) (timed : IsTimed dev) (fuel : ℕ) (enough : 10 ^ 9 ≤ fuel) where
  -- A command that may end the initialization.
  pub then_checked :
      {A : Type 0} {Q : A → Driver dev.Hardware → Type 0} (c : Command) (bad : A)
      (next : CmdResult → Io dev A) (s : Driver dev.Hardware)
      → ((r : CmdResult) (t : Driver dev.Hardware) → IsSent c s r t → Q bad t)
      → ((r : CmdResult) (t : Driver dev.Hardware)
          → Moved (transfers_of c) s t
          → Ensures Q (next r t))
      → Ensures Q (checked dev fuel c bad next s)
  then_checked c bad next s stop go =
      Ensures-bind (send_cmd dev fuel c) _ s (send_cmd-IsSent dev timed fuel enough c s)
        (λ r t sent.
          Ensures-if (r.err == 0) _ _ t (λ e. go r t (IsSent-Moved c s r t sent e))
            (λ e. Ensures-pure bad t (stop r t sent)))

  abbrev IsTried : Driver dev.Hardware → Option CmdResult → Driver dev.Hardware → Type 0
  IsTried s none t = IsCut (transfers_of app_cmd ++ transfers_of send_op_cond) s t
  IsTried s (some r) t = Moved (transfers_of app_cmd ++ transfers_of send_op_cond) s t

  op_cond-Ensures : (s : Driver dev.Hardware) → Ensures (IsTried s) (op_cond dev fuel s)
  unfolding op_cond
  op_cond-Ensures s =
      then_checked app_cmd none _ s
        (λ r t sent. sent-IsCut app_cmd (transfers_of send_op_cond) s r t sent)
        (λ r t h.
          then_checked send_op_cond none _ t
            (λ r' u sent.
              before-IsCut (transfers_of app_cmd) (transfers_of send_op_cond) s t u h.transfers
                (sent-IsCut send_op_cond [] t r' u sent))
            (λ r' u k. Ensures-pure (some r') u (Moved-trans h k)))

  abbrev pub IsPowered : ℕ → Driver dev.Hardware → Option CmdResult → Driver dev.Hardware → Type 0
  IsPowered retry s none t =
      (tries : ℕ) × (1 ≤ tries) × (tries ≤ retry + 1) × IsCut (op_conds tries) s t
  IsPowered retry s (some r) t =
      (tries : ℕ) × (1 ≤ tries) × (tries ≤ retry + 1) × Moved (op_conds tries) s t

  once :
      (retry : ℕ) (s t : Driver dev.Hardware) (o : Option CmdResult)
      → IsTried s o t
      → IsPowered retry s o t
  unfolding op_conds
  once retry s t none h = (
    1,
    omega arith,
    omega arith,
    more-IsCut (transfers_of app_cmd ++ transfers_of send_op_cond) [] s t h,
  )
  once retry s t (some r) h =
      (1, omega arith, omega arith, subst (λ ts. Moved ts s t) (sym (append-nil _)) h)

  again-IsPowered :
      (retry : ℕ) (s t : Driver dev.Hardware) (o : Option CmdResult) (u : Driver dev.Hardware)
      → Moved (transfers_of app_cmd ++ transfers_of send_op_cond) s t
      → IsPowered retry t o u
      → IsPowered (suc retry) s o u
  unfolding op_conds
  again-IsPowered retry s t none u h (tries, some_tries, few, k) = (
    suc tries,
    omega arith,
    omega (arith, few),
    before-IsCut (transfers_of app_cmd ++ transfers_of send_op_cond) (op_conds tries) s t u
        h.transfers k,
  )
  again-IsPowered retry s t (some r) u h (tries, some_tries, few, k) =
      (suc tries, omega arith, omega (arith, few), Moved-trans h k)

  unless_ready-Ensures :
      (retry : ℕ) (again : Io dev (Option CmdResult)) (o : Option CmdResult)
      (s t : Driver dev.Hardware)
      → IsTried s o t
      → ((u : Driver dev.Hardware) → Ensures (IsPowered retry u) (again u))
      → Ensures (IsPowered (suc retry) s) (unless_ready dev fuel again o t)
  unfolding unless_ready
  unless_ready-Ensures retry again none s t h rest =
      Ensures-pure none t (once (suc retry) s t none h)
  unless_ready-Ensures retry again (some r) s t h rest =
      Ensures-if (bit_and (response_0 r) 0x80000000 == 0) _ _ t
        (λ e. then_delay dev timed fuel enough 1000 again t (omega arith) (omega arith) (λ u k.
          Ensures-weaken (rest u) (λ o v p.
            again-IsPowered retry s u o v
              (subst (λ ts. Moved ts s u) (append-nil _) (Moved-trans h k)) p)))
        (λ e. Ensures-pure (some r) t (once (suc retry) s t (some r) h))

  pub power_up-Ensures :
      (retry : ℕ) (s : Driver dev.Hardware)
      → Ensures (IsPowered retry s) (power_up dev fuel retry s)
  unfolding power_up
  power_up-Ensures zero s = Ensures-weaken (op_cond-Ensures s) (λ o t h. once 0 s t o h)
  power_up-Ensures (suc retry) s = Ensures-bind (op_cond dev fuel) _ s (op_cond-Ensures s) (λ o t h.
      unless_ready-Ensures retry (power_up dev fuel retry) o s t h (power_up-Ensures retry))
