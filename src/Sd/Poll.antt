-- ===== src/Sd/Poll.antt =====
-- Loops that watch the timer, and `udelay_real`.
use dhruvaos.Base.{
  ℕ, zero, suc, ◌+◌, ◌-◌, ◌*◌, ◌/◌, ◌^◌, ◌<◌, ◌≤◌, ◌≡◌, refl, sym, ◌∙◌, Option, none, some, true,
  false, [], leb, arith, u32, sub_u32,
}
use dhruvaos.Base.Action.{Ensures, Ensures-pure, Ensures-if, Ensures-bind, Ensures-weaken, pure}
use dhruvaos.Sd.{
  Device, Driver, Io, mmio_r, elapsed_at_least, unless_late, poll, poll_for, udelay_real,
  timer_clo_addr,
}
use dhruvaos.Sd.Access.{IsTimed, Moved, Moved-refl, Moved-trans, mmio_r-Ensures}

-- What the wrapping subtraction says of two times that are not far apart.
not_late :
    (now start budget : ℕ)
    → start ≤ now
    → now / 1000 < start / 1000 + budget + 2 ^ 31
    → budget ≤ 1000000
    → leb budget (sub_u32 (u32 (now / 1000)) (u32 (start / 1000))) ≡ false
    → now / 1000 < start / 1000 + budget
not_late now start budget order near short early =
    let apart : sub_u32 (u32 (now / 1000)) (u32 (start / 1000)) ≡ now / 1000 - start / 1000 =
      omega arith in
    ground (arith, apart, early)

late_lem :
    (now start budget : ℕ)
    → start ≤ now
    → now / 1000 < start / 1000 + budget + 2 ^ 31
    → budget ≤ 1000000
    → leb budget (sub_u32 (u32 (now / 1000)) (u32 (start / 1000))) ≡ true
    → start / 1000 + budget ≤ now / 1000
late_lem now start budget order near short late =
    let apart : sub_u32 (u32 (now / 1000)) (u32 (start / 1000)) ≡ now / 1000 - start / 1000 =
      omega arith in
    ground (arith, apart, late)

module _ (dev : Device) (timed : IsTimed dev) where
  abbrev pub State : Type 0
  State = Driver dev.Hardware

  abbrev pub time : State → ℕ
  time s = timed.clock s.hardware

  -- What a loop was left with, or that the timer has moved on by the budget since `start`.
  abbrev pub Found : {A : Type 0} → (A → Type 0) → ℕ → ℕ → Option A → State → Type 0
  Found R start budget none t = start / 1000 + budget ≤ time t / 1000
  Found R start budget (some a) t = R a

  -- The timer, sampled at `s`.
  elapsed-Ensures :
      (t0 budget : ℕ) (s : State)
      → Ensures
          (λ late t.
            Moved [] s t
            × (late ≡ leb budget (sub_u32 (u32 (time s / 1000)) t0))
            × (time s < time t)
            × (time t ≤ time s + 10 ^ 12))
          (elapsed_at_least dev t0 budget s)
  unfolding elapsed_at_least
  elapsed-Ensures t0 budget s =
      Ensures-bind (mmio_r dev timer_clo_addr) _ s (mmio_r-Ensures dev timer_clo_addr s)
        (λ v t (moved, value, hardware). Ensures-pure _ t (
          moved,
          rw (value, timed.timer s.hardware) refl,
          rw hardware (timed.read_later timer_clo_addr s.hardware),
          rw hardware (timed.read_soon timer_clo_addr s.hardware),
        ))

  -- What a loop's body does: when it goes on, it takes less than 1000 seconds.
  abbrev pub BodyDone : {A : Type 0} → (A → Type 0) → State → Option A → State → Type 0
  BodyDone R s none t = Moved [] s t × (time s ≤ time t) × (time t ≤ time s + 10 ^ 12)
  BodyDone R s (some a) t = Moved [] s t × R a

  module _ {A : Type 0} (R : A → Type 0) (body : Io dev (Option A)) (start budget : ℕ)
      (works : (s : State) → Ensures (BodyDone R s) (body s)) (short : budget ≤ 1000000) where
    -- Time is left: the timer was sampled at `sampled`, which was not too late, and the next sample
    -- is not much later.
    record HasTime (fuel sampled : ℕ) (s : State) : Type 0 where
      after : sampled < time s
      soon : time s ≤ sampled + 10 ^ 12
      begun : start ≤ sampled
      early : sampled / 1000 < start / 1000 + budget
      fuelled : start + 1000 * budget ≤ sampled + fuel

    IsPolled : State → Option A → State → Type 0
    IsPolled s o t = Moved [] s t × Found R start budget o t

    turn :
        (fuel sampled : ℕ) (again : Io dev (Option A)) (s t : State) (o : Option A)
        → HasTime (suc fuel) sampled s
        → ((next : ℕ) (u : State) → HasTime fuel next u → Ensures (IsPolled u) (again u))
        → BodyDone R s o t
        → Ensures (IsPolled s) (unless_late dev (u32 (start / 1000)) budget again o t)
    unfolding IsPolled unless_late
    turn fuel sampled again s t (some x) has rest (moved, r) = Ensures-pure _ t (moved, r)
    turn fuel sampled again s t none has rest (moved, later, soon) =
        Ensures-bind (elapsed_at_least dev (u32 (start / 1000)) budget) _ t
          (elapsed-Ensures (u32 (start / 1000)) budget t)
          (λ late u (moved', value, later', soon').
            let both = Moved-trans moved moved' in
            Ensures-if late _ _ u
              (λ e.
                let is_late : leb budget (sub_u32 (u32 (time t / 1000)) (u32 (start / 1000)))
                    ≡ true =
                  sym value ∙ e in
                let passed =
                  late_lem (time t) start budget (omega (arith, has.begun, has.after, later))
                    (omega (arith, has.soon, has.early, soon)) short is_late in
                Ensures-pure none u (both, omega (arith, passed, later')))
              (λ e.
                let early : leb budget (sub_u32 (u32 (time t / 1000)) (u32 (start / 1000)))
                    ≡ false =
                  sym value ∙ e in
                let next : HasTime fuel (time t) u = record {
                  after = later';
                  soon = soon';
                  begun = omega (arith, has.begun, has.after);
                  early =
                      not_late (time t) start budget (omega (arith, has.begun, has.after))
                        (omega (arith, has.soon, has.early)) short early;
                  fuelled = omega (arith, has.fuelled, has.after);
                } in
                Ensures-weaken (rest (time t) u next)
                  (λ o' v (moved'', r). (Moved-trans both moved'', r))))

    poll-Ensures :
        (fuel sampled : ℕ) (s : State)
        → HasTime fuel sampled s
        → Ensures (IsPolled s) (poll dev fuel (u32 (start / 1000)) budget body s)
    unfolding poll
    poll-Ensures zero sampled s has = absurd (omega (arith, has.early, has.fuelled))
    poll-Ensures (suc fuel) sampled s has = Ensures-bind body _ s (works s) (λ o t done.
        turn fuel sampled (poll dev fuel (u32 (start / 1000)) budget body) s t o has
          (poll-Ensures fuel) done)

  -- On timed hardware a loop that watches the timer for a budget of at most a second ends, given
  -- fuel of 1000 for each microsecond of it, although the timer wraps, when each round of its body
  -- either finds something or goes on after at most 1000 seconds with nothing sent. It ends with
  -- what its body found, or after the budget has passed on the timer.
  pub poll_for-Ensures :
      {A : Type 0} (R : A → Type 0) (body : Io dev (Option A)) (fuel budget : ℕ) (s : State)
      → ((t : State) → Ensures (BodyDone R t) (body t))
      → 0 < budget
      → budget ≤ 1000000
      → 1000 * budget ≤ fuel
      → Ensures
          (λ o t. Moved [] s t × Found R (time s) budget o t)
          (poll_for dev fuel budget body s)
  unfolding poll_for IsPolled
  poll_for-Ensures R body fuel budget s works pos short fuelled =
      Ensures-bind (mmio_r dev timer_clo_addr) _ s (mmio_r-Ensures dev timer_clo_addr s)
        (λ v t (moved, value, hardware).
          let first : v ≡ u32 (time s / 1000) = value ∙ timed.timer s.hardware in
          let has : HasTime R body (time s) budget works short fuel (time s) t = record {
            after = rw hardware (timed.read_later timer_clo_addr s.hardware);
            soon = rw hardware (timed.read_soon timer_clo_addr s.hardware);
            begun = omega arith;
            early = omega arith;
            fuelled = omega arith;
          } in
          rw first (
            Ensures-weaken (poll-Ensures R body (time s) budget works short fuel (time s) t has)
              (λ o u (moved', r). (Moved-trans moved moved', r))))

  -- On timed hardware `udelay_real` returns for a wait of between a microsecond and a second, given
  -- fuel of 1000 for each microsecond; the timer has then moved on by at least that many
  -- microseconds, and nothing was sent.
  pub udelay_real-Ensures :
      (fuel us : ℕ) (s : State)
      → 0 < us
      → us ≤ 1000000
      → 1000 * us ≤ fuel
      → Ensures
          (λ u t. Moved [] s t × (time s / 1000 + us ≤ time t / 1000))
          (udelay_real dev fuel us s)
  unfolding udelay_real
  udelay_real-Ensures fuel us s pos short fuelled =
      Ensures-bind (poll_for dev fuel us (pure none)) _ s
        (poll_for-Ensures (λ (u : Unit {0}). ⊥) (pure none) fuel us s
          (λ t. Ensures-pure none t (Moved-refl t, omega arith, omega arith)) pos short fuelled)
        (λ o t (moved, r). Ensures-pure tt t (moved, waited o t s us r))
    where
      waited :
          (o : Option (Unit {0})) (t s : State) (us : ℕ)
          → Found (λ (u : Unit {0}). ⊥) (time s) us o t
          → time s / 1000 + us ≤ time t / 1000
      waited none t s us r = r
      waited (some u) t s us r = absurd r
