-- ===== src/Sd/Init/Protocol.antt =====
-- `stage0_sd_init` as a whole: the commands that it sends.
use dhruvaos.Base.{
  ℕ, ◌/◌, ◌^◌, ◌<◌, ◌≤◌, ◌≡◌, inl, inr, refl, ◌∙◌, not, Option, none, some, List, [], ◌++◌, length,
  bit_and, ◌==◌, arith,
}
use dhruvaos.Base.Bits.{bit_and_low}
use dhruvaos.Base.Action.{Ensures, Ensures-pure, Ensures-bind, Ensures-weaken, modify, ◌>>=◌, ◌>>◌}
use dhruvaos.Sd.{Device, Driver, Io, mmio_w, sdhcfg_addr}
use dhruvaos.Sd.Access.{IsTimed, Moved, Moved-trans, mmio_w-Ensures}
use dhruvaos.Sd.Command.{CmdResult, minus}
use dhruvaos.Sd.Command.Sends.{transfers_of}
use dhruvaos.Sd.Init.{
  go_idle, send_if_cond, all_send_cid, send_relative_addr, send_csd, select_card, response_0,
  reset_and_ident_clock, get_core_clock_hz, set_data_clock, power_up, select, identify, powered,
  sd_init,
}
use dhruvaos.Sd.Init.Trace.{
  op_conds, selection, identification, protocol, IsCut, IsDone, IsIdentified, IsInitialised,
  IsBrokenOff, IsDone-map, before-IsIdentified, sent-IsCut, before-IsCut, more-IsCut,
}
use dhruvaos.Sd.Init.Quiet.{
  reset_transfers, reset_and_ident_clock-Ensures, get_core_clock_hz-Ensures, set_data_clock-Ensures,
}
use dhruvaos.Sd.Init.Tries.{then_checked, IsPowered, power_up-Ensures}

module _ (dev : Device) (timed : IsTimed dev) (fuel : ℕ) (enough : 10 ^ 9 ≤ fuel) where
  select-Ensures :
      (rca : ℕ) (s : Driver dev.Hardware)
      → Ensures
          (IsDone (λ t. Moved (selection rca) s t) (IsCut (selection rca) s))
          (select dev fuel rca s)
  unfolding select
  select-Ensures rca s =
      then_checked dev timed fuel enough (send_csd rca) (minus 6) _ s
        (λ r t sent. inr (
          6,
          omega arith,
          omega arith,
          refl,
          sent-IsCut (send_csd rca) (transfers_of (select_card rca)) s r t sent,
        ))
        (λ r s1 h1.
          then_checked dev timed fuel enough (select_card rca) (minus 7) _ s1
            (λ r' t sent. inr (
              7,
              omega arith,
              omega arith,
              refl,
              before-IsCut (transfers_of (send_csd rca)) (transfers_of (select_card rca)) s s1 t
                  h1.transfers (sent-IsCut (select_card rca) [] s1 r' t sent),
            ))
            (λ r' s2 h2.
              Ensures-bind (get_core_clock_hz dev fuel) _ s2
                (get_core_clock_hz-Ensures dev timed fuel enough s2)
                (λ hz s3 h3.
                  Ensures-bind (set_data_clock dev fuel hz) _ s3
                    (set_data_clock-Ensures dev timed fuel enough hz s3)
                    (λ u s4 h4.
                      Ensures-bind (mmio_w dev sdhcfg_addr 0x40A) _ s4
                        (mmio_w-Ensures dev sdhcfg_addr 0x40A s4)
                        (λ u t h5. Ensures-pure 0 t (
                          inl (
                            refl,
                            Moved-trans h1 (Moved-trans h2 (Moved-trans h3 (Moved-trans h4 h5))),
                          )))))))

  then_modify :
      {B : Type 0} {Q : B → Driver dev.Hardware → Type 0}
      (f : Driver dev.Hardware → Driver dev.Hardware) (m : Io dev B) (s : Driver dev.Hardware)
      → Ensures Q (m (f s))
      → Ensures Q ((modify f >> m) s)
  unfolding ◌>>=◌ modify
  then_modify f m s h = h

  abbrev IsRunning : Driver dev.Hardware → Driver dev.Hardware → Type 0
  IsRunning s t =
      (tries : ℕ) × (1 ≤ tries)
      × (tries ≤ 1001)
      × IsIdentified (λ rca. op_conds tries ++ identification rca) s t

  -- The same for a run that fails.
  abbrev IsUnidentified : Driver dev.Hardware → Driver dev.Hardware → Type 0
  IsUnidentified s t = (rca : ℕ) × IsCut (identification rca) s t

  abbrev IsStalled : Driver dev.Hardware → Driver dev.Hardware → Type 0
  IsStalled s t =
      (tries : ℕ) × (1 ≤ tries)
      × (tries ≤ 1001)
      × ((rca : ℕ) × IsCut (op_conds tries ++ identification rca) s t)

  selected :
      (rca : ℕ) (s t u : Driver dev.Hardware)
      → t.transfers ≡ s.transfers ++ (transfers_of all_send_cid ++ transfers_of send_relative_addr)
      → t.rca ≡ rca
      → rca < 2 ^ 16
      → Moved (selection rca) t u
      → IsIdentified identification s u
  selected rca s t u before here bound h =
      let same : u.rca ≡ rca = h.rca ∙ here in
      before-IsIdentified (transfers_of all_send_cid ++ transfers_of send_relative_addr) selection s
        t u before (rw same h.transfers, rw same bound)

  identify-Ensures :
      (s : Driver dev.Hardware)
      → Ensures (IsDone (IsIdentified identification s) (IsUnidentified s)) (identify dev fuel s)
  unfolding identify
  identify-Ensures s =
      then_checked dev timed fuel enough all_send_cid (minus 4) _ s
        (λ r t sent. inr (
          4,
          omega arith,
          omega arith,
          refl,
          (0, sent-IsCut all_send_cid (transfers_of send_relative_addr ++ selection 0) s r t sent),
        ))
        (λ r s1 h1.
          then_checked dev timed fuel enough send_relative_addr (minus 5) _ s1
            (λ r' t sent. inr (
              5,
              omega arith,
              omega arith,
              refl,
              (
                0,
                before-IsCut (transfers_of all_send_cid)
                    (transfers_of send_relative_addr ++ selection 0) s s1 t h1.transfers
                    (sent-IsCut send_relative_addr (selection 0) s1 r' t sent),
              ),
            ))
            (λ r' s2 h2.
              let rca = bit_and (response_0 r' / 2 ^ 16) 0xFFFF in
              let s3 = record s2 { rca = rca } in
              let bound : rca < 2 ^ 16 =
                rw (bit_and_low 16 0xFFFF (response_0 r' / 2 ^ 16) refl) (omega arith) in
              then_modify (λ d. record d { rca = rca }) _ s2
                (Ensures-weaken (select-Ensures rca s3) (λ code t.
                  IsDone-map {P = λ u. Moved (selection rca) s3 u} {F = IsCut (selection rca) s3}
                    {Q = IsIdentified identification s} {G = IsUnidentified s} code t
                    (λ u. selected rca s s3 u (Moved-trans h1 h2).transfers refl bound)
                    (λ u k. (
                      rca,
                      before-IsCut (transfers_of all_send_cid ++ transfers_of send_relative_addr)
                          (selection rca) s s3 u (Moved-trans h1 h2).transfers k,
                    ))))))

  powered-Ensures :
      (o : Option CmdResult) (s t : Driver dev.Hardware)
      → IsPowered dev timed fuel enough 1000 s o t
      → Ensures (IsDone (IsRunning s) (IsStalled s)) (powered dev fuel o t)
  unfolding powered
  powered-Ensures none s t (tries, some_tries, few, h) = Ensures-pure (minus 3) t (
      inr (
        3,
        omega arith,
        omega arith,
        refl,
        (tries, some_tries, few, (0, more-IsCut (op_conds tries) (identification 0) s t h)),
      ))
  powered-Ensures (some r) s t (tries, some_tries, few, h) =
      let t' = record t { is_sdhc = not (bit_and (response_0 r) 0x40000000 == 0) } in
      then_modify (λ d. record d { is_sdhc = not (bit_and (response_0 r) 0x40000000 == 0) }) _ t
        (Ensures-weaken (identify-Ensures t') (λ code u.
          IsDone-map {P = IsIdentified identification t'} {F = IsUnidentified t'} {Q = IsRunning s}
            {G = IsStalled s} code u
            (λ v k. (
              tries,
              some_tries,
              few,
              before-IsIdentified (op_conds tries) identification s t' v h.transfers k,
            ))
            (λ v (rca, k). (
              tries,
              some_tries,
              few,
              (rca, before-IsCut (op_conds tries) (identification rca) s t' v h.transfers k),
            ))))

  opened :
      (junk : List ℕ) (tries : ℕ) (s s1 s3 t : Driver dev.Hardware)
      → Moved (reset_transfers junk) s s1
      → Moved (transfers_of go_idle ++ transfers_of send_if_cond) s1 s3
      → IsIdentified (λ rca. op_conds tries ++ identification rca) s3 t
      → IsIdentified (protocol junk tries) s t
  opened junk tries s s1 s3 t h k l =
      let ts = λ (rca : ℕ). op_conds tries ++ identification rca in
      let openers = transfers_of go_idle ++ transfers_of send_if_cond in
      before-IsIdentified (reset_transfers junk) (λ rca. openers ++ ts rca) s s1 t h.transfers
        (before-IsIdentified openers ts s1 s3 t k.transfers l)

  join_openers :
      (junk : List ℕ) (tries rca : ℕ) (s s1 s3 t : Driver dev.Hardware)
      → Moved (reset_transfers junk) s s1
      → Moved (transfers_of go_idle ++ transfers_of send_if_cond) s1 s3
      → IsCut (op_conds tries ++ identification rca) s3 t
      → IsCut (protocol junk tries rca) s t
  join_openers junk tries rca s s1 s3 t h k l =
      let ts = op_conds tries ++ identification rca in
      let openers = transfers_of go_idle ++ transfers_of send_if_cond in
      before-IsCut (reset_transfers junk) (openers ++ ts) s s1 t h.transfers
        (before-IsCut openers ts s1 s3 t k.transfers l)

  -- A run that fails at one of the first two commands.
  broken_off :
      (junk : List ℕ) (s s1 t : Driver dev.Hardware)
      → length junk ≤ 1000
      → Moved (reset_transfers junk) s s1
      → IsCut
          (transfers_of go_idle ++ (transfers_of send_if_cond ++ (op_conds 1 ++ identification 0)))
          s1
          t
      → IsBrokenOff s t
  broken_off junk s s1 t size h k =
      let ts =
        transfers_of go_idle ++ (transfers_of send_if_cond ++ (op_conds 1 ++ identification 0)) in
      (
        junk,
        1,
        0,
        size,
        omega arith,
        omega arith,
        before-IsCut (reset_transfers junk) ts s s1 t h.transfers k,
      )

  -- On timed hardware, with fuel of 10 ^ 9, `stage0_sd_init` returns: a code from -1 to -7, or 0.
  -- On 0 it has dropped at most 1000 words from the FIFO and set both sizes to 0, and the commands
  -- on the bus are CMD0, CMD8, between 1 and 1001 pairs of CMD55 and ACMD41, CMD2, CMD3, and CMD9
  -- and CMD7 for the 16-bit address that is kept, in this order, each behind its argument. With a
  -- code, what is on the bus is a first part of what such a run sends.
  pub sd_init-IsInitialised :
      (s : Driver dev.Hardware)
      → Ensures (IsDone (IsInitialised s) (IsBrokenOff s)) (sd_init dev fuel s)
  unfolding sd_init
  sd_init-IsInitialised s =
      Ensures-bind (reset_and_ident_clock dev fuel) _ s
        (reset_and_ident_clock-Ensures dev timed fuel enough s)
        (λ u s1 (junk, size, h1).
          then_checked dev timed fuel enough go_idle (minus 1) _ s1
            (λ r t sent. inr (
              1,
              omega arith,
              omega arith,
              refl,
              broken_off junk s s1 t size h1 (
                  sent-IsCut go_idle (transfers_of send_if_cond ++ (op_conds 1 ++ identification 0))
                    s1 r t sent),
            ))
            (λ r s2 h2.
              then_checked dev timed fuel enough send_if_cond (minus 2) _ s2
                (λ r' t sent. inr (
                  2,
                  omega arith,
                  omega arith,
                  refl,
                  broken_off junk s s1 t size h1 (
                      before-IsCut (transfers_of go_idle)
                        (transfers_of send_if_cond ++ (op_conds 1 ++ identification 0)) s1 s2 t
                        h2.transfers
                        (sent-IsCut send_if_cond (op_conds 1 ++ identification 0) s2 r' t sent)),
                ))
                (λ r' s3 h3.
                  Ensures-bind (power_up dev fuel 1000) _ s3
                    (power_up-Ensures dev timed fuel enough 1000 s3)
                    (λ o s4 p. Ensures-weaken (powered-Ensures o s3 s4 p) (λ code t.
                      IsDone-map {P = IsRunning s3} {F = IsStalled s3} {Q = IsInitialised s}
                        {G = IsBrokenOff s} code t
                        (λ v (tries, some_tries, few, k). (
                          junk,
                          tries,
                          size,
                          some_tries,
                          few,
                          opened junk tries s s1 s3 v h1 (Moved-trans h2 h3) k,
                        ))
                        (λ v (tries, some_tries, few, (rca, k)). (
                          junk,
                          tries,
                          rca,
                          size,
                          some_tries,
                          few,
                          join_openers junk tries rca s s1 s3 v h1 (Moved-trans h2 h3) k,
                        )))))))
