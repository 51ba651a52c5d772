-- ===== src/Uart/Report.antt =====
-- What the runtimes report before they halt: `dhruva_oom_fatal` and `exit` of
-- boot/rpi1/runtime_stubs.c, and `dhruva_oom_fatal_rpi4` of boot/rpi4/runtime_stubs_rpi4.c. The loop
-- that halts follows each.
use Prim.Native.String.{String}
use dhruvaos.Base.{
  ℕ, ◌^◌, ◌≤◌, ◌<◌, ◌≡◌, refl, arith, Bool, true, false, some, List, ◌++◌, length, ltb,
  if◌then◌else◌, All,
}
use dhruvaos.Base.Action.{Action, ◌>>◌}
use dhruvaos.Heap.{heap_bytes}
use dhruvaos.Rpi4.{heap_bytes_rpi4}
use dhruvaos.Console
use dhruvaos.Console.Decimal.{read_decimal, IsDigit, Printed, put_unsigned-Printed}
use dhruvaos.Uart.{Bus, Port, port_rpi1, port_rpi4, putc_on, puts, put_u64, put_i64, literal, codes}
use dhruvaos.Uart.Numbers.{put_u64-Prints, put_i64-Prints}
use dhruvaos.Uart.Prints.{
  Prints, Prints-then, Drains, putc_on-Prints, puts-Prints, literal-HoldsString, is_text,
}

abbrev pub oom_head : String
oom_head = "\nFATAL: dhruva_alloc_bytes out of memory -- requested "

abbrev pub injected_tail : String
injected_tail =
    " already used. This is a DELIBERATELY INJECTED fault (dhruva_fault_inject_alloc_arm), not genuine exhaustion -- real heap space may still remain. Halting anyway, exactly as a real exhaustion would, to exercise this path's actual behavior.\n"

abbrev pub exhausted_tail : String
exhausted_tail =
    " already used. Halting -- heap_usage_self_test's own boot-time headroom check should have caught this before it ever reached here; if it fires here instead, some runtime code path is allocating far more than boot-time self-tests account for.\n"

abbrev pub exhausted_tail_rpi4 : String
exhausted_tail_rpi4 =
    " already used. Halting -- heap_usage_self_test_rpi4's own boot-time headroom check should have caught this before it ever reached here.\n"

module _ (answers : ℕ → ℕ → ℕ) (limit : ℕ) where
  -- A literal on a UART.
  unfoldable pub say : Port → String → Action Bus (Unit {0})
  say port s = puts (putc_on port answers limit) limit (literal s) 0

  -- The report of `dhruva_oom_fatal`.
  unfoldable pub dhruva_oom_fatal : ℕ → ℕ → Bool → Action Bus (Unit {0})
  dhruva_oom_fatal requested used injected =
      let put = put_u64 (putc_on port_rpi1 answers limit) in
      say port_rpi1 oom_head
      >> (put requested
          >> (say port_rpi1 " bytes, "
              >> (put used
                  >> (say port_rpi1 " of "
                      >> (put heap_bytes
                          >> (if injected
                              then say port_rpi1 injected_tail
                              else say port_rpi1 exhausted_tail))))))

  unfoldable pub dhruva_oom_fatal_rpi4 : ℕ → ℕ → Action Bus (Unit {0})
  dhruva_oom_fatal_rpi4 requested used =
      let put = put_i64 (putc_on port_rpi4 answers limit) in
      say port_rpi4 oom_head
      >> (put requested
          >> (say port_rpi4 " bytes, "
              >> (put used
                  >> (say port_rpi4 " of "
                      >> (put heap_bytes_rpi4 >> say port_rpi4 exhausted_tail_rpi4)))))

-- Some decimal numeral of `n`.
pub record Numeral (n : ℕ) : Type 0 where
  pub text : List ℕ
  pub value : read_decimal 0 text ≡ n
  pub digits : All IsDigit text

-- The report, with the numerals of its three numbers.
abbrev pub oom_text : List ℕ → List ℕ → List ℕ → String → List ℕ
oom_text requested used total tail =
    codes oom_head
    ++ (requested ++ (codes " bytes, " ++ (used ++ (codes " of " ++ (total ++ codes tail)))))

-- What is reported: the request, what was used, and the size of the heap.
pub record Reports (dr : ℕ) (m : Action Bus (Unit {0})) (requested used total : ℕ) (tail : String)
    : Type 0 where
  pub first : Numeral requested
  pub second : Numeral used
  pub third : Numeral total
  pub prints : Prints dr m (oom_text first.text second.text third.text tail)

module _ (port : Port) (answers : ℕ → ℕ → ℕ) (limit : ℕ)
    (drains : Drains answers port.fr limit) where
  pub say-Prints :
      (s : String)
      → is_text (codes s) ≡ true
      → length (codes s) < limit
      → Prints port.dr (say answers limit port s) (codes s)
  unfolding say
  say-Prints s h lt =
      puts-Prints (putc_on-Prints port answers limit drains) (literal s) (codes s) limit 0
        (literal-HoldsString (codes s) h) lt

  -- Three numbers between four literals.
  report-Reports :
      (put : ℕ → Action Bus (Unit {0})) (tail : String) (requested used total : ℕ)
      → ((n : ℕ) (q : Printed n) → n < 2 ^ 63 → Prints port.dr (put n) q.out)
      → requested < 2 ^ 63
      → used < 2 ^ 63
      → total < 2 ^ 63
      → is_text (codes tail) ≡ true
      → length (codes tail) < limit
      → 64 ≤ limit
      → Reports port.dr
          (say answers limit port oom_head
            >> (put requested
                >> (say answers limit port " bytes, "
                    >> (put used
                        >> (say answers limit port " of "
                            >> (put total >> say answers limit port tail))))))
          requested
          used
          total
          tail
  report-Reports put tail requested used total sends hq hu ht text lt enough =
      let q = put_unsigned-Printed requested (omega arith) in
      let u = put_unsigned-Printed used (omega arith) in
      let t = put_unsigned-Printed total (omega arith) in
      record {
        first = record { text = q.out; value = q.value; digits = q.digits };
        second = record { text = u.out; value = u.value; digits = u.digits };
        third = record { text = t.out; value = t.value; digits = t.digits };
        prints =
            Prints-then port.dr _ _ (codes oom_head) _ (say-Prints oom_head refl (omega arith)) (
              Prints-then port.dr _ _ q.out _ (sends requested q hq) (
                Prints-then port.dr _ _ (codes " bytes, ") _
                  (say-Prints " bytes, " refl (omega arith))
                  (Prints-then port.dr _ _ u.out _ (sends used u hu) (
                    Prints-then port.dr _ _ (codes " of ") _ (say-Prints " of " refl (omega arith))
                      (Prints-then port.dr _ _ t.out _ (sends total t ht)
                        (say-Prints tail text lt))))));
      }

put_i64_positive : (n : ℕ) (q : Printed n) → n < 2 ^ 63 → Console.put_i64 n ≡ some q.out
unfolding Console.put_i64
put_i64_positive n q h =
    let positive : ltb n (2 ^ 63) ≡ true = ground arith in rw (positive, q.result)

module _ (answers : ℕ → ℕ → ℕ) (limit : ℕ) (enough : 300 ≤ limit) where
  pub dhruva_oom_fatal-Reports :
      (requested used : ℕ) (injected : Bool)
      → Drains answers port_rpi1.fr limit
      → requested < 2 ^ 63
      → used < 2 ^ 63
      → Reports port_rpi1.dr
          (dhruva_oom_fatal answers limit requested used injected)
          requested
          used
          heap_bytes
          (if injected then injected_tail else exhausted_tail)
  unfolding dhruva_oom_fatal
  dhruva_oom_fatal-Reports requested used true drains hq hu =
      report-Reports port_rpi1 answers limit drains (put_u64 (putc_on port_rpi1 answers limit))
        injected_tail requested used heap_bytes
        (λ n q lt. put_u64-Prints (putc_on-Prints port_rpi1 answers limit drains) n q.out q.result)
        hq hu (omega arith) refl (omega arith) (omega arith)
  dhruva_oom_fatal-Reports requested used false drains hq hu =
      report-Reports port_rpi1 answers limit drains (put_u64 (putc_on port_rpi1 answers limit))
        exhausted_tail requested used heap_bytes
        (λ n q lt. put_u64-Prints (putc_on-Prints port_rpi1 answers limit drains) n q.out q.result)
        hq hu (omega arith) refl (omega arith) (omega arith)

  pub dhruva_oom_fatal_rpi4-Reports :
      (requested used : ℕ)
      → Drains answers port_rpi4.fr limit
      → requested < 2 ^ 63
      → used < 2 ^ 63
      → Reports port_rpi4.dr
          (dhruva_oom_fatal_rpi4 answers limit requested used)
          requested
          used
          heap_bytes_rpi4
          exhausted_tail_rpi4
  unfolding dhruva_oom_fatal_rpi4
  dhruva_oom_fatal_rpi4-Reports requested used drains hq hu =
      report-Reports port_rpi4 answers limit drains (put_i64 (putc_on port_rpi4 answers limit))
        exhausted_tail_rpi4 requested used heap_bytes_rpi4
        (λ n q lt.
          put_i64-Prints (putc_on-Prints port_rpi4 answers limit drains) n q.out
            (put_i64_positive n q lt))
        hq hu (omega arith) refl (omega arith) (omega arith)
