-- ===== src/Console/Format.antt =====
-- `dprintf` on the formats that the compiled code passes: a fixed text, and a text around one `%s`.
use dhruvaos.Base.{
  ℕ, zero, suc, ◌+◌, ◌≤◌, ◌≡◌, ◌≢◌, refl, some, List, [], ◌∷◌, ◌++◌, length, length-append, arith,
  ◌==◌, All, false,
}
use dhruvaos.Console.{Arg, put_string, directive, format, dprintf}

abbrev pub IsPlain : ℕ → Type 0
IsPlain c = c ≢ 37

not_percent : (c : ℕ) → IsPlain c → (c == 37) ≡ false
not_percent c h = ground arith

format-plain :
    (fuel : ℕ) (text : List ℕ) (args : List Arg)
    → All IsPlain text
    → length text ≤ fuel
    → format fuel text args ≡ some text
unfolding format
format-plain fuel [] args h le = refl
format-plain zero (c ∷ text) args h le = absurd (omega arith)
format-plain (suc fuel) (c ∷ []) args h le = refl
format-plain (suc fuel) (c ∷ d ∷ text) args (hc, h) le =
    rw (not_percent c hc, format-plain fuel (d ∷ text) args h (omega arith)) refl

-- A plain text before something else is printed, and uses one unit of fuel for each character.
format-before :
    (k : ℕ) (text : List ℕ) (d : ℕ) (rest : List ℕ) (args : List Arg) (out : List ℕ)
    → All IsPlain text
    → format k (d ∷ rest) args ≡ some out
    → format (length text + k) (text ++ d ∷ rest) args ≡ some (text ++ out)
unfolding format
format-before k [] d rest args out h e = let f : 0 + k ≡ k = omega arith in rw f e
format-before k (c ∷ []) d rest args out (hc, h) e =
    let f : 1 + k ≡ suc k = omega arith in rw (f, not_percent c hc, e) refl
format-before k (c ∷ c' ∷ text) d rest args out (hc, h) e =
    let f : suc (suc (length text)) + k ≡ suc (suc (length text) + k) = omega arith in
    rw (f, not_percent c hc, format-before k (c' ∷ text) d rest args out h e) refl

-- A format without `%` is printed as it is, whatever the arguments.
pub dprintf-plain :
    (text : List ℕ) (args : List Arg) → All IsPlain text → dprintf text args ≡ some text
unfolding dprintf
dprintf-plain text args h = format-plain (length text) text args h (omega arith)

string_directive :
    (k : ℕ) (post s : List ℕ) (args : List Arg)
    → All IsPlain post
    → length post ≤ k
    → format (suc k) (37 ∷ 115 ∷ post) (Arg.string s ∷ args) ≡ some (s ++ post)
unfolding format directive put_string
string_directive k post s args h le = rw (format-plain k post args h le) refl

-- A format that is a text without `%`, then `%s`, then a text without `%`, with a string as its
-- first argument, prints the first text, the string as it is, and the second text.
pub dprintf-string :
    (pre post s : List ℕ) (args : List Arg)
    → All IsPlain pre
    → All IsPlain post
    → dprintf (pre ++ 37 ∷ 115 ∷ post) (Arg.string s ∷ args) ≡ some (pre ++ (s ++ post))
unfolding dprintf
dprintf-string pre post s args hpre hpost =
    let f : length (pre ++ 37 ∷ 115 ∷ post) ≡ length pre + suc (suc (length post)) =
      omega (arith, length-append pre (37 ∷ 115 ∷ post)) in
    rw f (
      format-before (suc (suc (length post))) pre 37 (115 ∷ post) (Arg.string s ∷ args) (s ++ post)
        hpre (string_directive (suc (length post)) post s args hpost (omega arith)))
