-- ===== src/Sd/Init/Trace.antt =====
-- What an initialization puts on the bus, and a first part of it.
use dhruvaos.Base.{
  ℕ, zero, suc, ◌^◌, ◌<◌, ◌≤◌, ◌≡◌, ◌⊎◌, inl, inr, refl, ap, sym, ◌∙◌, List, [], ◌++◌, append_assoc,
  length,
}
use dhruvaos.Sd.{Driver, Transfer}
use dhruvaos.Sd.Command.{Command, CmdResult, minus}
use dhruvaos.Sd.Command.Sends.{transfers_of, IsSent}
use dhruvaos.Sd.Init.{
  go_idle, send_if_cond, app_cmd, send_op_cond, all_send_cid, send_relative_addr, send_csd,
  select_card,
}
use dhruvaos.Sd.Init.Quiet.{reset_transfers}

-- CMD55 and ACMD41, `tries` times.
unfoldable pub op_conds : ℕ → List Transfer
op_conds zero = []
op_conds (suc tries) = (transfers_of app_cmd ++ transfers_of send_op_cond) ++ op_conds tries

-- CMD9 and CMD7, for the card at `rca`.
abbrev pub selection : ℕ → List Transfer
selection rca = transfers_of (send_csd rca) ++ transfers_of (select_card rca)

abbrev pub identification : ℕ → List Transfer
identification rca = transfers_of all_send_cid ++ (transfers_of send_relative_addr ++ selection rca)

-- What an initialization that succeeds puts on the bus.
abbrev pub protocol : List ℕ → ℕ → ℕ → List Transfer
protocol junk tries rca =
    reset_transfers junk
    ++ (transfers_of go_idle
        ++ (transfers_of send_if_cond ++ (op_conds tries ++ identification rca)))

-- A first part of `ts` was sent.
abbrev pub IsCut : {H : Type 0} → List Transfer → Driver H → Driver H → Type 0
IsCut ts s t =
    (sent : List Transfer) × (rest : List Transfer) × (sent ++ rest ≡ ts)
    × (t.transfers ≡ s.transfers ++ sent)

-- 0 with `P`, or one of the codes -1 to -7 with `F`.
abbrev pub IsDone : {H : Type 0} → (Driver H → Type 0) → (Driver H → Type 0) → ℕ → Driver H → Type 0
IsDone P F r t =
    ((r ≡ 0) × P t) ⊎ ((stage : ℕ) × (1 ≤ stage) × (stage ≤ 7) × (r ≡ minus stage) × F t)

-- The transfers of a card that is at the address it has told.
abbrev pub IsIdentified : {H : Type 0} → (ℕ → List Transfer) → Driver H → Driver H → Type 0
IsIdentified ts s t = (t.transfers ≡ s.transfers ++ ts t.rca) × (t.rca < 2 ^ 16)

-- What a successful run of `stage0_sd_init` has done.
abbrev pub IsInitialised : {H : Type 0} → Driver H → Driver H → Type 0
IsInitialised s t =
    (junk : List ℕ) × (tries : ℕ) × (length junk ≤ 1000)
    × (1 ≤ tries)
    × (tries ≤ 1001)
    × IsIdentified (protocol junk tries) s t

-- A run that fails has sent a first part of what a run that succeeds sends.
abbrev pub IsBrokenOff : {H : Type 0} → Driver H → Driver H → Type 0
IsBrokenOff s t =
    (junk : List ℕ) × (tries : ℕ) × (rca : ℕ) × (length junk ≤ 1000)
    × (1 ≤ tries)
    × (tries ≤ 1001)
    × IsCut (protocol junk tries rca) s t

pub IsDone-map :
    {H : Type 0} {P F Q G : Driver H → Type 0} (r : ℕ) (t : Driver H)
    → ((u : Driver H) → P u → Q u)
    → ((u : Driver H) → F u → G u)
    → IsDone P F r t
    → IsDone Q G r t
IsDone-map r t f g (inl (e, p)) = inl (e, f t p)
IsDone-map r t f g (inr (stage, low, high, e, p)) = inr (stage, low, high, e, g t p)

pub before-IsIdentified :
    {H : Type 0} (pre : List Transfer) (ts : ℕ → List Transfer) (s t u : Driver H)
    → t.transfers ≡ s.transfers ++ pre
    → IsIdentified ts t u
    → IsIdentified (λ rca. pre ++ ts rca) s u
before-IsIdentified pre ts s t u h (e, bound) =
    (e ∙ (ap (λ xs. xs ++ ts u.rca) h ∙ append_assoc s.transfers pre (ts u.rca)), bound)

pub sent-IsCut :
    {H : Type 0} (c : Command) (more : List Transfer) (s : Driver H) (r : CmdResult) (t : Driver H)
    → IsSent c s r t
    → IsCut (transfers_of c ++ more) s t
sent-IsCut c more s r t (inl h) = (transfers_of c, more, refl, h.transfers)
sent-IsCut c more s r t (inr (h, e)) = ([], transfers_of c ++ more, refl, h.transfers)

pub before-IsCut :
    {H : Type 0} (pre ts : List Transfer) (s t u : Driver H)
    → t.transfers ≡ s.transfers ++ pre
    → IsCut ts t u
    → IsCut (pre ++ ts) s u
before-IsCut pre ts s t u h (sent, rest, e, e') = (
  pre ++ sent,
  rest,
  append_assoc pre sent rest ∙ ap (λ xs. pre ++ xs) e,
  e' ∙ (ap (λ xs. xs ++ sent) h ∙ append_assoc s.transfers pre sent),
)

pub more-IsCut :
    {H : Type 0} (ts us : List Transfer) (s t : Driver H) → IsCut ts s t → IsCut (ts ++ us) s t
more-IsCut ts us s t (sent, rest, e, e') =
    (sent, rest ++ us, sym (append_assoc sent rest us) ∙ ap (λ xs. xs ++ us) e, e')
