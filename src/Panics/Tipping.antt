-- ===== src/Panics/Tipping.antt =====
-- The panics of `tip`.
use stellar_tip_contract.Base.{
  ℕ, ◌+◌, ltb, ℤ, pos, ◌+ℤ◌, ◌-ℤ◌, ◌*ℤ◌, ltb_ℤ, ◌≡◌, refl, true, not, ◌&&◌, Option, none, some,
  is_some, ⊤, Bool-cases, Option-cases, inl, inr, unwrap_or, if◌then◌else◌, arith,
}
use stellar_tip_contract.Host.{Host, MapLaws, Address, Text}
use stellar_tip_contract.Types.{TipError, Panic, Tip, overflow, token_error}
use stellar_tip_contract.Env.{
  Env, Action, ◌>>=◌, panic_if, token_transfer, fits_i128, fits_u64, ok, panic,
}
use stellar_tip_contract.Env.Runs.{
  Runs, stop, stop_checked, go_gets, go_then, go_or_panic, go_persistent, go_extend, ends_publish,
  ends_transfer, ends_checked,
}
use stellar_tip_contract.Env.Decides.{
  Decided, first_panic, decides, decide_pure, decide_test, decide_on, decide_gets, decide_if,
}
use stellar_tip_contract.Contract.{
  Call, tip, settle, fee_of, forward_fee, credit_balance, record_tip, get_admin, get_balance,
  get_tip_count, get_fee_percentage, get_fee_recipient, get_max_tips_per_creator,
  get_min_tip_amount, is_creator,
}
use stellar_tip_contract.Outcome.Common.{extended}
use stellar_tip_contract.Outcome.Tipping.{fee_amount, after_credit, after_record}
use stellar_tip_contract.Fees.{fee_bounds}
use stellar_tip_contract.System.Config.{ConfigValid}
use stellar_tip_contract.Liveness.Tipping.{
  between_fits, fee_of-Runs, forward-Runs, credit-Runs, track-Runs, record-Runs,
}
use stellar_tip_contract.Panics.Listed.{tests, after_fee}
use stellar_tip_contract.Panics.Common.{user-Decided}

module _ {h : Host} where
  forward_panics :
      (token recipient : Address) (fee : ℤ) (e : Env h)
      → (if ltb_ℤ (pos 0) fee
          then h.transfer e.ledger token e.current_contract_address recipient fee
          else some e.ledger)
        ≡ none
      → Runs (forward_fee token (some recipient) fee) e (panic token_error)
  unfolding forward_fee token_transfer
  forward_panics token recipient fee e fails = elim (Bool-cases (ltb_ℤ (pos 0) fee)) [
    | inl some_fee ↦ go_then _ _ _ some_fee (
        go_or_panic _ _ _ refl
          (go_gets _ _ (record { ends = rw (rw some_fee at fails, token_transfer) refl })))
    | inr no_fee ↦ cc (rw no_fee at fails)
  ]

module _ {h : Host} {B : Type 0} where
  fee-Decided :
      (amount : ℤ) (fee_bps : ℕ) (f : ℤ → Action h B) (e : Env h) (o : Option Panic)
      → fits_i128 (fee_amount amount fee_bps) ≡ true
      → Decided (f (fee_amount amount fee_bps)) e o
      → Decided
          (fee_of amount fee_bps >>= f)
          e
          (if not (fits_i128 (amount *ℤ pos fee_bps)) then some overflow else o)
  unfolding fee_of
  fee-Decided amount fee_bps f e o fits d =
      decide_test _ overflow o (λ p. stop _ _ (stop_checked _ _ _ (ground (arith, p))))
        (λ p. decide_on _ _ o (fee_of-Runs amount fee_bps e (ground (arith, p)) fits) d)

  forward-Decided :
      (token : Address) (opt : Option Address) (fee : ℤ) (f : ⊤ → Action h B) (e : Env h)
      (o : Option Panic)
      → is_some opt ≡ true
      → ((l : h.Ledger) → Decided (f tt) (record e { ledger = l }) o)
      → Decided (forward_fee token opt fee >>= f) e (
          if not (is_some (after_fee h token e.current_contract_address opt fee (some e.ledger)))
          then some token_error
          else o)
  forward-Decided token none fee f e o set k = cc set
  forward-Decided token (some recipient) fee f e o set k =
      let sent =
        if ltb_ℤ (pos 0) fee
        then h.transfer e.ledger token e.current_contract_address recipient fee
        else some e.ledger in
      elim (Option-cases sent) [
        | inl fails ↦ rw fails (
            decide_test true _ o (λ _. stop _ _ (forward_panics token recipient fee e fails))
              (λ p. cc p))
        | inr (l, done) ↦ rw done (
            decide_on _ _ o (forward-Runs token recipient (some recipient) fee e l refl done) (k l))
      ]

  credit-Decided :
      (creator token : Address) (amount : ℤ) (f : ⊤ → Action h B) (e : Env h) (o : Option Panic)
      → let balance = unwrap_or (e.pers.balance creator token) (pos 0) +ℤ amount in
        Decided (f tt) (after_credit creator token balance e) o
        → Decided
            (credit_balance creator token amount >>= f)
            e
            (if not (fits_i128 balance) then some overflow else o)
  unfolding credit_balance
  credit-Decided creator token amount f e o d =
      decide_test _ overflow o
        (λ p. stop _ _ (go_gets _ _ (stop_checked _ _ _ (ground (arith, p)))))
        (λ p. decide_on _ _ o (credit-Runs creator token amount e (ground (arith, p))) d)

  record-Decided :
      (creator : Address) (index : ℕ) (t : Tip) (f : ⊤ → Action h B) (e : Env h) (o : Option Panic)
      → Decided (f tt) (after_record creator index t e) o
      → Decided
          (record_tip creator index t >>= f)
          e
          (if not (fits_u64 (index + 1)) then some overflow else o)
  unfolding record_tip
  record-Decided creator index t f e o d =
      decide_test _ overflow o
        (λ p. stop _ _ (
          go_persistent _ _
            (go_extend _ _ (ground arith) (stop_checked _ _ _ (ground (arith, p))))))
        (λ p. decide_on _ _ o (record-Runs creator index t e (ground (arith, p))) d)

  pay-Decided :
      (token from : Address) (amount : ℤ) (opt : Option Address) (fee : ℤ) (f : ⊤ → Action h B)
      (e : Env h) (o : Option Panic)
      → is_some opt ≡ true
      → ((l : h.Ledger) → Decided (f tt) (record e { ledger = l }) o)
      → let contract = e.current_contract_address in
        let paid = h.transfer e.ledger token from contract amount in
        Decided
          (token_transfer token from contract amount >>= λ _. forward_fee token opt fee >>= f)
          e
          (if not (is_some (after_fee h token contract opt fee paid)) then some token_error else o)
  unfolding token_transfer
  pay-Decided token from amount opt fee f e o set k =
      let contract = e.current_contract_address in
      elim (Option-cases (h.transfer e.ledger token from contract amount)) [
        | inl fails ↦ rw fails (
            decide_test true _ o (λ _. stop _ _ (record { ends = rw (fails, token_transfer) refl }))
              (λ p. cc p))
        | inr (l, moves) ↦ rw moves (
            decide_on _ _ _ (ends_transfer _ _ _ _ moves)
              (forward-Decided token opt fee f (record e { ledger = l }) o set k))
      ]

module _ {h : Host} where
  settle-Decided :
      (from creator token : Address) (amount : ℤ) (message : Text) (fee creator_amount : ℤ)
      (opt : Option Address) (index : ℕ) (e : Env h)
      → MapLaws h
      → is_some opt ≡ true
      → let contract = e.current_contract_address in
        let paid = h.transfer e.ledger token from contract amount in
        Decided (settle from creator token amount message fee creator_amount opt index) e (
          if not (is_some (after_fee h token contract opt fee paid))
          then some token_error
          else (if not
                (fits_i128 (unwrap_or (e.pers.balance creator token) (pos 0) +ℤ creator_amount))
              then some overflow
              else (if not (fits_u64 (index + 1)) then some overflow else none)))
  unfolding settle
  settle-Decided from creator token amount message fee creator_amount opt index e maps set =
      decide_gets _ _ _ (
        pay-Decided token from amount opt fee _ e _ set λ l.
          credit-Decided creator token creator_amount _ _ _ (
            decide_on _ _ _ (track-Runs _ _ _ maps) (
              decide_gets _ _ _
                (record-Decided creator index _ _ _ _ (decides (ends_publish _ _ _))))))

  recipient_passes :
      (fee_bps : ℕ) (opt : Option Address) (e : Env h)
      → is_some opt ≡ true
      → Runs
          (panic_if (ltb 0 fee_bps && not (is_some opt)) TipError.fee_recipient_not_set)
          e
          (ok (tt, e))
  unfolding panic_if
  recipient_passes fee_bps opt e set = record { ends = rw set (ground arith) }

module _ {h : Host} (maps : MapLaws h) where
  pub tip-Decided :
      (from creator token : Address) (amount : ℤ) (message : Text) (e : Env h)
      → ConfigValid e
      → fits_i128 amount ≡ true
      → Decided
          (tip from creator token amount message)
          e
          (first_panic (tests (Call.tip from creator token amount message) e))
  unfolding tip get_admin get_balance get_tip_count get_fee_percentage get_fee_recipient
      get_max_tips_per_creator get_min_tip_amount is_creator
  tip-Decided from creator token amount message e v typed =
      let fee_bps = unwrap_or e.inst.fee_bps 0 in
      let fee = fee_amount amount fee_bps in
      user-Decided from _ e _ λ open₁.
        let set : is_some e.inst.fee_recipient ≡ true = v.complete (ground (arith, open₁)) in
        decide_if _ _ _ _ λ positive.
          let bounds = fee_bounds amount fee_bps positive v.fee_range in
          let fits = between_fits fee amount bounds.0 bounds.1 typed in
          decide_gets _ _ _ (
            decide_if _ _ _ _ λ _. decide_gets _ _ _ (
              decide_if _ _ _ _ λ _. decide_gets _ _ _ (
                decide_gets _ _ _ (
                  decide_if _ _ _ _ λ _. decide_gets _ _ _ (
                    fee-Decided amount fee_bps _ _ _ fits.0 (
                      decide_on _ _ _ (ends_checked _ _ fits.1) (
                        decide_gets _ _ _ (
                          decide_on _ _ _
                            (recipient_passes fee_bps e.inst.fee_recipient (extended e) set)
                            (decide_pure _ _ _ (
                              settle-Decided from creator token amount message fee (amount -ℤ fee)
                                e.inst.fee_recipient (unwrap_or (e.pers.tip_count creator) 0)
                                (extended e) maps set))))))))))
