-- ===== src/Liveness/Payments.antt =====
-- Tips that the sender can pay (`tip` of src/lib.rs).
use stellar_tip_contract.Base.{
  ◌+◌, ltb, leb, ℤ, pos, ◌+ℤ◌, ◌-ℤ◌, ◌*ℤ◌, ◌≤ℤ◌, ltb_ℤ, leb_ℤ, ◌==◌, ◌&&◌, ◌≡◌, refl, ◌∙◌, Bool,
  true, false, some, [], ◌∷◌, unwrap_or, if◌then◌else◌, Bool-cases, inl, inr, arith, int_laws,
}
use stellar_tip_contract.Host.{Host, MapLaws, TokenLaws, Address, Text}
use stellar_tip_contract.Env.{Env, ok, fits_i128, fits_u64}
use stellar_tip_contract.Contract.{
  tip, get_balance, get_tip_count, get_fee_percentage, get_fee_recipient, get_max_tips_per_creator,
  get_min_tip_amount, is_creator,
}
use stellar_tip_contract.Fees.{fee_bounds}
use stellar_tip_contract.Outcome.Tipping.{fee_amount}
use stellar_tip_contract.Liveness.Common.{is_open, PaymentLaws}
use stellar_tip_contract.Liveness.Tipping.{tip_returns}
use stellar_tip_contract.System.Solvency.{outsider}
use stellar_tip_contract.System.Transfers.{received}
use stellar_tip_contract.System.Reach.{Reach}
use stellar_tip_contract.System.Invariant.{Reach-IsValid}

at_most_fits : (x y : ℤ) → pos 0 ≤ℤ x → x ≤ℤ y → fits_i128 y ≡ true → fits_i128 x ≡ true
unfolding fits_i128
at_most_fits x y p q r = ground arith

-- The fee recipient may be the sender, whose account then has room as well.
recipient_fits :
    (held amount fee : ℤ) (same : Bool)
    → (same ≡ true → amount ≤ℤ held)
    → pos 0 ≤ℤ amount
    → pos 0 ≤ℤ fee
    → fits_i128 (held +ℤ fee) ≡ true
    → fits_i128 (held -ℤ (if same then amount else pos 0) +ℤ pos 0 +ℤ fee) ≡ true
recipient_fits held amount fee true covered positive nonneg room =
    at_most_fits _ (held +ℤ fee) (omega (int_laws, covered refl)) (omega int_laws) room
recipient_fits held amount fee false covered positive nonneg room =
    let same : held -ℤ pos 0 +ℤ pos 0 +ℤ fee ≡ held +ℤ fee = omega int_laws in rw same room

module _ {h : Host} (tokens : TokenLaws h) (payments : PaymentLaws h tokens) where
  open tokens use {token_balance}

  -- Out of the amount that came in, the fee goes out.
  forwards :
      (l l₁ : h.Ledger) (token from contract recipient : Address) (amount fee : ℤ)
      → h.transfer l token from contract amount ≡ some l₁
      → (from == contract) ≡ false
      → (recipient == contract) ≡ false
      → pos 0 ≤ℤ amount
      → pos 0 ≤ℤ fee
      → fee ≤ℤ amount
      → pos 0 ≤ℤ token_balance l token contract
      → amount ≤ℤ token_balance l token from
      → fits_i128 (token_balance l token recipient +ℤ fee) ≡ true
      → (l₂ : h.Ledger) × ((if ltb_ℤ (pos 0) fee
            then h.transfer l₁ token contract recipient fee
            else some l₁)
          ≡ some l₂)
  forwards l l₁ token from contract recipient amount fee paid outside not_self positive nonneg below
        holds covered room =
      let itself : (token == token) ≡ true = ground arith in
      let came_in : token_balance l₁ token contract ≡ token_balance l token contract +ℤ amount =
        received tokens l l₁ token from contract amount paid outside token ∙ rw itself refl in
      let after : token_balance l₁ token recipient
          ≡ token_balance l token recipient
            -ℤ (if recipient == from then amount else pos 0)
            +ℤ pos 0 =
        tokens.balance-transfer l l₁ token from contract amount outside paid token recipient
        ∙ rw (itself, not_self) refl in
      let (l₂, sent) =
        payments.pays l₁ token contract recipient fee (ground (arith, not_self)) nonneg
          (rw came_in (omega (int_laws, below, holds)))
          (rw after (
            recipient_fits (token_balance l token recipient) amount fee (recipient == from)
              (λ same. ground (arith, same, covered)) positive nonneg room)) in
      elim (Bool-cases (ltb_ℤ (pos 0) fee)) [
        | inl some_fee ↦ (l₂, rw some_fee sent)
        | inr no_fee ↦ (l₁, rw no_fee refl)
      ]

module _ {h : Host} (maps : MapLaws h) (tokens : TokenLaws h)
    (payments : PaymentLaws h tokens) where
  open tokens use {token_balance}

  -- In every reachable state where the contract has an admin and is not paused, an authorized tip to
  -- a creator returns the creator's tip count, if the amount is positive and at least the minimum, the
  -- creator's history is not full, the sender holds the amount, the amount fits in the contract's
  -- account and the fee in the fee recipient's, the amount times the fee's rate and the next tip count
  -- are in range, and the token contracts make every transfer that the sender's holdings cover.
  -- Nothing is assumed of the creator's balance and of the transfer of the fee.
  pub tip_succeeds :
      (from creator token recipient : Address) (amount : ℤ) (message : Text) (e : Env h)
      → Reach tokens e
      → e.authorized from ≡ true
      → is_open e ≡ true
      → ltb_ℤ (pos 0) amount ≡ true
      → leb_ℤ (get_min_tip_amount e) amount ≡ true
      → is_creator creator e ≡ true
      → (ltb 0 (get_max_tips_per_creator e)
          && leb (get_max_tips_per_creator e) (get_tip_count creator e))
        ≡ false
      → get_fee_recipient e ≡ some recipient
      → fits_i128 (amount *ℤ pos (get_fee_percentage e)) ≡ true
      → fits_u64 (get_tip_count creator e + 1) ≡ true
      → leb_ℤ amount (token_balance e.ledger token from) ≡ true
      → fits_i128 (token_balance e.ledger token e.current_contract_address +ℤ amount) ≡ true
      → fits_i128
          (token_balance e.ledger token recipient +ℤ fee_amount amount (get_fee_percentage e))
        ≡ true
      → (e' : Env h) × (tip from creator token amount message e ≡ ok (get_tip_count creator e, e'))
  unfolding get_balance get_fee_percentage get_fee_recipient
  tip_succeeds from creator token recipient amount message e r a opened positive minimum found
        below_cap set product_fits index_fits has contract_room recipient_room =
      let v = Reach-IsValid maps tokens r in
      let contract = e.current_contract_address in
      let fee_bps = unwrap_or e.inst.fee_bps 0 in
      let outside = outsider e from v.self a in
      let (nonneg, below) =
        fee_bounds amount fee_bps (ground (arith, positive)) v.config.fee_range in
      let some_amount : pos 0 ≤ℤ amount = ground (arith, positive) in
      let covered : amount ≤ℤ token_balance e.ledger token from = ground (arith, has) in
      let holds : pos 0 ≤ℤ token_balance e.ledger token contract = v.solvency token [] tt in
      let owed = v.solvency token (creator ∷ []) (refl, tt) in
      let (l₁, paid) =
        payments.pays e.ledger token from contract amount outside some_amount covered
          contract_room in
      let (l₂, forwarded) =
        forwards tokens payments e.ledger l₁ token from contract recipient amount
          (fee_amount amount fee_bps) paid outside (v.config.not_self recipient set) some_amount
          nonneg below holds covered recipient_room in
      tip_returns maps tokens from creator token recipient amount message e l₁ l₂ r a opened
        positive minimum found below_cap set
        (at_most_fits amount _ some_amount (omega (int_laws, holds)) contract_room) product_fits
        index_fits paid forwarded
        (at_most_fits _ _ (omega (int_laws, v.tracking.nonneg creator token, below))
          (omega (int_laws, owed, nonneg)) contract_room)
