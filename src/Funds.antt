-- ===== src/Funds.antt =====
-- What `tip`, `withdraw` and `unregister` do with money (src/lib.rs), in terms of the view functions
-- and of the token contracts' balances.
use stellar_tip_contract.Base.{
  ℕ, ◌*◌, ◌/◌, ◌+◌, ◌≤◌, ◌<◌, ℤ, pos, ◌+ℤ◌, ◌-ℤ◌, ◌≤ℤ◌, int_laws, ◌==◌, ◌≡◌, ◌∙◌, List, IsDistinct,
  unwrap_or, if◌then◌else◌, ◌&&◌, arith, ltb_ℤ, Bool-cases, inl, inr, false,
}
use stellar_tip_contract.Host.{Host, MapLaws, TokenLaws, Address, Text}
use stellar_tip_contract.Env.{Env, ok}
use stellar_tip_contract.Env.Ensures.{returned}
use stellar_tip_contract.Contract.{
  is_creator, tip, withdraw, fee_of, get_balance, get_fee_percentage,
}
use stellar_tip_contract.Types.{max_fee_bps}
use stellar_tip_contract.Fees.{fee_bounds, fee_amount-pos, div_bound}
use stellar_tip_contract.Outcome.Tipping.{fee_amount, tip_lem, fee_of_lem}
use stellar_tip_contract.Outcome.Withdrawal.{withdraw_lem}
use stellar_tip_contract.System.Transfers.{tip_received, sent}
use stellar_tip_contract.System.Solvency.{total, outsider, stored_value, left_nonneg}
use stellar_tip_contract.System.Reach.{Reach}
use stellar_tip_contract.System.Invariant.{Reach-IsValid}

module _ {h : Host} (maps : MapLaws h) (tokens : TokenLaws h) where
  open tokens use {token_balance}

  -- In every reachable state, what the contract owes in a token to any distinct creators together is
  -- at most what it holds of that token.
  pub solvent :
      (e : Env h)
      → Reach tokens e
      → (token : Address) (creators : List Address) → IsDistinct creators
      → total creators token e.pers.balance
        ≤ℤ token_balance e.ledger token e.current_contract_address
  solvent e r = (Reach-IsValid maps tokens r).solvency

  -- When a tip returns in a reachable state, the creator's balance and the contract's own holding of
  -- the token both grow by the amount less the fee, and the contract's other holdings and all other
  -- balances stay.
  pub tip_conserves :
      (from creator token : Address) (amount : ℤ) (message : Text) (e e' : Env h) (index : ℕ)
      → Reach tokens e
      → tip from creator token amount message e ≡ ok (index, e')
      → let credit = amount -ℤ fee_amount amount (get_fee_percentage e) in
        let contract = e.current_contract_address in
        ((c t : Address)
          → get_balance c t e' ≡ (
              if c == creator && t == token
              then get_balance c t e +ℤ credit
              else get_balance c t e))
        × ((t : Address)
            → token_balance e'.ledger t contract ≡ (
                if t == token
                then token_balance e.ledger t contract +ℤ credit
                else token_balance e.ledger t contract))
  unfolding get_balance get_fee_percentage
  tip_conserves from creator token amount message e e' index r p =
      let v = Reach-IsValid maps tokens r in
      let o = returned _ (tip_lem from creator token amount message e) index e' p in
      let fee_nonneg : pos 0 ≤ℤ o.fee =
        rw o.fee_is
          (fee_bounds amount (unwrap_or e.inst.fee_bps 0) o.positive v.config.fee_range).0 in
      rw (o.result, ← o.fee_is)
        (
          (λ c t. ground arith),
          tip_received tokens e.ledger o.paid_in o.paid_out token from e.current_contract_address
              amount o.fee e.inst.fee_recipient o.payment o.fee_payment
              (outsider e from v.self o.authorized) v.config.not_self fee_nonneg,
        )

  -- When a withdrawal returns in a reachable state, the caller's balance and the contract's own
  -- holding of the token both fall by the amount, the caller's own holding grows by it, and the
  -- contract's other holdings and all other balances stay.
  pub withdraw_conserves :
      (caller token : Address) (amount : ℤ) (e e' : Env h)
      → Reach tokens e
      → withdraw caller token amount e ≡ ok (tt, e')
      → let contract = e.current_contract_address in
        ((c t : Address)
          → get_balance c t e' ≡ (
              if c == caller && t == token then get_balance c t e -ℤ amount else get_balance c t e))
        × ((t : Address)
            → token_balance e'.ledger t contract ≡ (
                if t == token
                then token_balance e.ledger t contract -ℤ amount
                else token_balance e.ledger t contract))
        × (token_balance e'.ledger token caller ≡ token_balance e.ledger token caller +ℤ amount)
  unfolding get_balance
  withdraw_conserves caller token amount e e' r p =
      let v = Reach-IsValid maps tokens r in
      let o = returned _ (withdraw_lem caller token amount e) tt e' p in
      let kept =
        stored_value _
          (left_nonneg (unwrap_or (e.pers.balance caller token) (pos 0)) amount o.covered) in
      let other = outsider e caller v.self o.authorized in
      rw o.result (
        (λ c t. ground (arith, kept)),
        sent tokens e.ledger o.paid_out token e.current_contract_address caller amount o.payment
            other,
        tokens.balance-transfer e.ledger o.paid_out token e.current_contract_address caller amount
              (ground (arith, other)) o.payment token caller
            ∙ grind int_laws,
      )

  -- In every reachable state, whoever is not a creator has a balance of 0 in every token.
  pub held_by_creators :
      (e : Env h)
      → Reach tokens e
      → (c t : Address) → is_creator c e ≡ false
      → get_balance c t e ≡ pos 0
  unfolding get_balance is_creator
  held_by_creators e r c t none_found =
      let v = (Reach-IsValid maps tokens r).tracking in
      elim (Bool-cases (ltb_ℤ (pos 0) (unwrap_or (e.pers.balance c t) (pos 0)))) [
        | inl some_held ↦ cc (none_found, v.owned c t some_held)
        | inr none_held ↦ ground (arith, none_held, v.nonneg c t)
      ]

-- When the rate is at most 100% and the amount is not negative, a fee that is computed is the exact
-- share of the amount, rounded down, and lies between 0 and the amount.
fee_exact :
    {h : Host} (n fee_bps : ℕ) (fee : ℤ) (e e' : Env h)
    → fee_bps ≤ max_fee_bps
    → fee_of (pos n) fee_bps e ≡ ok (fee, e')
    → (f : ℕ) × (fee ≡ pos f)
      × (f * max_fee_bps ≤ n * fee_bps)
      × (n * fee_bps < (f + 1) * max_fee_bps)
      × (f ≤ n)
fee_exact n fee_bps fee e e' range p =
    let o = returned _ (fee_of_lem (pos n) fee_bps e) fee e' p in
    (
      n * fee_bps / max_fee_bps,
      o.0 ∙ fee_amount-pos n fee_bps,
      omega arith,
      omega arith,
      div_bound n fee_bps range,
    )
