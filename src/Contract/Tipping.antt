-- ===== src/Contract/Tipping.antt =====
-- `tip`. Its numbered steps after the checks are actions of their own.
use stellar_tip_contract.Base.{
  ℕ, ◌+◌, ℤ, pos, ◌+ℤ◌, ◌-ℤ◌, ◌*ℤ◌, ◌/ℤ◌, ltb, leb, ltb_ℤ, leb_ℤ, not, ◌&&◌, Option, some, ⊤,
  is_some, unwrap_or, if◌then◌else◌, update, update₂,
}
use stellar_tip_contract.Host.{Host, Address, Text}
use stellar_tip_contract.Types.{TipError, DataKey, Tip, tip_data, max_fee_bps, event_tip_sent}
use stellar_tip_contract.Env.{
  Action, pure, gets, or_panic, ◌>>=◌, ◌>>◌, panic_if, checked, fits_u64, fits_i128, require_auth,
  modify_persistent, publish, token_transfer, extend_persistent_ttl,
  check_initialized_and_not_paused,
}

module _ {h : Host} where
  -- `(amount * (fee_bps as i128)) / (MAX_FEE_BPS as i128)`
  unfoldable pub fee_of : ℤ → ℕ → Action h ℤ
  fee_of amount fee_bps = do
    product ← checked fits_i128 (amount *ℤ pos fee_bps)
    checked fits_i128 (product /ℤ pos max_fee_bps)

  -- 2. Forward fee to recipient.
  unfoldable pub forward_fee : Address → Option Address → ℤ → Action h ⊤
  forward_fee token opt_fee_recipient fee =
      if ltb_ℤ (pos 0) fee
      then (do
        fee_recipient ← or_panic opt_fee_recipient TipError.fee_recipient_not_set
        contract ← gets (λ e. e.current_contract_address)
        token_transfer token contract fee_recipient fee)
      else pure tt

  -- 3. Credit the creator's internal balance.
  unfoldable pub credit_balance : Address → Address → ℤ → Action h ⊤
  credit_balance creator token creator_amount = do
    current_balance ← gets (λ e. unwrap_or (e.pers.balance creator token) (pos 0))
    balance ← checked fits_i128 (current_balance +ℤ creator_amount)
    modify_persistent (λ p. record p { balance = update₂ p.balance creator token (some balance) })
    extend_persistent_ttl (DataKey.balance creator token)

  -- 4. Track token for creator.
  unfoldable pub track_token : Address → Address → Action h ⊤
  track_token creator token = do
    tokens ← gets (λ e. unwrap_or (e.pers.creator_tokens creator) h.new_map)
    if not (h.contains_key tokens token)
        then modify_persistent (λ p. record p {
          creator_tokens = update p.creator_tokens creator (some (h.insert_key tokens token));
        })
        else pure tt
    extend_persistent_ttl (DataKey.creator_tokens creator)

  -- 5. Record the tip.
  unfoldable pub record_tip : Address → ℕ → Tip → Action h ⊤
  record_tip creator index tip = do
    modify_persistent (λ p. record p { tip = update₂ p.tip creator index (some tip) })
    extend_persistent_ttl (DataKey.tip creator index)
    count ← checked fits_u64 (index + 1)
    modify_persistent (λ p. record p { tip_count = update p.tip_count creator (some count) })
    extend_persistent_ttl (DataKey.tip_count creator)

  -- 1. Transfer tokens from sender → this contract; then steps 2 to 6.
  unfoldable pub settle :
      Address → Address → Address → ℤ → Text → ℤ → ℤ → Option Address → ℕ → Action h ⊤
  settle from creator token amount message fee creator_amount opt_fee_recipient index = do
    contract ← gets (λ e. e.current_contract_address)
    token_transfer token from contract amount
    forward_fee token opt_fee_recipient fee
    credit_balance creator token creator_amount
    track_token creator token
    now ← gets (λ e. e.timestamp)
    record_tip creator index
        (record { from = from; token = token; amount = amount; message = message; timestamp = now })
    publish event_tip_sent from (tip_data creator token amount fee index)

  unfoldable pub tip : Address → Address → Address → ℤ → Text → Action h ℕ
  tip from creator token amount message = do
    require_auth from
    check_initialized_and_not_paused
    panic_if (leb_ℤ amount (pos 0)) TipError.invalid_amount
    min_tip_amount ← gets (λ e. unwrap_or e.inst.min_tip_amount (pos 0))
    panic_if (ltb_ℤ (pos 0) min_tip_amount && ltb_ℤ amount min_tip_amount) TipError.below_minimum
    panic_if (not (is_some (← gets (λ e. e.inst.profile creator)))) TipError.creator_not_found
    max_tips ← gets (λ e. unwrap_or e.inst.max_tips_per_creator 0)
    index ← gets (λ e. unwrap_or (e.pers.tip_count creator) 0)
    panic_if (ltb 0 max_tips && leb max_tips index) TipError.cap_exceeded
    fee_bps ← gets (λ e. unwrap_or e.inst.fee_bps 0)
    fee ← fee_of amount fee_bps
    creator_amount ← checked fits_i128 (amount -ℤ fee)
    opt_fee_recipient ← gets (λ e. e.inst.fee_recipient)
    panic_if (ltb 0 fee_bps && not (is_some opt_fee_recipient)) TipError.fee_recipient_not_set
    settle from creator token amount message fee creator_amount opt_fee_recipient index
    pure index
