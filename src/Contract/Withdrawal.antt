-- ===== src/Contract/Withdrawal.antt =====
-- `withdraw`.
use stellar_tip_contract.Base.{
  ℤ, pos, ◌-ℤ◌, ltb_ℤ, leb_ℤ, not, none, some, ⊤, is_some, unwrap_or, if◌then◌else◌, update,
  update₂,
}
use stellar_tip_contract.Host.{Host, Address}
use stellar_tip_contract.Types.{TipError, DataKey, withdraw_data, event_withdraw}
use stellar_tip_contract.Env.{
  Action, pure, gets, ◌>>=◌, ◌>>◌, panic_if, checked, fits_i128, require_auth, modify_persistent,
  publish, token_transfer, extend_persistent_ttl, check_initialized_and_not_paused,
}

module _ {h : Host} where
  -- Remove the token from the creator's tracked token set.
  unfoldable pub untrack_token : Address → Address → Action h ⊤
  untrack_token caller token = do
    old ← gets (λ e. unwrap_or (e.pers.creator_tokens caller) h.new_map)
    let (removed, tokens) = h.remove_key old token
    if is_some removed
        then (if h.is_empty tokens
            then modify_persistent
                (λ p. record p { creator_tokens = update p.creator_tokens caller none })
            else (do
              modify_persistent
                  (λ p. record p { creator_tokens = update p.creator_tokens caller (some tokens) })
              extend_persistent_ttl (DataKey.creator_tokens caller)))
        else pure tt

  -- `Update balance` of `withdraw`.
  unfoldable pub store_remaining : Address → Address → ℤ → Action h ⊤
  store_remaining caller token remaining =
      if ltb_ℤ (pos 0) remaining
      then (do
        modify_persistent
            (λ p. record p { balance = update₂ p.balance caller token (some remaining) })
        extend_persistent_ttl (DataKey.balance caller token)
        extend_persistent_ttl (DataKey.creator_tokens caller))
      else (do
        modify_persistent (λ p. record p { balance = update₂ p.balance caller token none })
        untrack_token caller token)

  unfoldable pub withdraw : Address → Address → ℤ → Action h ⊤
  withdraw caller token amount = do
    require_auth caller
    check_initialized_and_not_paused
    panic_if (not (is_some (← gets (λ e. e.inst.profile caller)))) TipError.creator_not_found
    panic_if (leb_ℤ amount (pos 0)) TipError.invalid_amount
    current_balance ← gets (λ e. unwrap_or (e.pers.balance caller token) (pos 0))
    panic_if (ltb_ℤ current_balance amount) TipError.insufficient_balance
    contract ← gets (λ e. e.current_contract_address)
    token_transfer token contract caller amount
    remaining ← checked fits_i128 (current_balance -ℤ amount)
    store_remaining caller token remaining
    publish event_withdraw caller (withdraw_data token amount)
