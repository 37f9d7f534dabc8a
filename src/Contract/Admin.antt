-- ===== src/Contract/Admin.antt =====
-- `init` and the functions that only the admin may call.
use stellar_tip_contract.Base.{
  ℕ, ℤ, pos, ltb, ltb_ℤ, ◌==◌, true, false, not, ◌||◌, some, ⊤, is_some,
}
use stellar_tip_contract.Host.{Host, Address}
use stellar_tip_contract.Types.{
  TipError, nothing, an_address, a_number, an_amount, init_data, max_fee_bps, zero_account,
  event_init, event_admin_changed, event_paused, event_unpaused, event_fee_changed,
  event_fee_recipient_changed, event_max_creators_changed, event_max_tips_changed,
  event_min_tip_changed,
}
use stellar_tip_contract.Env.{
  Action, gets, or_panic, ◌>>=◌, ◌>>◌, panic_if, require_auth, modify_instance, publish,
  extend_instance_ttl,
}

module _ {h : Host} where
  unfoldable pub init : Address → Address → ℕ → ℕ → ℕ → ℤ → Action h ⊤
  init caller fee_recipient fee_bps max_creators max_tips_per_creator min_tip_amount = do
    require_auth caller
    panic_if (is_some (← gets (λ e. e.inst.admin))) TipError.already_initialized
    panic_if (ltb max_fee_bps fee_bps) TipError.invalid_input
    panic_if (ltb_ℤ min_tip_amount (pos 0)) TipError.invalid_input
    panic_if (fee_recipient == (← gets (λ e. e.current_contract_address))) TipError.invalid_input
    modify_instance (λ s. record s { admin = some caller })
    modify_instance (λ s. record s { fee_recipient = some fee_recipient })
    modify_instance (λ s. record s { fee_bps = some fee_bps })
    modify_instance (λ s. record s { paused = some false })
    modify_instance (λ s. record s { max_creators = some max_creators })
    modify_instance (λ s. record s { max_tips_per_creator = some max_tips_per_creator })
    modify_instance (λ s. record s { min_tip_amount = some min_tip_amount })
    modify_instance (λ s. record s { creator_count = some 0 })
    extend_instance_ttl
    publish event_init caller (init_data fee_recipient fee_bps)

  unfoldable pub set_admin : Address → Address → Action h ⊤
  set_admin caller new_admin = do
    require_auth caller
    current_admin ← or_panic (← gets (λ e. e.inst.admin)) TipError.not_initialized
    panic_if (not (caller == current_admin)) TipError.not_authorized
    panic_if (new_admin == caller || new_admin == h.address_from_string zero_account)
        TipError.invalid_input
    modify_instance (λ s. record s { admin = some new_admin })
    extend_instance_ttl
    publish event_admin_changed caller (an_address new_admin)

  unfoldable pub pause : Address → Action h ⊤
  pause caller = do
    require_auth caller
    admin ← or_panic (← gets (λ e. e.inst.admin)) TipError.not_initialized
    panic_if (not (caller == admin)) TipError.not_authorized
    modify_instance (λ s. record s { paused = some true })
    extend_instance_ttl
    publish event_paused caller nothing

  unfoldable pub unpause : Address → Action h ⊤
  unpause caller = do
    require_auth caller
    admin ← or_panic (← gets (λ e. e.inst.admin)) TipError.not_initialized
    panic_if (not (caller == admin)) TipError.not_authorized
    modify_instance (λ s. record s { paused = some false })
    extend_instance_ttl
    publish event_unpaused caller nothing

  unfoldable pub set_fee_percentage : Address → ℕ → Action h ⊤
  set_fee_percentage caller fee_bps = do
    require_auth caller
    admin ← or_panic (← gets (λ e. e.inst.admin)) TipError.not_initialized
    panic_if (not (caller == admin)) TipError.not_authorized
    panic_if (ltb max_fee_bps fee_bps) TipError.invalid_input
    modify_instance (λ s. record s { fee_bps = some fee_bps })
    extend_instance_ttl
    publish event_fee_changed caller (a_number fee_bps)

  unfoldable pub set_fee_recipient : Address → Address → Action h ⊤
  set_fee_recipient caller fee_recipient = do
    require_auth caller
    admin ← or_panic (← gets (λ e. e.inst.admin)) TipError.not_initialized
    panic_if (not (caller == admin)) TipError.not_authorized
    panic_if (fee_recipient == (← gets (λ e. e.current_contract_address))) TipError.invalid_input
    modify_instance (λ s. record s { fee_recipient = some fee_recipient })
    extend_instance_ttl
    publish event_fee_recipient_changed caller (an_address fee_recipient)

  unfoldable pub set_max_creators : Address → ℕ → Action h ⊤
  set_max_creators caller max_creators = do
    require_auth caller
    admin ← or_panic (← gets (λ e. e.inst.admin)) TipError.not_initialized
    panic_if (not (caller == admin)) TipError.not_authorized
    modify_instance (λ s. record s { max_creators = some max_creators })
    extend_instance_ttl
    publish event_max_creators_changed caller (a_number max_creators)

  unfoldable pub set_max_tips_per_creator : Address → ℕ → Action h ⊤
  set_max_tips_per_creator caller max_tips = do
    require_auth caller
    admin ← or_panic (← gets (λ e. e.inst.admin)) TipError.not_initialized
    panic_if (not (caller == admin)) TipError.not_authorized
    modify_instance (λ s. record s { max_tips_per_creator = some max_tips })
    extend_instance_ttl
    publish event_max_tips_changed caller (a_number max_tips)

  unfoldable pub set_min_tip_amount : Address → ℤ → Action h ⊤
  set_min_tip_amount caller min_tip_amount = do
    require_auth caller
    admin ← or_panic (← gets (λ e. e.inst.admin)) TipError.not_initialized
    panic_if (not (caller == admin)) TipError.not_authorized
    panic_if (ltb_ℤ min_tip_amount (pos 0)) TipError.invalid_input
    modify_instance (λ s. record s { min_tip_amount = some min_tip_amount })
    extend_instance_ttl
    publish event_min_tip_changed caller (an_amount min_tip_amount)
