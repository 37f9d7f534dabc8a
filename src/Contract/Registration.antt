-- ===== src/Contract/Registration.antt =====
-- `register`, `update_profile` and `unregister`.
use stellar_tip_contract.Base.{
  ◌+◌, ◌-◌, pos, ltb, leb, ltb_ℤ, ◌&&◌, Option, none, some, List, [], ◌∷◌, ⊤, is_some, unwrap_or,
  if◌then◌else◌, update,
}
use stellar_tip_contract.Host.{Host, Address, Symbol, Text}
use stellar_tip_contract.Types.{
  TipError, DataKey, CreatorProfile, nothing, registered, profile_data, event_creator_registered,
  event_profile_updated, event_creator_unregistered,
}
use stellar_tip_contract.Env.{
  Action, pure, gets, or_panic, ◌>>=◌, ◌>>◌, panic_if, checked, fits_u32, require_auth,
  modify_instance, modify_persistent, publish, extend_instance_ttl, extend_persistent_ttl,
  check_initialized_and_not_paused, validate_input,
}

module _ {h : Host} where
  unfoldable pub register : Address → Symbol → Text → Text → Action h ⊤
  register caller username display_name bio = do
    require_auth caller
    check_initialized_and_not_paused
    validate_input (some username) display_name bio
    panic_if (is_some (← gets (λ e. e.inst.profile caller))) TipError.creator_already_exists
    panic_if (is_some (← gets (λ e. e.inst.username_to_address username))) TipError.username_taken
    max_creators ← gets (λ e. unwrap_or e.inst.max_creators 0)
    creator_count ← gets (λ e. unwrap_or e.inst.creator_count 0)
    panic_if (ltb 0 max_creators && leb max_creators creator_count) TipError.cap_exceeded
    now ← gets (λ e. e.timestamp)
    let profile : CreatorProfile = record {
      username = username;
      display_name = display_name;
      bio = bio;
      registered_at = now;
    }
    modify_instance (λ s. record s { profile = update s.profile caller (some profile) })
    modify_instance (λ s. record s {
      username_to_address = update s.username_to_address username (some caller);
    })
    modify_persistent (λ p. record p { tip_count = update p.tip_count caller (some 0) })
    extend_persistent_ttl (DataKey.tip_count caller)
    count ← checked fits_u32 (creator_count + 1)
    modify_instance (λ s. record s { creator_count = some count })
    publish event_creator_registered caller (registered username now)

  unfoldable pub update_profile : Address → Text → Text → Action h ⊤
  update_profile caller display_name bio = do
    require_auth caller
    check_initialized_and_not_paused
    validate_input none display_name bio
    old ← or_panic (← gets (λ e. e.inst.profile caller)) TipError.creator_not_found
    let profile = record old { display_name = display_name; bio = bio }
    modify_instance (λ s. record s { profile = update s.profile caller (some profile) })
    extend_instance_ttl
    publish event_profile_updated caller (profile_data profile.username profile.display_name)

  -- The loop of `unregister` over the creator's tokens.
  unfoldable pub check_balances : Address → List Address → Action h ⊤
  check_balances caller [] = pure tt
  check_balances caller (token ∷ tokens) = do
    balance ← gets (λ e. unwrap_or (e.pers.balance caller token) (pos 0))
    panic_if (ltb_ℤ (pos 0) balance) TipError.balance_not_empty
    check_balances caller tokens

  -- `if let Some(tokens) = ...` of `unregister`.
  unfoldable pub drop_tokens : Address → Option h.TokenSet → Action h ⊤
  drop_tokens caller none = pure tt
  drop_tokens caller (some tokens) = do
    check_balances caller (h.keys tokens)
    modify_persistent (λ p. record p { creator_tokens = update p.creator_tokens caller none })

  unfoldable pub unregister : Address → Action h ⊤
  unregister caller = do
    require_auth caller
    check_initialized_and_not_paused
    profile ← or_panic (← gets (λ e. e.inst.profile caller)) TipError.creator_not_found
    drop_tokens caller (← gets (λ e. e.pers.creator_tokens caller))
    modify_persistent (λ p. record p { tip_count = update p.tip_count caller none })
    modify_instance
        (λ s. record s { username_to_address = update s.username_to_address profile.username none })
    modify_instance (λ s. record s { profile = update s.profile caller none })
    current_count ← gets (λ e. unwrap_or e.inst.creator_count 0)
    if ltb 0 current_count
        then modify_instance (λ s. record s { creator_count = some (current_count - 1) })
        else pure tt
    publish event_creator_unregistered caller nothing
