-- ===== src/Outcome/Calls.antt =====
-- What any call has done when it returns, by its kind.
use stellar_tip_contract.Base.{ℕ, ltb, ltb_ℤ, pos, ◌==◌, ◌||◌, ◌≡◌, false, true, some}
use stellar_tip_contract.Host.{Host}
use stellar_tip_contract.Types.{
  nothing, an_address, a_number, an_amount, max_fee_bps, zero_account, event_admin_changed,
  event_paused, event_unpaused, event_fee_changed, event_fee_recipient_changed,
  event_max_creators_changed, event_max_tips_changed, event_min_tip_changed,
}
use stellar_tip_contract.Env.{Env, ok}
use stellar_tip_contract.Env.Ensures.{Ensures, returned, after, by_pure}
use stellar_tip_contract.Contract.{Call, execute}
use stellar_tip_contract.Outcome.Admin.{
  Changed, set_admin_lem, pause_lem, unpause_lem, set_fee_percentage_lem, set_fee_recipient_lem,
  set_max_creators_lem, set_max_tips_per_creator_lem, set_min_tip_amount_lem,
}
use stellar_tip_contract.Outcome.Initialization.{Initialized, init_lem}
use stellar_tip_contract.Outcome.Registration.{
  Registered, Updated, register_lem, update_profile_lem,
}
use stellar_tip_contract.Outcome.Unregistration.{Unregistered, unregister_lem}
use stellar_tip_contract.Outcome.Tipping.{Tipped, tip_lem}
use stellar_tip_contract.Outcome.Withdrawal.{Withdrawn, withdraw_lem}

module _ {h : Host} where
  abbrev pub Done : Call → Env h → Env h → Type 0
  Done (Call.init caller recipient bps creators tips minimum) e e' =
      Initialized caller recipient bps creators tips minimum e e'
  Done (Call.set_admin caller new_admin) e e' =
      ((new_admin == caller || new_admin == h.address_from_string zero_account) ≡ false)
      × Changed caller (record e.inst { admin = some new_admin }) event_admin_changed
          (an_address new_admin) e e'
  Done (Call.pause caller) e e' =
      Changed caller (record e.inst { paused = some true }) event_paused nothing e e'
  Done (Call.unpause caller) e e' =
      Changed caller (record e.inst { paused = some false }) event_unpaused nothing e e'
  Done (Call.set_fee_percentage caller bps) e e' =
      (ltb max_fee_bps bps ≡ false)
      × Changed caller (record e.inst { fee_bps = some bps }) event_fee_changed (a_number bps) e e'
  Done (Call.set_fee_recipient caller recipient) e e' =
      ((recipient == e.current_contract_address) ≡ false)
      × Changed caller (record e.inst { fee_recipient = some recipient })
          event_fee_recipient_changed (an_address recipient) e e'
  Done (Call.set_max_creators caller n) e e' =
      Changed caller (record e.inst { max_creators = some n }) event_max_creators_changed
        (a_number n) e e'
  Done (Call.set_max_tips_per_creator caller n) e e' =
      Changed caller (record e.inst { max_tips_per_creator = some n }) event_max_tips_changed
        (a_number n) e e'
  Done (Call.set_min_tip_amount caller amount) e e' =
      (ltb_ℤ amount (pos 0) ≡ false)
      × Changed caller (record e.inst { min_tip_amount = some amount }) event_min_tip_changed
          (an_amount amount) e e'
  Done (Call.register caller username display_name bio) e e' =
      Registered caller username display_name bio e e'
  Done (Call.update_profile caller display_name bio) e e' = Updated caller display_name bio e e'
  Done (Call.unregister caller) e e' = Unregistered caller e e'
  Done (Call.tip from creator token amount message) e e' =
      (index : ℕ) × Tipped from creator token amount message e index e'
  Done (Call.withdraw caller token amount) e e' = Withdrawn caller token amount e e'

  pub execute_lem : (c : Call) (e : Env h) → Ensures (execute c) e (λ _ e'. Done c e e')
  unfolding execute
  execute_lem (Call.init caller recipient bps creators tips minimum) e =
      init_lem caller recipient bps creators tips minimum e
  execute_lem (Call.set_admin caller new_admin) e = set_admin_lem caller new_admin e
  execute_lem (Call.pause caller) e = pause_lem caller e
  execute_lem (Call.unpause caller) e = unpause_lem caller e
  execute_lem (Call.set_fee_percentage caller bps) e = set_fee_percentage_lem caller bps e
  execute_lem (Call.set_fee_recipient caller recipient) e = set_fee_recipient_lem caller recipient e
  execute_lem (Call.set_max_creators caller n) e = set_max_creators_lem caller n e
  execute_lem (Call.set_max_tips_per_creator caller n) e = set_max_tips_per_creator_lem caller n e
  execute_lem (Call.set_min_tip_amount caller amount) e = set_min_tip_amount_lem caller amount e
  execute_lem (Call.register caller username display_name bio) e =
      register_lem caller username display_name bio e
  execute_lem (Call.update_profile caller display_name bio) e =
      update_profile_lem caller display_name bio e
  execute_lem (Call.unregister caller) e = unregister_lem caller e
  execute_lem (Call.tip from creator token amount message) e =
      after _ (tip_lem from creator token amount message e) λ i e' t. by_pure tt (i, t)
  execute_lem (Call.withdraw caller token amount) e = withdraw_lem caller token amount e

  pub executed : (c : Call) (e e' : Env h) → execute c e ≡ ok (tt, e') → Done c e e'
  executed c e e' p = returned (execute c) (execute_lem c e) tt e' p
