-- ===== src/Contract/Invocation.antt =====
-- The calls that change state, and an invocation of one: a panic leaves everything as it was.
use stellar_tip_contract.Base.{ℕ, ℤ, ⊤}
use stellar_tip_contract.Host.{Host, Address, Symbol, Text}
use stellar_tip_contract.Env.{Env, Action, ok, panic, pure, ◌>>=◌}
use stellar_tip_contract.Contract.Admin
use stellar_tip_contract.Contract.Registration
use stellar_tip_contract.Contract.Tipping
use stellar_tip_contract.Contract.Withdrawal

pub data Call : Type 0 where
  init : Address → Address → ℕ → ℕ → ℕ → ℤ → Call
  set_admin : Address → Address → Call
  pause unpause : Address → Call
  set_fee_percentage : Address → ℕ → Call
  set_fee_recipient : Address → Address → Call
  set_max_creators set_max_tips_per_creator : Address → ℕ → Call
  set_min_tip_amount : Address → ℤ → Call
  register : Address → Symbol → Text → Text → Call
  update_profile : Address → Text → Text → Call
  unregister : Address → Call
  tip : Address → Address → Address → ℤ → Text → Call
  withdraw : Address → Address → ℤ → Call

module _ {h : Host} where
  unfoldable pub execute : Call → Action h ⊤
  execute (Call.init caller recipient bps creators tips minimum) =
      Admin.init caller recipient bps creators tips minimum
  execute (Call.set_admin caller new_admin) = Admin.set_admin caller new_admin
  execute (Call.pause caller) = Admin.pause caller
  execute (Call.unpause caller) = Admin.unpause caller
  execute (Call.set_fee_percentage caller bps) = Admin.set_fee_percentage caller bps
  execute (Call.set_fee_recipient caller recipient) = Admin.set_fee_recipient caller recipient
  execute (Call.set_max_creators caller n) = Admin.set_max_creators caller n
  execute (Call.set_max_tips_per_creator caller n) = Admin.set_max_tips_per_creator caller n
  execute (Call.set_min_tip_amount caller amount) = Admin.set_min_tip_amount caller amount
  execute (Call.register caller username display_name bio) =
      Registration.register caller username display_name bio
  execute (Call.update_profile caller display_name bio) =
      Registration.update_profile caller display_name bio
  execute (Call.unregister caller) = Registration.unregister caller
  execute (Call.tip from creator token amount message) = do
    index ← Tipping.tip from creator token amount message
    pure tt
  execute (Call.withdraw caller token amount) = Withdrawal.withdraw caller token amount

  unfoldable pub invoke : Call → Env h → Env h
  unfolding execute
  invoke c e = elim (execute c e) [ ok (_, e') ↦ e' | panic _ ↦ e ]
