-- ===== src/System/Kind.antt =====
-- The calls by what they write: all of the admin's functions change settings alone.
use stellar_tip_contract.Base.{ℕ, ℤ, Bool, Option, some, true, is_some, ◌≡◌, refl, String, arith}
use stellar_tip_contract.Host.{Host, Address, Symbol, Text}
use stellar_tip_contract.Types.{Payload}
use stellar_tip_contract.Env.{Env, InstanceStorage}
use stellar_tip_contract.Contract.{Call}
use stellar_tip_contract.Outcome.Admin.{Changed}
use stellar_tip_contract.Outcome.Initialization.{Initialized}
use stellar_tip_contract.Outcome.Registration.{Registered, Updated}
use stellar_tip_contract.Outcome.Unregistration.{Unregistered}
use stellar_tip_contract.Outcome.Tipping.{Tipped}
use stellar_tip_contract.Outcome.Withdrawal.{Withdrawn}
use stellar_tip_contract.Outcome.Calls.{Done}

-- The instance entries with other settings.
abbrev pub with_settings :
    Option Address
    → Option Bool
    → Option ℕ
    → Option Address
    → Option ℕ
    → Option ℕ
    → Option ℤ
    → InstanceStorage
    → InstanceStorage
with_settings admin paused fee_bps fee_recipient max_creators max_tips minimum s = record s {
  admin = admin;
  paused = paused;
  fee_bps = fee_bps;
  fee_recipient = fee_recipient;
  max_creators = max_creators;
  max_tips_per_creator = max_tips;
  min_tip_amount = minimum;
}

pub data Kind {h : Host} (e e' : Env h) : Type 0 where
  a_setting :
      (admin : Option Address) (paused : Option Bool) (fee_bps : Option ℕ)
      (fee_recipient : Option Address) (max_creators max_tips : Option ℕ) (minimum : Option ℤ)
      (caller : Address) (topic : String) (payload : Payload)
      → is_some admin ≡ true
      → Changed caller
          (with_settings admin paused fee_bps fee_recipient max_creators max_tips minimum e.inst)
          topic
          payload
          e
          e'
      → Kind e e'
  an_init :
      (caller recipient : Address) (bps creators tips : ℕ) (minimum : ℤ)
      → Initialized caller recipient bps creators tips minimum e e'
      → Kind e e'
  a_registration :
      (caller : Address) (username : Symbol) (display_name bio : Text)
      → Registered caller username display_name bio e e'
      → Kind e e'
  an_update :
      (caller : Address) (display_name bio : Text)
      → Updated caller display_name bio e e'
      → Kind e e'
  an_unregistration : (caller : Address) → Unregistered caller e e' → Kind e e'
  a_tip :
      (from creator token : Address) (amount : ℤ) (message : Text) (index : ℕ)
      → Tipped from creator token amount message e index e'
      → Kind e e'
  a_withdrawal :
      (caller token : Address) (amount : ℤ) → Withdrawn caller token amount e e' → Kind e e'

module _ {h : Host} where
  initialized_by :
      {caller : Address} {s : InstanceStorage} {topic : String} {payload : Payload} {e e' : Env h}
      → Changed caller s topic payload e e'
      → is_some e.inst.admin ≡ true
  initialized_by o = ground (arith, o.by_admin)

  pub kind : (c : Call) (e e' : Env h) → Done c e e' → Kind e e'
  kind (Call.init caller recipient bps creators tips minimum) e e' o =
      an_init caller recipient bps creators tips minimum o
  kind (Call.set_admin caller new_admin) e e' o =
      a_setting (some new_admin) _ _ _ _ _ _ caller _ _ refl o.1
  kind (Call.pause caller) e e' o =
      a_setting _ (some true) _ _ _ _ _ caller _ _ (initialized_by o) o
  kind (Call.unpause caller) e e' o = a_setting _ _ _ _ _ _ _ caller _ _ (initialized_by o) o
  kind (Call.set_fee_percentage caller bps) e e' o =
      a_setting _ _ _ _ _ _ _ caller _ _ (initialized_by o.1) o.1
  kind (Call.set_fee_recipient caller recipient) e e' o =
      a_setting _ _ _ _ _ _ _ caller _ _ (initialized_by o.1) o.1
  kind (Call.set_max_creators caller n) e e' o =
      a_setting _ _ _ _ _ _ _ caller _ _ (initialized_by o) o
  kind (Call.set_max_tips_per_creator caller n) e e' o =
      a_setting _ _ _ _ _ _ _ caller _ _ (initialized_by o) o
  kind (Call.set_min_tip_amount caller amount) e e' o =
      a_setting _ _ _ _ _ _ _ caller _ _ (initialized_by o.1) o.1
  kind (Call.register caller username display_name bio) e e' o =
      a_registration caller username display_name bio o
  kind (Call.update_profile caller display_name bio) e e' o = an_update caller display_name bio o
  kind (Call.unregister caller) e e' o = an_unregistration caller o
  kind (Call.tip from creator token amount message) e e' o =
      a_tip from creator token amount message o.0 o.1
  kind (Call.withdraw caller token amount) e e' o = a_withdrawal caller token amount o
