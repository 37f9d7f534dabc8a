-- ===== src/System/Config.antt =====
-- The settings stay in range, and the admin, once set, stays set.
use stellar_tip_contract.Base.{
  ℕ, ◌≤◌, ℤ, pos, ◌≤ℤ◌, ◌==◌, ◌≡◌, refl, false, true, some, Option, is_some, unwrap_or, arith,
}
use stellar_tip_contract.Host.{Host, Address}
use stellar_tip_contract.Types.{max_fee_bps}
use stellar_tip_contract.Env.{Env}
use stellar_tip_contract.Contract.{Call}
use stellar_tip_contract.Outcome.Calls.{Done}

-- The fee is at most 100%, the minimum is not negative, the contract is not its own fee recipient,
-- and an initialized contract has a fee recipient.
pub record IsConfigured (contract : Address) (admin : Option Address) (fee_bps : Option ℕ)
    (fee_recipient : Option Address) (minimum : Option ℤ) : Type 0 where
  pub fee_range : unwrap_or fee_bps 0 ≤ max_fee_bps
  pub minimum_range : pos 0 ≤ℤ unwrap_or minimum (pos 0)
  pub not_self : (r : Address) → fee_recipient ≡ some r → (r == contract) ≡ false
  pub complete : is_some admin ≡ true → is_some fee_recipient ≡ true

module _ {h : Host} where
  abbrev pub ConfigValid : Env h → Type 0
  ConfigValid e =
      IsConfigured e.current_contract_address e.inst.admin e.inst.fee_bps e.inst.fee_recipient
        e.inst.min_tip_amount

  pub Done-ConfigValid : (c : Call) (e e' : Env h) → Done c e e' → ConfigValid e → ConfigValid e'
  Done-ConfigValid (Call.init caller recipient bps creators tips minimum) e e' o v =
      rw o.result (record {
        fee_range = ground (arith, o.fee_in_range);
        minimum_range = ground (arith, o.minimum_in_range);
        not_self = λ r p. ground (arith, o.not_self);
        complete = λ _. refl;
      })
  Done-ConfigValid (Call.set_admin caller new_admin) e e' o v = rw o.1.result (record {
    fee_range = v.fee_range;
    minimum_range = v.minimum_range;
    not_self = v.not_self;
    complete = λ _. v.complete (ground (arith, o.1.by_admin));
  })
  Done-ConfigValid (Call.set_fee_percentage caller bps) e e' o v = rw o.1.result (record {
    fee_range = ground (arith, o.0);
    minimum_range = v.minimum_range;
    not_self = v.not_self;
    complete = v.complete;
  })
  Done-ConfigValid (Call.set_fee_recipient caller recipient) e e' o v = rw o.1.result (record {
    fee_range = v.fee_range;
    minimum_range = v.minimum_range;
    not_self = λ r p. ground (arith, o.0);
    complete = λ _. refl;
  })
  Done-ConfigValid (Call.set_min_tip_amount caller amount) e e' o v = rw o.1.result (record {
    fee_range = v.fee_range;
    minimum_range = ground (arith, o.0);
    not_self = v.not_self;
    complete = v.complete;
  })
  Done-ConfigValid (Call.pause caller) e e' o v = rw o.result v
  Done-ConfigValid (Call.unpause caller) e e' o v = rw o.result v
  Done-ConfigValid (Call.set_max_creators caller n) e e' o v = rw o.result v
  Done-ConfigValid (Call.set_max_tips_per_creator caller n) e e' o v = rw o.result v
  Done-ConfigValid (Call.register caller username display_name bio) e e' o v = rw o.result v
  Done-ConfigValid (Call.update_profile caller display_name bio) e e' o v = rw o.result v
  Done-ConfigValid (Call.unregister caller) e e' o v = rw o.result v
  Done-ConfigValid (Call.tip from creator token amount message) e e' o v = rw o.1.result v
  Done-ConfigValid (Call.withdraw caller token amount) e e' o v = rw o.result v
