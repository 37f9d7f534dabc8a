-- ===== src/Outcome/Initialization.antt =====
-- What `init` has checked and written when it returns.
use stellar_tip_contract.Base.{ℕ, ℤ, pos, ltb, ltb_ℤ, ◌==◌, ◌≡◌, refl, true, false, some, is_some}
use stellar_tip_contract.Host.{Host, Address}
use stellar_tip_contract.Types.{init_data, max_fee_bps, event_init}
use stellar_tip_contract.Env.{Env, InstanceStorage}
use stellar_tip_contract.Env.Ensures.{
  Ensures, after_gets, after_auth, after_panic_if, after_instance, after_extend_instance,
  by_publish,
}
use stellar_tip_contract.Contract.{init}
use stellar_tip_contract.Outcome.Admin.{after_change}

-- The instance entries after `init`.
abbrev pub initial : Address → Address → ℕ → ℕ → ℕ → ℤ → InstanceStorage → InstanceStorage
initial caller fee_recipient fee_bps max_creators max_tips_per_creator min_tip_amount s = record s {
  admin = some caller;
  fee_recipient = some fee_recipient;
  fee_bps = some fee_bps;
  paused = some false;
  max_creators = some max_creators;
  max_tips_per_creator = some max_tips_per_creator;
  min_tip_amount = some min_tip_amount;
  creator_count = some 0;
}

module _ {h : Host} where
  -- The checks that the initialization has passed, and the environment that it leaves.
  pub record Initialized (caller fee_recipient : Address)
      (fee_bps max_creators max_tips_per_creator : ℕ) (min_tip_amount : ℤ) (e e' : Env h)
      : Type 0 where
    pub authorized : e.authorized caller ≡ true
    pub uninitialized : is_some e.inst.admin ≡ false
    pub fee_in_range : ltb max_fee_bps fee_bps ≡ false
    pub minimum_in_range : ltb_ℤ min_tip_amount (pos 0) ≡ false
    pub not_self : (fee_recipient == e.current_contract_address) ≡ false
    pub result :
        e'
        ≡ after_change caller
            (initial caller fee_recipient fee_bps max_creators max_tips_per_creator min_tip_amount
              e.inst)
            event_init
            (init_data fee_recipient fee_bps)
            e

  pub init_lem :
      (caller fee_recipient : Address) (fee_bps max_creators max_tips : ℕ) (min_tip : ℤ) (e : Env h)
      → Ensures
          (init caller fee_recipient fee_bps max_creators max_tips min_tip)
          e
          (λ _. Initialized caller fee_recipient fee_bps max_creators max_tips min_tip e)
  unfolding init
  init_lem caller fee_recipient fee_bps max_creators max_tips min_tip e =
      after_auth _ _ λ authorized. after_gets _ _ (
        after_panic_if _ _ _ λ uninitialized. after_panic_if _ _ _ λ fee_in_range.
          after_panic_if _ _ _ λ minimum_in_range. after_gets _ _ (
            after_panic_if _ _ _ λ not_self. after_instance _ _ (
              after_instance _ _ (
                after_instance _ _ (
                  after_instance _ _ (
                    after_instance _ _ (
                      after_instance _ _ (
                        after_instance _ _ (
                          after_instance _ _ (
                            after_extend_instance _ (
                              by_publish _ _ _ (record {
                                authorized = authorized;
                                uninitialized = uninitialized;
                                fee_in_range = fee_in_range;
                                minimum_in_range = minimum_in_range;
                                not_self = not_self;
                                result = refl;
                              }))))))))))))
