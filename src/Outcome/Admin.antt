-- ===== src/Outcome/Admin.antt =====
-- What `init` and the admin's functions have checked and written when they return.
use stellar_tip_contract.Base.{
  ℕ, ℤ, pos, ltb, ltb_ℤ, ◌==◌, ==_iff, ◌≡◌, refl, of_not, true, false, not, ◌||◌, some, ◌∷◌, String,
}
use stellar_tip_contract.Host.{Host, Address}
use stellar_tip_contract.Types.{
  Payload, nothing, an_address, a_number, an_amount, max_fee_bps, zero_account, event_admin_changed,
  event_paused, event_unpaused, event_fee_changed, event_fee_recipient_changed,
  event_max_creators_changed, event_max_tips_changed, event_min_tip_changed,
}
use stellar_tip_contract.Env.{Env, InstanceStorage}
use stellar_tip_contract.Env.Ensures.{
  Ensures, after_gets, after_auth, after_or_panic, after_panic_if, after_instance,
  after_extend_instance, by_publish,
}
use stellar_tip_contract.Contract.{
  set_admin, pause, unpause, set_fee_percentage, set_fee_recipient, set_max_creators,
  set_max_tips_per_creator, set_min_tip_amount,
}
use stellar_tip_contract.Outcome.Common.{extended}

module _ {h : Host} where
  -- The environment after new instance entries and one event.
  abbrev pub after_change : Address → InstanceStorage → String → Payload → Env h → Env h
  after_change caller s topic payload e = record (extended e) {
    inst = s;
    events = (record { topic = topic; subject = caller; payload = payload }) ∷ e.events;
  }

  -- A call that the admin has authorized, and the environment that it leaves.
  pub record Changed (caller : Address) (s : InstanceStorage) (topic : String) (payload : Payload)
      (e e' : Env h) : Type 0 where
    pub authorized : e.authorized caller ≡ true
    pub by_admin : e.inst.admin ≡ some caller
    pub result : e' ≡ after_change caller s topic payload e

  changed :
      (caller admin : Address) (s : InstanceStorage) (topic : String) (payload : Payload)
      (e : Env h)
      → e.authorized caller ≡ true
      → e.inst.admin ≡ some admin
      → not (caller == admin) ≡ false
      → Changed caller s topic payload e (after_change caller s topic payload e)
  changed caller admin s topic payload e authorized found same = record {
    authorized = authorized;
    by_admin = rw ((==_iff caller admin).0 (of_not same)) found;
    result = refl;
  }

  pub set_max_creators_lem :
      (caller : Address) (n : ℕ) (e : Env h)
      → Ensures (set_max_creators caller n) e (λ _.
        Changed caller
          (record e.inst { max_creators = some n })
          event_max_creators_changed
          (a_number n)
          e)
  unfolding set_max_creators
  set_max_creators_lem caller n e = after_auth _ _ λ authorized. after_gets _ _ (
      after_or_panic _ _ _ λ admin found. after_panic_if _ _ _ λ same. after_instance _ _ (
        after_extend_instance _
          (by_publish _ _ _ (changed caller admin _ _ _ e authorized found same))))

  pub set_max_tips_per_creator_lem :
      (caller : Address) (n : ℕ) (e : Env h)
      → Ensures (set_max_tips_per_creator caller n) e (λ _.
        Changed caller
          (record e.inst { max_tips_per_creator = some n })
          event_max_tips_changed
          (a_number n)
          e)
  unfolding set_max_tips_per_creator
  set_max_tips_per_creator_lem caller n e = after_auth _ _ λ authorized. after_gets _ _ (
      after_or_panic _ _ _ λ admin found. after_panic_if _ _ _ λ same. after_instance _ _ (
        after_extend_instance _
          (by_publish _ _ _ (changed caller admin _ _ _ e authorized found same))))

  pub pause_lem :
      (caller : Address) (e : Env h)
      → Ensures
          (pause caller)
          e
          (λ _. Changed caller (record e.inst { paused = some true }) event_paused nothing e)
  unfolding pause
  pause_lem caller e = after_auth _ _ λ authorized. after_gets _ _ (
      after_or_panic _ _ _ λ admin found. after_panic_if _ _ _ λ same. after_instance _ _ (
        after_extend_instance _
          (by_publish _ _ _ (changed caller admin _ _ _ e authorized found same))))

  pub unpause_lem :
      (caller : Address) (e : Env h)
      → Ensures
          (unpause caller)
          e
          (λ _. Changed caller (record e.inst { paused = some false }) event_unpaused nothing e)
  unfolding unpause
  unpause_lem caller e = after_auth _ _ λ authorized. after_gets _ _ (
      after_or_panic _ _ _ λ admin found. after_panic_if _ _ _ λ same. after_instance _ _ (
        after_extend_instance _
          (by_publish _ _ _ (changed caller admin _ _ _ e authorized found same))))

  pub set_admin_lem :
      (caller : Address) (new_admin : Address) (e : Env h)
      → Ensures (set_admin caller new_admin) e (λ _ e'.
        ((new_admin == caller || new_admin == h.address_from_string zero_account) ≡ false)
        × Changed caller
            (record e.inst { admin = some new_admin })
            event_admin_changed
            (an_address new_admin)
            e
            e')
  unfolding set_admin
  set_admin_lem caller new_admin e = after_auth _ _ λ authorized. after_gets _ _ (
      after_or_panic _ _ _ λ admin found. after_panic_if _ _ _ λ same. after_panic_if _ _ _ λ valid.
        after_instance _ _ (
          after_extend_instance _
            (by_publish _ _ _ (valid, changed caller admin _ _ _ e authorized found same))))

  pub set_fee_percentage_lem :
      (caller : Address) (fee_bps : ℕ) (e : Env h)
      → Ensures (set_fee_percentage caller fee_bps) e (λ _ e'.
        (ltb max_fee_bps fee_bps ≡ false)
        × Changed caller
            (record e.inst { fee_bps = some fee_bps })
            event_fee_changed
            (a_number fee_bps)
            e
            e')
  unfolding set_fee_percentage
  set_fee_percentage_lem caller fee_bps e = after_auth _ _ λ authorized. after_gets _ _ (
      after_or_panic _ _ _ λ admin found. after_panic_if _ _ _ λ same. after_panic_if _ _ _ λ valid.
        after_instance _ _ (
          after_extend_instance _
            (by_publish _ _ _ (valid, changed caller admin _ _ _ e authorized found same))))

  pub set_fee_recipient_lem :
      (caller : Address) (recipient : Address) (e : Env h)
      → Ensures (set_fee_recipient caller recipient) e (λ _ e'.
        ((recipient == e.current_contract_address) ≡ false)
        × Changed caller
            (record e.inst { fee_recipient = some recipient })
            event_fee_recipient_changed
            (an_address recipient)
            e
            e')
  unfolding set_fee_recipient
  set_fee_recipient_lem caller recipient e = after_auth _ _ λ authorized. after_gets _ _ (
      after_or_panic _ _ _ λ admin found. after_panic_if _ _ _ λ same. after_gets _ _ (
        after_panic_if _ _ _ λ valid. after_instance _ _ (
          after_extend_instance _
            (by_publish _ _ _ (valid, changed caller admin _ _ _ e authorized found same)))))

  pub set_min_tip_amount_lem :
      (caller : Address) (amount : ℤ) (e : Env h)
      → Ensures (set_min_tip_amount caller amount) e (λ _ e'.
        (ltb_ℤ amount (pos 0) ≡ false)
        × Changed caller
            (record e.inst { min_tip_amount = some amount })
            event_min_tip_changed
            (an_amount amount)
            e
            e')
  unfolding set_min_tip_amount
  set_min_tip_amount_lem caller amount e = after_auth _ _ λ authorized. after_gets _ _ (
      after_or_panic _ _ _ λ admin found. after_panic_if _ _ _ λ same. after_panic_if _ _ _ λ valid.
        after_instance _ _ (
          after_extend_instance _
            (by_publish _ _ _ (valid, changed caller admin _ _ _ e authorized found same))))
