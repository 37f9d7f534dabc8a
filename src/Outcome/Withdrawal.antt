-- ===== src/Outcome/Withdrawal.antt =====
-- What `withdraw` has checked and written when it returns.
use stellar_tip_contract.Base.{
  ℤ, pos, ◌-ℤ◌, ltb_ℤ, leb_ℤ, ◌≡◌, refl, of_not, true, false, List, Option, none, some, ◌∷◌,
  is_some, unwrap_or, if◌then◌else◌, update, update₂,
}
use stellar_tip_contract.Host.{Host, Address}
use stellar_tip_contract.Types.{DataKey, withdraw_data, event_withdraw, ttl_threshold, ttl_extend}
use stellar_tip_contract.Env.{Env, TtlExtension, PersistentStorage, of_entry}
use stellar_tip_contract.Env.Ensures.{
  Ensures, after, after_gets, after_auth, after_panic_if, after_checked, after_persistent,
  after_extend, after_transfer, by_pure, by_publish, by_persistent, by_extend, by_if, weaken,
}
use stellar_tip_contract.Contract.{untrack_token, store_remaining, withdraw}
use stellar_tip_contract.Outcome.Common.{IsOpen, check_lem}

module _ {h : Host} where
  -- The token sets after the token has been taken out of the caller's.
  abbrev pub untracked : Address → Address → Env h → Address → Option h.TokenSet
  untracked caller token e =
      let old = unwrap_or (e.pers.creator_tokens caller) h.new_map in
      let tokens = (h.remove_key old token).1 in
      if is_some (h.remove_key old token).0
      then (if h.is_empty tokens
          then update e.pers.creator_tokens caller none
          else update e.pers.creator_tokens caller (some tokens))
      else e.pers.creator_tokens

  -- The persistent entries after a withdrawal that leaves `remaining`.
  abbrev pub after_remaining : Address → Address → ℤ → Env h → PersistentStorage h.TokenSet
  after_remaining caller token remaining e = record e.pers {
    balance =
        update₂ e.pers.balance caller token
          (if ltb_ℤ (pos 0) remaining then some remaining else none);
    creator_tokens =
        if ltb_ℤ (pos 0) remaining then e.pers.creator_tokens else untracked caller token e;
  }

  pub untrack_token_lem :
      (caller token : Address) (e : Env h)
      → Ensures (untrack_token caller token) e (λ _ e'.
        (log : List TtlExtension) × (e' ≡ record e {
          pers = record e.pers { creator_tokens = untracked caller token e };
          extensions = log;
        }))
  unfolding untrack_token
  untrack_token_lem caller token e =
      let old = unwrap_or (e.pers.creator_tokens caller) h.new_map in
      let tokens = (h.remove_key old token).1 in
      after_gets _ _ (
        by_if (is_some (h.remove_key old token).0) _ _
          (λ found.
            by_if (h.is_empty tokens) _ _ (λ last. by_persistent _ (e.extensions, rw (found, last)))
              (λ more. after_persistent _ _ (
                by_extend _ λ _. (
                  of_entry (DataKey.creator_tokens caller) ttl_threshold ttl_extend ∷ e.extensions,
                  rw (found, more),
                ))))
          (λ absent. by_pure tt (e.extensions, rw absent)))

  pub store_remaining_lem :
      (caller token : Address) (remaining : ℤ) (e : Env h)
      → Ensures (store_remaining caller token remaining) e (λ _ e'.
        (log : List TtlExtension) × (e'
          ≡ record e { pers = after_remaining caller token remaining e; extensions = log }))
  unfolding store_remaining
  store_remaining_lem caller token remaining e =
      by_if (ltb_ℤ (pos 0) remaining) _ _
        (λ more. after_persistent _ _ (
          after_extend _ _ λ _. by_extend _ λ _. (
            of_entry (DataKey.creator_tokens caller) ttl_threshold ttl_extend
                ∷ of_entry (DataKey.balance caller token) ttl_threshold ttl_extend
                ∷ e.extensions,
            rw more,
          )))
        (λ done.
          after_persistent _ _ (weaken _ (untrack_token_lem _ _ _) λ _ e₁ u. (u.0, rw (done, u.1))))

  -- The checks that a withdrawal has passed, its transfer, and the environment that it leaves.
  pub record Withdrawn (caller token : Address) (amount : ℤ) (e e' : Env h) : Type 0 where
    pub authorized : e.authorized caller ≡ true
    pub is_open : IsOpen e
    pub registered : is_some (e.inst.profile caller) ≡ true
    pub positive : leb_ℤ amount (pos 0) ≡ false
    pub covered : ltb_ℤ (unwrap_or (e.pers.balance caller token) (pos 0)) amount ≡ false
    pub paid_out : h.Ledger
    pub payment : h.transfer e.ledger token e.current_contract_address caller amount ≡ some paid_out
    pub log : List TtlExtension
    pub result : e' ≡ record e {
      pers =
          after_remaining caller token
            (unwrap_or (e.pers.balance caller token) (pos 0) -ℤ amount)
            e;
      ledger = paid_out;
      extensions = log;
      events =
          (record {
            topic = event_withdraw;
            subject = caller;
            payload = withdraw_data token amount;
          })
          ∷ e.events;
    }

  pub withdraw_lem :
      (caller token : Address) (amount : ℤ) (e : Env h)
      → Ensures (withdraw caller token amount) e (λ _ e'. Withdrawn caller token amount e e')
  unfolding withdraw
  withdraw_lem caller token amount e = after_auth _ _ λ authorized.
      after _ (check_lem e) λ _ e₁ open₁. rw open₁.1 (
        after_gets _ _ (
          after_panic_if _ _ _ λ registered. after_panic_if _ _ _ λ positive. after_gets _ _ (
            after_panic_if _ _ _ λ covered. after_gets _ _ (
              after_transfer _ _ _ _ _ λ l paid. after_checked _ _ _ λ _.
                after _ (store_remaining_lem _ _ _ _) λ _ e₂ r. rw r.1 (
                  by_publish _ _ _ (record {
                    authorized = authorized;
                    is_open = open₁.0;
                    registered = of_not registered;
                    positive = positive;
                    covered = covered;
                    paid_out = l;
                    payment = paid;
                    log = r.0;
                    result = refl;
                  }))))))
