-- ===== src/Outcome/Unregistration.antt =====
-- What `unregister` has checked and written when it returns.
use stellar_tip_contract.Base.{
  of_some, ==_iff, ◌-◌, pos, ltb, ltb_ℤ, ◌==◌, ◌≡◌, refl, inl, inr, true, false, List, [], Option,
  none, some, ◌∷◌, is_some, unwrap_or, if◌then◌else◌, update, mem, Bool-cases, sym, subst, ◌∙◌,
}
use stellar_tip_contract.Host.{Host, Address}
use stellar_tip_contract.Types.{CreatorProfile, nothing, event_creator_unregistered}
use stellar_tip_contract.Env.{Env}
use stellar_tip_contract.Env.Ensures.{
  Ensures, after, after_gets, after_auth, after_or_panic, after_panic_if, after_instance,
  after_persistent, after_if, after_pure, by_pure, by_publish, by_persistent, weaken,
}
use stellar_tip_contract.Contract.{check_balances, drop_tokens, unregister}
use stellar_tip_contract.Outcome.Common.{IsOpen, extended, check_lem}

module _ {h : Host} where
  -- No token of the list has a positive balance.
  abbrev pub Drained : Address → List Address → Env h → Type 0
  Drained caller tokens e =
      (token : Address)
      → mem token tokens ≡ true
      → ltb_ℤ (pos 0) (unwrap_or (e.pers.balance caller token) (pos 0)) ≡ false

  pub check_balances_lem :
      (caller : Address) (tokens : List Address) (e : Env h)
      → Ensures (check_balances caller tokens) e (λ _ e'. Drained caller tokens e × (e' ≡ e))
  unfolding check_balances
  check_balances_lem caller [] e = by_pure tt ((λ token p. cc p), refl)
  check_balances_lem caller (t ∷ tokens) e = after_gets _ _ (
      after_panic_if _ _ _ λ empty. weaken _ (check_balances_lem caller tokens e) λ _ e' d. (
        (λ token p. elim (Bool-cases (token == t)) [
          | inl same ↦ rw ((==_iff token t).0 same) empty
          | inr other ↦ d.0 token (rw other at p)
        ]),
        d.1,
      ))

  -- The token sets after the caller's has been dropped.
  abbrev pub dropped : Address → Env h → Address → Option h.TokenSet
  dropped caller e =
      if is_some (e.pers.creator_tokens caller)
      then update e.pers.creator_tokens caller none
      else e.pers.creator_tokens

  abbrev pub AllDrained : Address → Env h → Type 0
  AllDrained caller e =
      (tokens : h.TokenSet)
      → e.pers.creator_tokens caller ≡ some tokens
      → Drained caller (h.keys tokens) e

  pub drop_tokens_lem :
      (caller : Address) (o : Option h.TokenSet) (e : Env h)
      → e.pers.creator_tokens caller ≡ o
      → Ensures (drop_tokens caller o) e (λ _ e'.
        AllDrained caller e
        × (e' ≡ record e { pers = record e.pers { creator_tokens = dropped caller e } }))
  unfolding drop_tokens
  drop_tokens_lem caller none e q = by_pure tt ((λ tokens p. cc (p, q)), rw q)
  drop_tokens_lem caller (some tokens) e q = after _ (check_balances_lem caller _ _) λ _ e₁ d.
      rw d.1 (
        by_persistent _ (
          (λ tokens' p token m.
              d.0 token (subst (λ s. mem token (h.keys s) ≡ true) (of_some (sym p ∙ q)) m)),
          rw q,
        ))

  abbrev pub after_unregister : Address → CreatorProfile → Env h → Env h
  after_unregister caller profile e = record e {
    inst = record e.inst {
      profile = update e.inst.profile caller none;
      username_to_address = update e.inst.username_to_address profile.username none;
      creator_count =
          if ltb 0 (unwrap_or e.inst.creator_count 0)
          then some (unwrap_or e.inst.creator_count 0 - 1)
          else e.inst.creator_count;
    };
    pers = record e.pers {
      creator_tokens = dropped caller e;
      tip_count = update e.pers.tip_count caller none;
    };
    extensions = (extended e).extensions;
    events =
        (record { topic = event_creator_unregistered; subject = caller; payload = nothing })
        ∷ e.events;
  }

  -- The checks that an unregistration has passed, and the environment that it leaves.
  pub record Unregistered (caller : Address) (e e' : Env h) : Type 0 where
    pub authorized : e.authorized caller ≡ true
    pub is_open : IsOpen e
    pub profile : CreatorProfile
    pub found : e.inst.profile caller ≡ some profile
    pub drained : AllDrained caller e
    pub result : e' ≡ after_unregister caller profile e

  pub unregister_lem :
      (caller : Address) (e : Env h)
      → Ensures (unregister caller) e (λ _ e'. Unregistered caller e e')
  unfolding unregister
  unregister_lem caller e = after_auth _ _ λ authorized. after _ (check_lem e) λ _ e₁ open₁.
      rw open₁.1 (
        after_gets _ _ (
          after_or_panic _ _ _ λ profile found. after_gets _ _ (
            after _ (drop_tokens_lem caller _ (extended e) refl) λ _ e₂ d. rw d.1 (
              after_persistent _ _ (
                after_instance _ _ (
                  after_instance _ _ (
                    after_gets _ _ (
                      after_if (ltb 0 (unwrap_or e.inst.creator_count 0)) _ _ _
                        (λ p. after_instance _ _ (
                          by_publish _ _ _ (record {
                            authorized = authorized;
                            is_open = open₁.0;
                            profile = profile;
                            found = found;
                            drained = d.0;
                            result = rw p;
                          })))
                        (λ p. after_pure _ _ (
                          by_publish _ _ _ (record {
                            authorized = authorized;
                            is_open = open₁.0;
                            profile = profile;
                            found = found;
                            drained = d.0;
                            result = rw p;
                          })))))))))))
