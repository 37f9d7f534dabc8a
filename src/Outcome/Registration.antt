-- ===== src/Outcome/Registration.antt =====
-- What `register`, `update_profile` and `unregister` have checked and written when they return.
use stellar_tip_contract.Base.{
  ◌+◌, ltb, leb, ◌≡◌, refl, true, false, ◌&&◌, some, ◌∷◌, is_some, unwrap_or, update,
}
use stellar_tip_contract.Host.{Host, Address, Symbol, Text}
use stellar_tip_contract.Types.{
  DataKey, CreatorProfile, registered, profile_data, event_creator_registered,
  event_profile_updated, ttl_threshold, ttl_extend,
}
use stellar_tip_contract.Env.{Env, of_entry, fits_u32}
use stellar_tip_contract.Env.Ensures.{
  Ensures, after, after_gets, after_auth, after_or_panic, after_panic_if, after_checked,
  after_instance, after_persistent, after_extend, after_extend_instance, by_publish,
}
use stellar_tip_contract.Contract.{register, update_profile}
use stellar_tip_contract.Outcome.Common.{IsOpen, extended, check_lem, IsShort, validate_lem}

module _ {h : Host} where
  abbrev pub new_profile : Symbol → Text → Text → Env h → CreatorProfile
  new_profile username display_name bio e = record {
    username = username;
    display_name = display_name;
    bio = bio;
    registered_at = e.timestamp;
  }

  abbrev pub after_register : Address → Symbol → Text → Text → Env h → Env h
  after_register caller username display_name bio e = record e {
    inst = record e.inst {
      profile = update e.inst.profile caller (some (new_profile username display_name bio e));
      username_to_address = update e.inst.username_to_address username (some caller);
      creator_count = some (unwrap_or e.inst.creator_count 0 + 1);
    };
    pers = record e.pers { tip_count = update e.pers.tip_count caller (some 0) };
    extensions =
        of_entry (DataKey.tip_count caller) ttl_threshold ttl_extend ∷ (extended e).extensions;
    events =
        (record {
          topic = event_creator_registered;
          subject = caller;
          payload = registered username e.timestamp;
        })
        ∷ e.events;
  }

  -- The checks that a registration has passed, and the environment that it leaves.
  pub record Registered (caller : Address) (username : Symbol) (display_name bio : Text)
      (e e' : Env h) : Type 0 where
    pub authorized : e.authorized caller ≡ true
    pub is_open : IsOpen e
    pub is_short : IsShort display_name bio
    pub unregistered : is_some (e.inst.profile caller) ≡ false
    pub untaken : is_some (e.inst.username_to_address username) ≡ false
    pub below_cap :
        (ltb 0 (unwrap_or e.inst.max_creators 0)
          && leb (unwrap_or e.inst.max_creators 0) (unwrap_or e.inst.creator_count 0))
        ≡ false
    pub count_fits : fits_u32 (unwrap_or e.inst.creator_count 0 + 1) ≡ true
    pub result : e' ≡ after_register caller username display_name bio e

  pub register_lem :
      (caller : Address) (username : Symbol) (display_name bio : Text) (e : Env h)
      → Ensures
          (register caller username display_name bio)
          e
          (λ _ e'. Registered caller username display_name bio e e')
  unfolding register
  register_lem caller username display_name bio e = after_auth _ _ λ authorized.
      after _ (check_lem e) λ _ e₁ open₁. rw open₁.1 (
        after _ (validate_lem _ _ _ _) λ _ e₂ short₂. rw short₂.1 (
          after_gets _ _ (
            after_panic_if _ _ _ λ unregistered. after_gets _ _ (
              after_panic_if _ _ _ λ untaken. after_gets _ _ (
                after_gets _ _ (
                  after_panic_if _ _ _ λ below_cap. after_gets _ _ (
                    after_instance _ _ (
                      after_instance _ _ (
                        after_persistent _ _ (
                          after_extend _ _ λ _. after_checked _ _ _ λ fits. after_instance _ _ (
                            by_publish _ _ _ (record {
                              authorized = authorized;
                              is_open = open₁.0;
                              is_short = short₂.0;
                              unregistered = unregistered;
                              untaken = untaken;
                              below_cap = below_cap;
                              count_fits = fits;
                              result = refl;
                            }))))))))))))

  -- The checks that an update has passed, and the environment that it leaves.
  pub record Updated (caller : Address) (display_name bio : Text) (e e' : Env h) : Type 0 where
    pub authorized : e.authorized caller ≡ true
    pub is_open : IsOpen e
    pub is_short : IsShort display_name bio
    pub old : CreatorProfile
    pub found : e.inst.profile caller ≡ some old
    pub result : e' ≡ record e {
      inst = record e.inst {
        profile =
            update e.inst.profile caller
              (some (record old { display_name = display_name; bio = bio }));
      };
      extensions = (extended (extended e)).extensions;
      events =
          (record {
            topic = event_profile_updated;
            subject = caller;
            payload = profile_data old.username display_name;
          })
          ∷ e.events;
    }

  pub update_profile_lem :
      (caller : Address) (display_name bio : Text) (e : Env h)
      → Ensures
          (update_profile caller display_name bio)
          e
          (λ _ e'. Updated caller display_name bio e e')
  unfolding update_profile
  update_profile_lem caller display_name bio e = after_auth _ _ λ authorized.
      after _ (check_lem e) λ _ e₁ open₁. rw open₁.1 (
        after _ (validate_lem _ _ _ _) λ _ e₂ short₂. rw short₂.1 (
          after_gets _ _ (
            after_or_panic _ _ _ λ old found. after_instance _ _ (
              after_extend_instance _ (
                by_publish _ _ _ (record {
                  authorized = authorized;
                  is_open = open₁.0;
                  is_short = short₂.0;
                  old = old;
                  found = found;
                  result = refl;
                }))))))
