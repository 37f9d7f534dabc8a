-- ===== src/Tests/ProfilesTests.antt =====
-- The theorems of `Profiles` at the scenario.
use stellar_tip_contract.Base.{
  ℕ, ◌+◌, ◌≡◌, refl, false, some, List, [], ◌∷◌, IsDistinct, length, mem, if◌then◌else◌, ◌==◌,
}
use stellar_tip_contract.Host.{Address, Symbol}
use stellar_tip_contract.Types.{CreatorProfile}
use stellar_tip_contract.Contract.{
  get_profile, get_creator_from_username, get_profile_by_username, is_creator, is_username_taken,
  get_creator_count, get_balance, get_tip_count, get_tip,
}
use stellar_tip_contract.Profiles.{
  usernames_unique, lookup_sound, lookup_complete, creator_count_exact, register_adds,
  register-unregister, unregister-register,
}
use stellar_tip_contract.Tests.Model.{model_maps, model_tokens}
use stellar_tip_contract.Tests.Scenario.{
  run, opened, joined, rejoined, tipped, Reach-tipped, Reach-opened, register_returns,
  rejoined_returns, unregister_returns, back_returns, drained, left, back,
}

abbrev creator : Address
creator = 3

abbrev name : Symbol
name = 11

abbrev profile : CreatorProfile
profile = record { username = 11; display_name = 74 ∷ []; bio = []; registered_at = 50 }

profile_found : get_profile 3 tipped ≡ some profile
unfolding run get_profile
profile_found = refl

by_username : get_profile_by_username 11 tipped ≡ some profile
unfolding run get_profile_by_username
by_username = refl

usernames_unique_example : creator ≡ creator
usernames_unique_example =
    usernames_unique model_maps model_tokens tipped Reach-tipped 3 3 profile profile profile_found
      profile_found refl

lookup_sound_example :
    (name ≡ name)
    × ((a : Address) × (get_creator_from_username 11 tipped ≡ some a)
        × (get_profile a tipped ≡ some profile))
lookup_sound_example =
    lookup_sound model_maps model_tokens tipped Reach-tipped 11 profile by_username

lookup_complete_example :
    (get_creator_from_username 11 tipped ≡ some 3)
    × (get_profile_by_username 11 tipped ≡ some profile)
lookup_complete_example =
    lookup_complete model_maps model_tokens tipped Reach-tipped 3 profile profile_found

creator_count_exact_example :
    (creators : List Address) × IsDistinct creators
    × ((a : Address) → is_creator a tipped ≡ mem a creators)
    × (get_creator_count tipped ≡ length creators)
creator_count_exact_example = creator_count_exact model_maps model_tokens tipped Reach-tipped

register_adds_example :
    let profile : CreatorProfile = record {
      username = 11;
      display_name = 74 ∷ [];
      bio = [];
      registered_at = opened.timestamp;
    } in
    (is_username_taken 11 opened ≡ false)
    × (is_creator 3 opened ≡ false)
    × ((a : Address)
        → get_profile a joined ≡ (if a == 3 then some profile else get_profile a opened))
    × ((u : Symbol)
        → get_creator_from_username u joined
          ≡ (if u == 11 then some 3 else get_creator_from_username u opened))
    × ((u : Symbol)
        → get_profile_by_username u joined
          ≡ (if u == 11 then some profile else get_profile_by_username u opened))
    × (get_creator_count joined ≡ get_creator_count opened + 1)
    × (get_tip_count 3 joined ≡ 0)
    × ((a : Address) (i : ℕ) → get_tip a i joined ≡ get_tip a i opened)
register_adds_example =
    register_adds model_maps model_tokens 3 11 (74 ∷ []) [] opened joined Reach-opened
      register_returns

register-unregister_example :
    ((a : Address) → get_profile a rejoined ≡ get_profile a opened)
    × ((u : Symbol) → get_creator_from_username u rejoined ≡ get_creator_from_username u opened)
    × (get_creator_count rejoined ≡ get_creator_count opened)
register-unregister_example =
    register-unregister 3 11 (74 ∷ []) [] opened joined rejoined register_returns rejoined_returns

unregister-register_example :
    (get_tip_count 3 back ≡ 0)
    × ((a : Address) (i : ℕ) → get_tip a i back ≡ get_tip a i drained)
    × ((a t : Address) → get_balance a t back ≡ get_balance a t drained)
unregister-register_example =
    unregister-register 3 12 (74 ∷ []) [] drained left back unregister_returns back_returns
