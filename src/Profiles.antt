-- ===== src/Profiles.antt =====
-- Who is registered under which name (`register`, `update_profile`, `unregister` and the lookups of
-- src/lib.rs).
use stellar_tip_contract.Base.{
  ℕ, ◌≤◌, ◌+◌, ◌==◌, Option-cases, inl, inr, ◌≡◌, refl, ◌∙◌, sym, ap, of_some, false, none, some,
  List, IsDistinct, length, mem, is_some, update, if◌then◌else◌, arith,
}
use stellar_tip_contract.Host.{Host, MapLaws, TokenLaws, Address, Symbol, Text}
use stellar_tip_contract.Types.{CreatorProfile, max_display_name_len, max_bio_len}
use stellar_tip_contract.Env.{Env, ok}
use stellar_tip_contract.Env.Ensures.{returned}
use stellar_tip_contract.Contract.{
  register, update_profile, unregister, get_profile, get_creator_from_username,
  get_profile_by_username, is_creator, is_username_taken, get_creator_count, get_tip_count, get_tip,
  get_balance,
}
use stellar_tip_contract.Outcome.Registration.{new_profile, register_lem, update_profile_lem}
use stellar_tip_contract.Outcome.Unregistration.{unregister_lem}
use stellar_tip_contract.System.Reach.{Reach}
use stellar_tip_contract.System.Invariant.{Reach-IsValid}

module _ {h : Host} where
  lookup_untaken :
      (u : Symbol) (e : Env h)
      → e.inst.username_to_address u ≡ none
      → get_profile_by_username u e ≡ none
  unfolding get_profile_by_username
  lookup_untaken u e untaken = ground (arith, untaken)

  lookup_taken :
      (u : Symbol) (a : Address) (e : Env h)
      → e.inst.username_to_address u ≡ some a
      → get_profile_by_username u e ≡ e.inst.profile a
  unfolding get_profile_by_username
  lookup_taken u a e taken = ground (arith, taken)

module _ {h : Host} (maps : MapLaws h) (tokens : TokenLaws h) where
  -- In every reachable state, two creators with the same username are the same address.
  pub usernames_unique :
      (e : Env h)
      → Reach tokens e
      → (a b : Address) (p q : CreatorProfile) → get_profile a e ≡ some p
      → get_profile b e ≡ some q
      → p.username ≡ q.username
      → a ≡ b
  unfolding get_profile
  usernames_unique e r a b p q found_a found_b same =
      let v = (Reach-IsValid maps tokens r).registry in
      let left = v.owner a p found_a in let right = v.owner b q found_b in cc (left, right, same)

  -- In every reachable state, a username is taken just when the lookup by it finds a profile.
  taken_has_profile :
      (e : Env h)
      → Reach tokens e
      → (u : Symbol) → is_username_taken u e ≡ is_some (get_profile_by_username u e)
  unfolding is_username_taken get_profile_by_username
  taken_has_profile e r u = elim (Option-cases (e.inst.username_to_address u)) [
    | inl absent ↦ ground (arith, absent)
    | inr (a, taken) ↦
        ground (arith, taken, ((Reach-IsValid maps tokens r).registry.owned u a taken).1)
  ]

  -- In every reachable state, a profile that is found by a username bears that username, and it is
  -- the profile of the address that the username leads to.
  pub lookup_sound :
      (e : Env h)
      → Reach tokens e
      → (u : Symbol) (p : CreatorProfile) → get_profile_by_username u e ≡ some p
      → (p.username ≡ u)
        × ((a : Address) × (get_creator_from_username u e ≡ some a) × (get_profile a e ≡ some p))
  unfolding get_creator_from_username get_profile
  lookup_sound e r u p found = elim (Option-cases (e.inst.username_to_address u)) [
    | inl absent ↦ cc (found, lookup_untaken u e absent)
    | inr (a, taken) ↦
        let o = (Reach-IsValid maps tokens r).registry.owned u a taken in
        let same : some o.0 ≡ some p = sym o.1 ∙ sym (lookup_taken u a e taken) ∙ found in
        (ap (λ (x : CreatorProfile). x.username) (sym (of_some same)) ∙ o.2, (a, taken, o.1 ∙ same))
  ]

  -- In every reachable state, a creator's profile is found by the username in it, and that username
  -- leads to the creator.
  pub lookup_complete :
      (e : Env h)
      → Reach tokens e
      → (a : Address) (p : CreatorProfile) → get_profile a e ≡ some p
      → (get_creator_from_username p.username e ≡ some a)
        × (get_profile_by_username p.username e ≡ some p)
  unfolding get_creator_from_username get_profile
  lookup_complete e r a p found =
      let taken = (Reach-IsValid maps tokens r).registry.owner a p found in
      (taken, lookup_taken p.username a e taken ∙ found)

  -- In every reachable state, the display name and the bio of every profile are within their limits.
  texts_within_limits :
      (e : Env h)
      → Reach tokens e
      → (a : Address) (p : CreatorProfile) → get_profile a e ≡ some p
      → (length p.display_name ≤ max_display_name_len) × (length p.bio ≤ max_bio_len)
  unfolding get_profile
  texts_within_limits e r a p found =
      let short = (Reach-IsValid maps tokens r).contents.short a p found in
      (ground (arith, short.name_fits), ground (arith, short.bio_fits))

  -- In every reachable state, the creator count is the length of a list without repetition that has
  -- just the creators.
  pub creator_count_exact :
      (e : Env h)
      → Reach tokens e
      → (creators : List Address) × IsDistinct creators
        × ((a : Address) → is_creator a e ≡ mem a creators)
        × (get_creator_count e ≡ length creators)
  unfolding is_creator get_creator_count
  creator_count_exact e r =
      let v = (Reach-IsValid maps tokens r).count in (v.creators, v.distinct, v.listed, v.counted)

module _ {h : Host} (maps : MapLaws h) (tokens : TokenLaws h) where
  -- When a registration returns in a reachable state, the name was free and the caller had no
  -- profile; the caller's profile is the new one, the name leads to the caller and to the new profile,
  -- and all other addresses and names lead where they led before; the creator count is one more, and
  -- the caller's tip count is 0 while every tip record stays.
  pub register_adds :
      (caller : Address) (username : Symbol) (display_name bio : Text) (e e' : Env h)
      → Reach tokens e
      → register caller username display_name bio e ≡ ok (tt, e')
      → let profile = new_profile username display_name bio e in
        (is_username_taken username e ≡ false)
        × (is_creator caller e ≡ false)
        × ((a : Address)
            → get_profile a e' ≡ (if a == caller then some profile else get_profile a e))
        × ((u : Symbol)
            → get_creator_from_username u e'
              ≡ (if u == username then some caller else get_creator_from_username u e))
        × ((u : Symbol)
            → get_profile_by_username u e'
              ≡ (if u == username then some profile else get_profile_by_username u e))
        × (get_creator_count e' ≡ get_creator_count e + 1)
        × (get_tip_count caller e' ≡ 0)
        × ((a : Address) (i : ℕ) → get_tip a i e' ≡ get_tip a i e)
  unfolding is_username_taken is_creator get_profile_by_username get_profile
      get_creator_from_username get_creator_count get_tip_count get_tip
  register_adds caller username display_name bio e e' r p =
      let v = (Reach-IsValid maps tokens r).registry in
      let o = returned _ (register_lem caller username display_name bio e) tt e' p in
      rw o.result (
        o.untaken,
        o.unregistered,
        (λ a. refl),
        (λ u. refl),
        (λ u. elim (Option-cases (e.inst.username_to_address u)) [
          | inl absent ↦ ground (arith, absent)
          | inr (a, taken) ↦ ground (arith, taken, (v.owned u a taken).1, o.unregistered)
        ]),
        refl,
        ground arith,
        (λ a i. refl),
      )

module _ {h : Host} where
  -- When an update returns, the caller's profile has the new texts and keeps its username and its
  -- time of registration; no other profile and no username changes.
  update_profile_keeps_name :
      (caller : Address) (display_name bio : Text) (e e' : Env h)
      → update_profile caller display_name bio e ≡ ok (tt, e')
      → (old : CreatorProfile) × (get_profile caller e ≡ some old)
        × ((a : Address)
            → get_profile a e' ≡ (
                if a == caller
                then some (record old { display_name = display_name; bio = bio })
                else get_profile a e))
        × ((u : Symbol) → get_creator_from_username u e' ≡ get_creator_from_username u e)
        × (get_creator_count e' ≡ get_creator_count e)
  unfolding get_profile get_creator_from_username get_creator_count
  update_profile_keeps_name caller display_name bio e e' p =
      let o = returned _ (update_profile_lem caller display_name bio e) tt e' p in
      rw o.result (o.old, o.found, (λ a. refl), (λ u. refl), refl)

  -- A registration that is followed by the same caller's unregistration leaves all profiles, all
  -- usernames and the creator count as they were.
  pub register-unregister :
      (caller : Address) (username : Symbol) (display_name bio : Text) (e e₁ e₂ : Env h)
      → register caller username display_name bio e ≡ ok (tt, e₁)
      → unregister caller e₁ ≡ ok (tt, e₂)
      → ((a : Address) → get_profile a e₂ ≡ get_profile a e)
        × ((u : Symbol) → get_creator_from_username u e₂ ≡ get_creator_from_username u e)
        × (get_creator_count e₂ ≡ get_creator_count e)
  unfolding get_profile get_creator_from_username get_creator_count
  register-unregister caller username display_name bio e e₁ e₂ p q =
      let o = returned _ (register_lem caller username display_name bio e) tt e₁ p in
      let u = returned _ (unregister_lem caller e₁) tt e₂ q in
      let found : update e.inst.profile caller (some (new_profile username display_name bio e))
            caller
          ≡ some u.profile =
        rw o.result at u.found in
      rw (u.result, o.result)
        (
          (λ a. ground (arith, o.unregistered)),
          (λ v. ground (arith, o.untaken, found)),
          ground arith,
        )

  -- An unregistration that is followed by the same caller's registration, under any name, sets the
  -- caller's tip count to 0, while every tip record and every balance stays as it was before the two.
  pub unregister-register :
      (caller : Address) (username : Symbol) (display_name bio : Text) (e e₁ e₂ : Env h)
      → unregister caller e ≡ ok (tt, e₁)
      → register caller username display_name bio e₁ ≡ ok (tt, e₂)
      → (get_tip_count caller e₂ ≡ 0)
        × ((a : Address) (i : ℕ) → get_tip a i e₂ ≡ get_tip a i e)
        × ((a t : Address) → get_balance a t e₂ ≡ get_balance a t e)
  unfolding get_tip_count get_tip get_balance
  unregister-register caller username display_name bio e e₁ e₂ p q =
      let u = returned _ (unregister_lem caller e) tt e₁ p in
      let o = returned _ (register_lem caller username display_name bio e₁) tt e₂ q in
      rw (o.result, u.result) (ground arith, (λ a i. refl), λ a t. refl)
