-- ===== src/System/Registry.antt =====
-- Profiles and usernames index each other.
use stellar_tip_contract.Base.{◌==◌, Bool-cases, inl, inr, ◌≡◌, Option, some, arith}
use stellar_tip_contract.Host.{Host, Address, Symbol}
use stellar_tip_contract.Types.{CreatorProfile}
use stellar_tip_contract.Env.{Env}
use stellar_tip_contract.Outcome.Registration.{new_profile}
use stellar_tip_contract.System.Kind.{
  Kind, a_setting, an_init, a_registration, an_update, an_unregistration, a_tip, a_withdrawal,
}

-- A creator's username leads back to the creator, and each username leads to a creator of that name.
pub record IsIndexed (profile : Address → Option CreatorProfile)
    (username_to_address : Symbol → Option Address) : Type 0 where
  pub owner :
      (a : Address) (p : CreatorProfile)
      → profile a ≡ some p
      → username_to_address p.username ≡ some a
  pub owned :
      (u : Symbol) (a : Address)
      → username_to_address u ≡ some a
      → (p : CreatorProfile) × (profile a ≡ some p) × (p.username ≡ u)

module _ {h : Host} where
  abbrev pub RegistryValid : Env h → Type 0
  RegistryValid e = IsIndexed e.inst.profile e.inst.username_to_address

  pub Kind-RegistryValid : (e e' : Env h) → Kind e e' → RegistryValid e → RegistryValid e'
  Kind-RegistryValid e e' (a_setting _ _ _ _ _ _ _ _ _ _ _ o) v = rw o.result v
  Kind-RegistryValid e e' (an_init _ _ _ _ _ _ o) v = rw o.result v
  Kind-RegistryValid e e' (a_registration caller username display_name bio o) v =
      rw o.result (record {
        owner = λ a p q. ground (arith, o.unregistered, o.untaken, v.owner a p);
        owned = λ u a q. elim (Bool-cases (u == username)) [
          | inl same ↦ (
            new_profile username display_name bio e,
            ground (arith, q, same),
            ground (arith, same),
          )
          | inr other ↦
              let (p, found, named) = v.owned u a (rw other at q) in
              (p, ground (arith, found, o.unregistered), named)
        ];
      })
  Kind-RegistryValid e e' (an_update caller display_name bio o) v = rw o.result (record {
    owner = λ a p q. ground (arith, o.found, v.owner a p, v.owner a o.old);
    owned = λ u a q.
        let (p, found, named) = v.owned u a q in
        elim (Bool-cases (a == caller)) [
          | inl same ↦ (
            record o.old { display_name = display_name; bio = bio },
            ground (arith, same),
            ground (arith, same, found, named, o.found),
          )
          | inr other ↦ (p, rw other found, named)
        ];
  })
  Kind-RegistryValid e e' (an_unregistration caller o) v = rw o.result (record {
    owner = λ a p q. ground (arith, o.found, v.owner a p, v.owner caller o.profile);
    owned = λ u a q.
        let kept = v.owned u a (ground (arith, q)) in
        (kept.0, ground (arith, q, kept.1, kept.2, o.found), kept.2);
  })
  Kind-RegistryValid e e' (a_tip _ _ _ _ _ _ o) v = rw o.result v
  Kind-RegistryValid e e' (a_withdrawal _ _ _ o) v = rw o.result v
