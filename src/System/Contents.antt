-- ===== src/System/Contents.antt =====
-- What the stored profiles and tips are like.
use stellar_tip_contract.Base.{
  ℕ, pos, leb_ℤ, ◌==◌, ◌&&◌, Bool-cases, inl, inr, ◌≡◌, subst, false, Option, some, of_some,
}
use stellar_tip_contract.Host.{Host, Address}
use stellar_tip_contract.Types.{CreatorProfile, Tip}
use stellar_tip_contract.Env.{Env}
use stellar_tip_contract.Outcome.Common.{IsShort}
use stellar_tip_contract.System.Kind.{
  Kind, a_setting, an_init, a_registration, an_update, an_unregistration, a_tip, a_withdrawal,
}

-- The texts of every profile are within their limits, and the amount of every tip is positive.
pub record HasLimits (profile : Address → Option CreatorProfile) (tip : Address → ℕ → Option Tip)
    : Type 0 where
  pub short : (c : Address) (p : CreatorProfile) → profile c ≡ some p → IsShort p.display_name p.bio
  pub positive : (c : Address) (i : ℕ) (t : Tip) → tip c i ≡ some t → leb_ℤ t.amount (pos 0) ≡ false

module _ {h : Host} where
  abbrev pub ContentsValid : Env h → Type 0
  ContentsValid e = HasLimits e.inst.profile e.pers.tip

  pub Kind-ContentsValid : (e e' : Env h) → Kind e e' → ContentsValid e → ContentsValid e'
  Kind-ContentsValid e e' (a_setting _ _ _ _ _ _ _ _ _ _ _ o) v = rw o.result v
  Kind-ContentsValid e e' (an_init _ _ _ _ _ _ o) v = rw o.result v
  Kind-ContentsValid e e' (a_registration caller username display_name bio o) v =
      rw o.result (record {
        short = λ c p q. elim (Bool-cases (c == caller)) [
          | inl same ↦
              subst (λ (x : CreatorProfile). IsShort x.display_name x.bio) (of_some (rw same at q))
                o.is_short
          | inr other ↦ v.short c p (rw other at q)
        ];
        positive = v.positive;
      })
  Kind-ContentsValid e e' (an_update caller display_name bio o) v = rw o.result (record {
    short = λ c p q. elim (Bool-cases (c == caller)) [
      | inl same ↦
          subst (λ (x : CreatorProfile). IsShort x.display_name x.bio) (of_some (rw same at q))
            o.is_short
      | inr other ↦ v.short c p (rw other at q)
    ];
    positive = v.positive;
  })
  Kind-ContentsValid e e' (an_unregistration caller o) v = rw o.result (record {
    short = λ c p q. elim (Bool-cases (c == caller)) [
      | inl same ↦ cc (rw same at q)
      | inr other ↦ v.short c p (rw other at q)
    ];
    positive = v.positive;
  })
  Kind-ContentsValid e e' (a_tip from creator token amount message index o) v =
      rw o.result (record {
        short = v.short;
        positive = λ c i t q. elim (Bool-cases (c == creator && i == index)) [
          | inl same ↦
              subst (λ (x : Tip). leb_ℤ x.amount (pos 0) ≡ false) (of_some (rw same at q))
                o.positive
          | inr other ↦ v.positive c i t (rw other at q)
        ];
      })
  Kind-ContentsValid e e' (a_withdrawal _ _ _ o) v = rw o.result v
