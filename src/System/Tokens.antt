-- ===== src/System/Tokens.antt =====
-- The token set of a creator has every token in which the creator holds a balance, and only
-- creators hold balances.
use stellar_tip_contract.Base.{
  ℤ, pos, ◌-ℤ◌, ◌≤ℤ◌, ◌≤◌, int_laws, ltb_ℤ, leb_ℤ, ◌==◌, Bool-cases, Option-cases, inl, inr, ◌≡◌,
  refl, ◌∙◌, not, ◌&&◌, ◌||◌, false, true, Option, is_some, unwrap_or, arith,
}
use stellar_tip_contract.Host.{Host, MapLaws, Address}
use stellar_tip_contract.Types.{CreatorProfile, max_fee_bps}
use stellar_tip_contract.Fees.{fee_bounds}
use stellar_tip_contract.Env.{Env, fits_i128}
use stellar_tip_contract.Outcome.Tipping.{tracked}
use stellar_tip_contract.Outcome.Withdrawal.{untracked}
use stellar_tip_contract.Outcome.Unregistration.{Unregistered}
use stellar_tip_contract.System.Kind.{
  Kind, a_setting, an_init, a_registration, an_update, an_unregistration, a_tip, a_withdrawal,
}

-- A balance that covers a positive amount is positive.
pub funded :
    (balance amount : ℤ)
    → leb_ℤ amount (pos 0) ≡ false
    → ltb_ℤ balance amount ≡ false
    → ltb_ℤ (pos 0) balance ≡ true
funded balance amount p q = ground arith

pub zero_fits : fits_i128 (pos 0) ≡ true
unfolding fits_i128
zero_fits = refl

-- What is left after a positive amount that the balance covers fits where the balance did.
pub left_fits :
    (balance amount : ℤ)
    → fits_i128 balance ≡ true
    → leb_ℤ amount (pos 0) ≡ false
    → ltb_ℤ balance amount ≡ false
    → fits_i128 (balance -ℤ amount) ≡ true
unfolding fits_i128 ◌-ℤ◌
left_fits balance amount p q r = ground arith

-- Every balance is an i128 and none is negative; a positive one stands in the set of a creator.
pub record IsTracked (h : Host) (profile : Address → Option CreatorProfile)
    (balance : Address → Address → Option ℤ) (creator_tokens : Address → Option h.TokenSet)
    : Type 0 where
  pub in_range : (c t : Address) → fits_i128 (unwrap_or (balance c t) (pos 0)) ≡ true
  pub nonneg : (c t : Address) → pos 0 ≤ℤ unwrap_or (balance c t) (pos 0)
  pub tracked :
      (c t : Address)
      → ltb_ℤ (pos 0) (unwrap_or (balance c t) (pos 0)) ≡ true
      → h.contains_key (unwrap_or (creator_tokens c) h.new_map) t ≡ true
  pub owned :
      (c t : Address)
      → ltb_ℤ (pos 0) (unwrap_or (balance c t) (pos 0)) ≡ true
      → is_some (profile c) ≡ true

module _ {h : Host} (laws : MapLaws h) where
  abbrev pub TokensValid : Env h → Type 0
  TokensValid e = IsTracked h e.inst.profile e.pers.balance e.pers.creator_tokens

  -- The creator of a tip has the token added to its set.
  contains-tracked :
      (creator token : Address) (e : Env h) (c t : Address)
      → h.contains_key (unwrap_or (tracked creator token e c) h.new_map) t ≡ (
          (c == creator && t == token)
          || h.contains_key (unwrap_or (e.pers.creator_tokens c) h.new_map) t)
  contains-tracked creator token e c t =
      let tokens = unwrap_or (e.pers.creator_tokens creator) h.new_map in
      elim (Bool-cases (h.contains_key tokens token)) [
        | inl old ↦ rw old (ground (arith, old))
        | inr new ↦ rw new (ground (arith, laws.contains-insert tokens token t))
      ]

  -- A withdrawal of the whole balance takes the token out of the caller's set.
  contains-untracked :
      (caller token : Address) (e : Env h) (c t : Address)
      → h.contains_key (unwrap_or (untracked caller token e c) h.new_map) t ≡ (
          not (c == caller && t == token)
          && h.contains_key (unwrap_or (e.pers.creator_tokens c) h.new_map) t)
  contains-untracked caller token e c t =
      let tokens = unwrap_or (e.pers.creator_tokens caller) h.new_map in
      let left = (h.remove_key tokens token).1 in
      elim (Bool-cases (is_some (h.remove_key tokens token).0)) [
        | inr absent ↦ rw absent (ground (arith, laws.removed tokens token, absent))
        | inl found ↦ elim (Bool-cases (h.is_empty left)) [
          | inl last ↦
              rw (found, last)
                (ground (
                  arith,
                  laws.contains-new t,
                  laws.contains-empty left t last,
                  laws.contains-remove tokens token t,
                ))
          | inr more ↦ rw (found, more) (ground (arith, laws.contains-remove tokens token t))
        ]
      ]

  -- An account that has unregistered holds no positive balance.
  pub Unregistered-holds_nothing :
      (e e' : Env h) (caller : Address)
      → Unregistered caller e e'
      → TokensValid e
      → (t : Address) → ltb_ℤ (pos 0) (unwrap_or (e.pers.balance caller t) (pos 0)) ≡ false
  Unregistered-holds_nothing e e' caller o v t =
      elim (Bool-cases (ltb_ℤ (pos 0) (unwrap_or (e.pers.balance caller t) (pos 0)))) [
        | inr none_left ↦ none_left
        | inl some_left ↦ elim (Option-cases (e.pers.creator_tokens caller)) [
          | inl no_set ↦ ground (arith, v.tracked caller t some_left, no_set, laws.contains-new t)
          | inr (s, a_set) ↦
              o.drained s a_set t
                (laws.mem-keys s t ∙ ground (arith, v.tracked caller t some_left, a_set))
        ]
      ]

  pub Kind-TokensValid :
      (e e' : Env h)
      → unwrap_or e.inst.fee_bps 0 ≤ max_fee_bps
      → Kind e e'
      → TokensValid e
      → TokensValid e'
  Kind-TokensValid e e' _ (a_setting _ _ _ _ _ _ _ _ _ _ _ o) v = rw o.result v
  Kind-TokensValid e e' _ (an_init _ _ _ _ _ _ o) v = rw o.result v
  Kind-TokensValid e e' _ (a_registration caller username display_name bio o) v =
      rw o.result (record {
        in_range = v.in_range;
        nonneg = v.nonneg;
        tracked = v.tracked;
        owned = λ c t p. ground (arith, v.owned c t p);
      })
  Kind-TokensValid e e' _ (an_update caller display_name bio o) v = rw o.result (record {
    in_range = v.in_range;
    nonneg = v.nonneg;
    tracked = v.tracked;
    owned = λ c t p. ground (arith, v.owned c t p);
  })
  Kind-TokensValid e e' _ (an_unregistration caller o) v = rw o.result (record {
    in_range = v.in_range;
    nonneg = v.nonneg;
    tracked = λ c t p. ground (arith, v.tracked c t, Unregistered-holds_nothing e e' caller o v t);
    owned = λ c t p. ground (arith, v.owned c t, Unregistered-holds_nothing e e' caller o v t);
  })
  Kind-TokensValid e e' bps (a_tip from creator token amount message index o) v =
      let bounds = fee_bounds amount (unwrap_or e.inst.fee_bps 0) o.positive bps in
      rw o.result (record {
        in_range = λ c t. ground (arith, v.in_range c t, o.settled.credit_fits);
        nonneg = λ c t. grind (int_laws, v.nonneg c t, o.fee_is, bounds);
        tracked = λ c t p. rw contains-tracked (ground (arith, v.tracked c t));
        owned = λ c t p. ground (arith, v.owned c t, o.registered);
      })
  Kind-TokensValid e e' _ (a_withdrawal caller token amount o) v = rw o.result (record {
    in_range = λ c t. ground (
      arith,
      v.in_range c t,
      zero_fits,
      left_fits (unwrap_or (e.pers.balance caller token) (pos 0)) amount (v.in_range caller token)
          o.positive o.covered,
    );
    nonneg = λ c t. ground (arith, v.nonneg c t);
    tracked = λ c t p.
        let left = unwrap_or (e.pers.balance caller token) (pos 0) -ℤ amount in
        let before =
          funded (unwrap_or (e.pers.balance caller token) (pos 0)) amount o.positive o.covered in
        elim (Bool-cases (ltb_ℤ (pos 0) left)) [
          | inl more ↦ rw more (ground (arith, v.tracked c t, before))
          | inr done ↦ rw (done, contains-untracked) (ground (arith, v.tracked c t, done))
        ];
    owned = λ c t p. ground (arith, v.owned c t, o.registered);
  })
