-- ===== src/Outcome/Tipping.antt =====
-- What `tip` has checked and written when it returns its index.
use stellar_tip_contract.Base.{
  ℕ, ◌+◌, ℤ, pos, ◌+ℤ◌, ◌-ℤ◌, ◌*ℤ◌, ◌/ℤ◌, ltb, leb, ltb_ℤ, leb_ℤ, ◌≡◌, refl, ◌⊎◌, inl, inr, of_not,
  true, false, not, ◌&&◌, Option, some, ◌∷◌, is_some, unwrap_or, if◌then◌else◌, update, update₂,
}
use stellar_tip_contract.Host.{Host, Address, Text}
use stellar_tip_contract.Types.{
  DataKey, Tip, tip_data, max_fee_bps, event_tip_sent, ttl_threshold, ttl_extend,
}
use stellar_tip_contract.Env.{Env, of_entry, fits_i128, fits_u64}
use stellar_tip_contract.Env.Ensures.{
  Ensures, after, after_gets, after_auth, after_panic_if, after_checked, after_persistent,
  after_extend, after_transfer, after_or_panic, after_if, after_pure, by_pure, by_checked,
  by_publish, by_extend, by_transfer, by_if,
}
use stellar_tip_contract.Contract.{
  fee_of, forward_fee, credit_balance, track_token, record_tip, settle, tip,
}
use stellar_tip_contract.Outcome.Common.{IsOpen, extended, check_lem}

-- The fee of a tip, as the source computes it.
unfoldable pub fee_amount : ℤ → ℕ → ℤ
fee_amount amount fee_bps = amount *ℤ pos fee_bps /ℤ pos max_fee_bps

-- The fee has gone from the contract to the recipient, or there was none.
abbrev pub FeePaid :
    (h : Host) → Address → Address → Option Address → ℤ → h.Ledger → h.Ledger → Type 0
FeePaid h token contract opt_fee_recipient fee l l' =
    ((ltb_ℤ (pos 0) fee ≡ false) × (l' ≡ l))
    ⊎ ((recipient : Address) × (ltb_ℤ (pos 0) fee ≡ true)
        × (opt_fee_recipient ≡ some recipient)
        × (h.transfer l token contract recipient fee ≡ some l'))

module _ {h : Host} where
  abbrev pub after_credit : Address → Address → ℤ → Env h → Env h
  after_credit creator token balance e = record e {
    pers = record e.pers { balance = update₂ e.pers.balance creator token (some balance) };
    extensions = of_entry (DataKey.balance creator token) ttl_threshold ttl_extend ∷ e.extensions;
  }

  abbrev pub tracked : Address → Address → Env h → Address → Option h.TokenSet
  tracked creator token e =
      let tokens = unwrap_or (e.pers.creator_tokens creator) h.new_map in
      if not (h.contains_key tokens token)
      then update e.pers.creator_tokens creator (some (h.insert_key tokens token))
      else e.pers.creator_tokens

  abbrev pub after_track : Address → Address → Env h → Env h
  after_track creator token e = record e {
    pers = record e.pers { creator_tokens = tracked creator token e };
    extensions = of_entry (DataKey.creator_tokens creator) ttl_threshold ttl_extend ∷ e.extensions;
  }

  abbrev pub after_record : Address → ℕ → Tip → Env h → Env h
  after_record creator index tip e = record e {
    pers = record e.pers {
      tip = update₂ e.pers.tip creator index (some tip);
      tip_count = update e.pers.tip_count creator (some (index + 1));
    };
    extensions =
        of_entry (DataKey.tip_count creator) ttl_threshold ttl_extend
        ∷ of_entry (DataKey.tip creator index) ttl_threshold ttl_extend
        ∷ e.extensions;
  }

  pub fee_of_lem :
      (amount : ℤ) (fee_bps : ℕ) (e : Env h)
      → Ensures (fee_of amount fee_bps) e (λ fee e'. (fee ≡ fee_amount amount fee_bps) × (e' ≡ e))
  unfolding fee_of fee_amount
  fee_of_lem amount fee_bps e = after_checked _ _ _ λ _. by_checked _ _ λ _. (refl, refl)

  pub forward_fee_lem :
      (token : Address) (opt_fee_recipient : Option Address) (fee : ℤ) (e : Env h)
      → Ensures (forward_fee token opt_fee_recipient fee) e (λ _ e'.
        (l : h.Ledger) × (e' ≡ record e { ledger = l })
        × FeePaid h token e.current_contract_address opt_fee_recipient fee e.ledger l)
  unfolding forward_fee
  forward_fee_lem token opt_fee_recipient fee e =
      by_if _ _ _
        (λ some_fee. after_or_panic _ _ _ λ recipient set.
          after_gets _ _
            (by_transfer _ _ _ _ λ l paid. (l, refl, inr (recipient, some_fee, set, paid))))
        (λ no_fee. by_pure tt (e.ledger, refl, inl (no_fee, refl)))

  pub credit_balance_lem :
      (creator token : Address) (amount : ℤ) (e : Env h)
      → Ensures (credit_balance creator token amount) e (λ _ e'.
        let balance = unwrap_or (e.pers.balance creator token) (pos 0) +ℤ amount in
        (fits_i128 balance ≡ true) × (e' ≡ after_credit creator token balance e))
  unfolding credit_balance
  credit_balance_lem creator token amount e =
      after_gets _ _
        (after_checked _ _ _ λ fits. after_persistent _ _ (by_extend _ λ _. (fits, refl)))

  pub track_token_lem :
      (creator token : Address) (e : Env h)
      → Ensures (track_token creator token) e (λ _ e'. e' ≡ after_track creator token e)
  unfolding track_token
  track_token_lem creator token e = after_gets _ _ (
      after_if (not (h.contains_key (unwrap_or (e.pers.creator_tokens creator) h.new_map) token)) _
        _ _ (λ new. after_persistent _ _ (by_extend _ λ _. rw new))
        (λ old. after_pure _ _ (by_extend _ λ _. rw old)))

  pub record_tip_lem :
      (creator : Address) (index : ℕ) (t : Tip) (e : Env h)
      → Ensures
          (record_tip creator index t)
          e
          (λ _ e'. (fits_u64 (index + 1) ≡ true) × (e' ≡ after_record creator index t e))
  unfolding record_tip
  record_tip_lem creator index t e = after_persistent _ _ (
      after_extend _ _
        λ _. after_checked _ _ _ λ fits. after_persistent _ _ (by_extend _ λ _. (fits, refl)))

  -- The environment after a tip: the ledger is the one that the transfers left.
  abbrev pub after_tip : Address → Address → Address → ℤ → Text → ℤ → ℕ → h.Ledger → Env h → Env h
  after_tip from creator token amount message fee index l e =
      let balance = unwrap_or (e.pers.balance creator token) (pos 0) +ℤ (amount -ℤ fee) in
      let t : Tip = record {
        from = from;
        token = token;
        amount = amount;
        message = message;
        timestamp = e.timestamp;
      } in
      let last = after_record creator index t (
        after_track creator token (after_credit creator token balance (record e { ledger = l }))) in
      record last {
        events =
            (record {
              topic = event_tip_sent;
              subject = from;
              payload = tip_data creator token amount fee index;
            })
            ∷ e.events;
      }

  -- What steps 1 to 6 have done: the two transfers, and the environment that they leave.
  pub record Settled (from creator token : Address) (amount : ℤ) (message : Text) (fee : ℤ)
      (index : ℕ) (e e' : Env h) : Type 0 where
    pub credit_fits :
        fits_i128 (unwrap_or (e.pers.balance creator token) (pos 0) +ℤ (amount -ℤ fee)) ≡ true
    pub paid_in : h.Ledger
    pub payment : h.transfer e.ledger token from e.current_contract_address amount ≡ some paid_in
    pub paid_out : h.Ledger
    pub fee_payment :
        FeePaid h token e.current_contract_address e.inst.fee_recipient fee paid_in paid_out
    pub result : e' ≡ after_tip from creator token amount message fee index paid_out e

  pub settle_lem :
      (from creator token : Address) (amount : ℤ) (message : Text) (fee : ℤ) (index : ℕ) (e : Env h)
      → Ensures
          (settle from creator token amount message fee (amount -ℤ fee) e.inst.fee_recipient index)
          e
          (λ _ e'. Settled from creator token amount message fee index e e')
  unfolding settle
  settle_lem from creator token amount message fee index e = after_gets _ _ (
      after_transfer _ _ _ _ _ λ l paid. after _ (forward_fee_lem _ _ _ _) λ _ e₁ f. rw f.1 (
        after _ (credit_balance_lem _ _ _ _) λ _ e₂ c. rw c.1 (
          after _ (track_token_lem _ _ _) λ _ e₃ t. rw t (
            after_gets _ _ (
              after _ (record_tip_lem _ _ _ _) λ _ e₄ r. rw r.1 (
                by_publish _ _ _ (record {
                  credit_fits = c.0;
                  paid_in = l;
                  payment = paid;
                  paid_out = f.0;
                  fee_payment = f.2;
                  result = refl;
                })))))))

  -- The checks that a tip has passed, its two transfers, and the environment that it leaves.
  pub record Tipped (from creator token : Address) (amount : ℤ) (message : Text) (e : Env h)
      (index : ℕ) (e' : Env h) : Type 0 where
    pub authorized : e.authorized from ≡ true
    pub is_open : IsOpen e
    pub positive : leb_ℤ amount (pos 0) ≡ false
    pub above_minimum :
        (ltb_ℤ (pos 0) (unwrap_or e.inst.min_tip_amount (pos 0))
          && ltb_ℤ amount (unwrap_or e.inst.min_tip_amount (pos 0)))
        ≡ false
    pub registered : is_some (e.inst.profile creator) ≡ true
    pub below_cap :
        (ltb 0 (unwrap_or e.inst.max_tips_per_creator 0)
          && leb (unwrap_or e.inst.max_tips_per_creator 0) index)
        ≡ false
    pub index_is : index ≡ unwrap_or (e.pers.tip_count creator) 0
    pub fee : ℤ
    pub fee_is : fee ≡ fee_amount amount (unwrap_or e.inst.fee_bps 0)
    pub settled : Settled from creator token amount message fee index (extended e) e'
    pub open settled use *

  pub tip_lem :
      (from creator token : Address) (amount : ℤ) (message : Text) (e : Env h)
      → Ensures
          (tip from creator token amount message)
          e
          (Tipped from creator token amount message e)
  unfolding tip
  tip_lem from creator token amount message e = after_auth _ _ λ authorized.
      after _ (check_lem e) λ _ e₁ open₁. rw open₁.1 (
        after_panic_if _ _ _ λ positive. after_gets _ _ (
          after_panic_if _ _ _ λ above_minimum. after_gets _ _ (
            after_panic_if _ _ _ λ registered. after_gets _ _ (
              after_gets _ _ (
                after_panic_if _ _ _ λ below_cap. after_gets _ _ (
                  after _ (fee_of_lem amount _ _) λ fee e₂ fee₂. rw fee₂.1 (
                    after_checked _ _ _ λ _. after_gets _ _ (
                      after_panic_if _ _ _ λ _. after _ (settle_lem _ _ _ _ _ _ _ _) λ _ e₃ settled.
                        by_pure _ (record {
                          authorized = authorized;
                          is_open = open₁.0;
                          positive = positive;
                          above_minimum = above_minimum;
                          registered = of_not registered;
                          below_cap = below_cap;
                          index_is = refl;
                          fee = fee;
                          fee_is = fee₂.0;
                          settled = settled;
                        })))))))))
