-- ===== src/Fuzz/Ready/Tips.antt =====
-- A tip of the tests, on the contract's storage.
use stellar_tip_contract.Base.{
  ℕ, ◌≤◌, ◌<◌, ◌+◌, ◌-◌, pos, ltb_ℤ, ◌==◌, ==_iff, ◌≡◌, refl, ◌∙◌, subst, update, true, false, some,
  none, is_some, Bool-cases, inl, inr, if◌then◌else◌, arith,
}
use stellar_tip_contract.Host.{Host, MapLaws, Address, Text, moved}
use stellar_tip_contract.Types.{max_fee_bps}
use stellar_tip_contract.Env.{Env, ok, fits_u64}
use stellar_tip_contract.Env.Decides.{first_panic}
use stellar_tip_contract.Contract.{
  Call, tip, get_admin, is_paused, get_balance, get_tip_count, get_fee_percentage,
  get_fee_recipient, get_max_tips_per_creator, get_min_tip_amount, is_creator,
}
use stellar_tip_contract.Fees.{fee_amount-pos, div_bound}
use stellar_tip_contract.Outcome.Tipping.{Tipped, FeePaid, tip_lem}
use stellar_tip_contract.System.Kind.{kind}
use stellar_tip_contract.System.Config.{Done-ConfigValid}
use stellar_tip_contract.System.Tokens.{Kind-TokensValid}
use stellar_tip_contract.Panics.Listed.{tests, after_fee}
use stellar_tip_contract.Panics.Tipping.{tip-Decided}
use stellar_tip_contract.Fuzz.Environment.{TestUtils}
use stellar_tip_contract.Fuzz.Laws.{TestLaws, itself, returned_by}
use stellar_tip_contract.Fuzz.Payment.{pays, paid_balance}
use stellar_tip_contract.Fuzz.Amounts.{
  product_fits, amount_fits, fee_due, pos_add, pos_sub, small_fits,
}
use stellar_tip_contract.Fuzz.Shifts.{TipMoved, tip_moved}
use stellar_tip_contract.Fuzz.Ready.{owner, Ready}

count_fits : (index count : ℕ) → index ≤ count → count ≤ 1000 → fits_u64 (index + 1) ≡ true
unfolding fits_u64
count_fits index count p q = ground arith

module _ {h : Host} (maps : MapLaws h) (sdk : TestUtils h) (laws : TestLaws h sdk) where
  -- Different owners have different addresses.
  pub owner_apart : (i j : ℕ) → (i == j) ≡ false → (owner maps sdk i == owner maps sdk j) ≡ false
  owner_apart i j p = laws.distinct (5 + i) (5 + j) (ground (arith, p))

  module _ (k fee_bps : ℕ) (held : ℕ → ℕ) (count : ℕ) (e : Env h)
      (s : Ready maps sdk k fee_bps false held count e) (i : ℕ) (among : i < k) (from : Address)
      (n : ℕ) (message : Text) (range : fee_bps ≤ max_fee_bps) where
    passes :
        (l₁ l₂ : h.Ledger)
        → h.transfer e.ledger (sdk.address 4) from (sdk.address 2) (pos n) ≡ some l₁
        → (if ltb_ℤ (pos 0) (pos (fee_due n fee_bps))
            then h.transfer l₁
                (sdk.address 4)
                (sdk.address 2)
                (sdk.address 1)
                (pos (fee_due n fee_bps))
            else some l₁)
          ≡ some l₂
        → 1 ≤ n
        → n ≤ 1_000_000_000_000
        → held i + n ≤ 1_000_000_000_000_000
        → count ≤ 1000
        → first_panic (tests (Call.tip from (owner maps sdk i) (sdk.address 4) (pos n) message) e)
          ≡ none
    unfolding get_admin is_paused get_balance get_tip_count get_fee_percentage get_fee_recipient
        get_max_tips_per_creator get_min_tip_amount is_creator
    passes l₁ l₂ first sent positive small room few =
        let f = fee_due n fee_bps in
        let below = div_bound n fee_bps range in
        let forwarded : is_some
              (after_fee h (sdk.address 4) (sdk.address 2) (some (sdk.address 1)) (pos f) (some l₁))
            ≡ true =
          rw sent refl in
        rw
          (
            s.authorized from,
            s.admin_is,
            s.flag,
            s.minimum,
            s.registered i among,
            s.uncapped,
            s.rate,
            s.recipient,
            s.contract_is,
            first,
            fee_amount-pos n fee_bps,
            forwarded,
            product_fits n fee_bps small range,
            s.balance i among,
            pos_sub n f below,
            pos_add (held i) (n - f),
            small_fits (held i + (n - f)) (omega (arith, room)),
            count_fits _ count (s.counted i among) few,
          )
          (ground (arith, positive))

    Tipped-Ready :
        (index : ℕ) (e' : Env h)
        → Tipped from (owner maps sdk i) (sdk.address 4) (pos n) message e index e'
        → Ready maps sdk k fee_bps false
            (update held i (held i + (n - fee_due n fee_bps)))
            (count + 1)
            e'
    Tipped-Ready index e' o =
        let f = fee_due n fee_bps in
        let token = sdk.address 4 in
        let c = Call.tip from (owner maps sdk i) token (pos n) message in
        let fee_is : o.fee ≡ pos f = o.fee_is ∙ rw s.rate (fee_amount-pos n fee_bps) in
        record {
          authorized = λ a. rw o.result (s.authorized a);
          contract_is = rw o.result s.contract_is;
          admin_is = rw o.result s.admin_is;
          flag = rw o.result s.flag;
          rate = rw o.result s.rate;
          recipient = rw o.result s.recipient;
          minimum = rw o.result s.minimum;
          uncapped = rw o.result s.uncapped;
          registered = λ j p. rw o.result (s.registered j p);
          counted =
              λ j p. rw (o.result, o.index_is) (ground (arith, s.counted i among, s.counted j p));
          balance = λ j p. elim (Bool-cases (j == i)) [
            | inl same ↦
                let here = (==_iff j i).0 same in
                rw
                  (
                    o.result,
                    here,
                    itself i,
                    itself (owner maps sdk i),
                    itself token,
                    s.balance i among,
                    fee_is,
                    pos_sub n f (div_bound n fee_bps range),
                  )
                  (pos_add (held i) (n - f))
            | inr other ↦ rw (o.result, owner_apart j i other, other) (s.balance j p)
          ];
          config = Done-ConfigValid c e e' (index, o) s.config;
          tracking =
              Kind-TokensValid maps e e' s.config.fee_range (kind c e e' (index, o)) s.tracking;
        }

    Tipped-balance :
        (index : ℕ) (e' : Env h)
        → (from == sdk.address 2) ≡ false
        → Tipped from (owner maps sdk i) (sdk.address 4) (pos n) message e index e'
        → (a : Address)
        → sdk.balance e'.ledger (sdk.address 4) a
          ≡ moved
              (moved (sdk.balance e.ledger (sdk.address 4) a) from (sdk.address 2) (pos n) a)
              (sdk.address 2)
              (sdk.address 1)
              (pos (fee_due n fee_bps))
              a
    Tipped-balance index e' apart o a =
        let f = fee_due n fee_bps in
        let token = sdk.address 4 in
        let fee_is : o.fee ≡ pos f = o.fee_is ∙ rw s.rate (fee_amount-pos n fee_bps) in
        let payment =
          subst (λ b. h.transfer e.ledger token from b (pos n) ≡ some o.paid_in) s.contract_is
            o.payment in
        let forwarded =
          subst (λ b. FeePaid h token b (some (sdk.address 1)) (pos f) o.paid_in o.paid_out)
            s.contract_is
            (subst (λ r. FeePaid h token e.current_contract_address r (pos f) o.paid_in o.paid_out)
              s.recipient
              (subst
                (λ x.
                  FeePaid h token e.current_contract_address e.inst.fee_recipient x o.paid_in
                    o.paid_out)
                fee_is o.fee_payment)) in
        rw o.result (
          paid_balance sdk laws e.ledger o.paid_in o.paid_out token from (sdk.address 2)
            (sdk.address 1) n f apart (laws.distinct 2 1 refl) payment forwarded a)

    -- The tip returns, and has moved the tokens.
    pub tip_returns :
        (rest kept fees : ℕ)
        → (from == sdk.address 2) ≡ false
        → (sdk.address 2 == from) ≡ false
        → (sdk.address 1 == from) ≡ false
        → sdk.balance e.ledger (sdk.address 4) from ≡ pos rest
        → sdk.balance e.ledger (sdk.address 4) (sdk.address 2) ≡ pos kept
        → sdk.balance e.ledger (sdk.address 4) (sdk.address 1) ≡ pos fees
        → n ≤ rest
        → 1 ≤ n
        → n ≤ 1_000_000_000_000
        → held i + n ≤ 1_000_000_000_000_000
        → kept + n ≤ 1_000_000_000_000_000
        → fees + n ≤ 1_000_000_000_000_000
        → count ≤ 1000
        → (index : ℕ) × (e' : Env h) × (tip from
              (owner maps sdk i)
              (sdk.address 4)
              (pos n)
              message
              e
            ≡ ok (index, e'))
          × Ready maps sdk k fee_bps false
              (update held i (held i + (n - fee_due n fee_bps)))
              (count + 1)
              e'
          × TipMoved sdk e.ledger e'.ledger from n (fee_due n fee_bps) rest kept fees
    tip_returns rest kept fees p p' q from_has contract_has recipient_has covered positive small
          room₁ room₂ room₃ few =
        let (l₁, first, l₂, sent) =
          pays sdk laws e.ledger (sdk.address 4) from (sdk.address 2) (sdk.address 1) rest kept fees
            n (fee_due n fee_bps) p p' q (laws.distinct 1 2 refl) (laws.distinct 2 1 refl) from_has
            contract_has recipient_has covered (div_bound n fee_bps range) room₂ room₃ in
        let (index, e', ran, o) =
          returned_by (tip from (owner maps sdk i) (sdk.address 4) (pos n) message)
            (tip-Decided maps from (owner maps sdk i) (sdk.address 4) (pos n) message e s.config
              (amount_fits n small))
            (passes l₁ l₂ first sent positive small room₁ few)
            (tip_lem from (owner maps sdk i) (sdk.address 4) (pos n) message e) in
        (
          index,
          e',
          ran,
          Tipped-Ready index e' o,
          tip_moved sdk e.ledger e'.ledger laws from n (fee_due n fee_bps) rest kept fees p' q
              from_has contract_has recipient_has covered (div_bound n fee_bps range)
              (Tipped-balance index e' p o),
        )
