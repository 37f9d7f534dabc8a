-- ===== src/Fuzz/Moves.antt =====
-- A tip and a withdrawal of the tests return, and move what the accounts have.
use stellar_tip_contract.Base.{ℕ, ◌≤◌, ◌+◌, ◌-◌, pos, ◌≡◌, refl, ◌∙◌, update, false, arith}
use stellar_tip_contract.Host.{Host, MapLaws, Text}
use stellar_tip_contract.Types.{max_fee_bps}
use stellar_tip_contract.Env.{Env, ok}
use stellar_tip_contract.Contract.{tip, withdraw}
use stellar_tip_contract.Fees.{div_bound}
use stellar_tip_contract.Fuzz.Environment.{TestUtils}
use stellar_tip_contract.Fuzz.Laws.{TestLaws}
use stellar_tip_contract.Fuzz.Amounts.{fee_due}
use stellar_tip_contract.Fuzz.Ready.{Ready, Ready-held}
use stellar_tip_contract.Fuzz.Ready.Tips.{tip_returns}
use stellar_tip_contract.Fuzz.Ready.Withdrawals.{withdraw_returns}
use stellar_tip_contract.Fuzz.Standing.{Standing}

module _ {h : Host} (maps : MapLaws h) (sdk : TestUtils h) (laws : TestLaws h sdk) where
  -- The one creator is the first.
  one_held :
      (fee_bps held v count : ℕ) (e : Env h)
      → Ready maps sdk 1 fee_bps false (update (λ _. held) 0 v) count e
      → Ready maps sdk 1 fee_bps false (λ _. v) count e
  one_held fee_bps held v count e =
      Ready-held maps sdk 1 fee_bps false (update (λ _. held) 0 v) (λ _. v) count e
        (λ i p. ground (arith, p))

  module _ (fee_bps rest held fees paid count : ℕ) (e : Env h)
      (s : Standing maps sdk fee_bps rest held fees paid count e)
      (bounded : rest + held + fees + paid ≤ 1_000_000_000_000_000) where
    pub tip_moves :
        (n : ℕ) (message : Text)
        → 1 ≤ n
        → n ≤ rest
        → n ≤ 1_000_000_000_000
        → fee_bps ≤ max_fee_bps
        → count ≤ 1000
        → let f = fee_due n fee_bps in
          (index : ℕ) × (e' : Env h) × (tip
              (sdk.address 6)
              (sdk.address 5)
              (sdk.address 4)
              (pos n)
              message
              e
            ≡ ok (index, e'))
          × Standing maps sdk fee_bps (rest - n) (held + (n - f)) (fees + f) paid (count + 1) e'
    tip_moves n message positive covered small range few =
        let f = fee_due n fee_bps in
        let below = div_bound n fee_bps range in
        let (index, e', ran, ready, o) =
          tip_returns maps sdk laws 1 fee_bps (λ _. held) count e s.ready 0 (omega arith)
            (sdk.address 6) n message range rest held fees (laws.distinct 6 2 refl)
            (laws.distinct 2 6 refl) (laws.distinct 1 6 refl) s.tipper_holds s.contract_holds
            s.recipient_holds covered positive small (omega (arith, covered, bounded))
            (omega (arith, covered, bounded)) (omega (arith, covered, bounded)) few in
        (
          index,
          e',
          ran,
          record {
            ready = one_held fee_bps held (held + (n - f)) (count + 1) e' ready;
            contract_holds = o.contract_holds;
            recipient_holds = o.recipient_holds;
            creator_holds =
                o.others (sdk.address 5) (laws.distinct 5 6 refl) (laws.distinct 5 2 refl)
                  (laws.distinct 5 1 refl)
                ∙ s.creator_holds;
            tipper_holds = o.from_holds;
          },
        )

    pub withdraw_moves :
        (w : ℕ)
        → 1 ≤ w
        → w ≤ held
        → (e' : Env h) × (withdraw (sdk.address 5) (sdk.address 4) (pos w) e ≡ ok (tt, e'))
          × Standing maps sdk fee_bps rest (held - w) fees (paid + w) count e'
    withdraw_moves w positive covered =
        let (e', ran, ready, o) =
          withdraw_returns maps sdk laws 1 fee_bps (λ _. held) count e s.ready 0 (omega arith) w
            covered held paid s.contract_holds s.creator_holds positive covered
            (omega (arith, covered, bounded)) in
        (
          e',
          ran,
          record {
            ready = one_held fee_bps held (held - w) count e' ready;
            contract_holds = o.contract_holds;
            recipient_holds =
                o.others (sdk.address 1) (laws.distinct 1 2 refl) (laws.distinct 1 5 refl)
                ∙ s.recipient_holds;
            creator_holds = o.to_holds;
            tipper_holds =
                o.others (sdk.address 6) (laws.distinct 6 2 refl) (laws.distinct 6 5 refl)
                ∙ s.tipper_holds;
          },
        )
