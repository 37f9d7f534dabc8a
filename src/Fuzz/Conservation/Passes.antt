-- ===== src/Fuzz/Conservation/Passes.antt =====
-- The test passes.
use stellar_tip_contract.Base.{ℕ, ◌≤◌, ◌<◌, ◌==◌, false, pos, ◌≡◌, refl, List, length, arith}
use stellar_tip_contract.Host.{Host, MapLaws}
use stellar_tip_contract.Types.{max_fee_bps}
use stellar_tip_contract.Fuzz.Environment.{TestUtils, Sandbox, passed, balance, sandbox}
use stellar_tip_contract.Fuzz.Batches.{Operation, test_token_conservation_invariant}
use stellar_tip_contract.Fuzz.Laws.{◌<|◌, TestLaws, on, at_assert}
use stellar_tip_contract.Fuzz.Start.{initialized, begins}
use stellar_tip_contract.Fuzz.Crowd.{total}
use stellar_tip_contract.Fuzz.Crowd.Enrolling.{initialized-Enrolled, Enrolled-Crowd}
use stellar_tip_contract.Fuzz.Conservation.Owners.{owners, taken_names}
use stellar_tip_contract.Fuzz.Conservation.Registering.{creators_register}
use stellar_tip_contract.Fuzz.Conservation.Operations.{AllDrawn, Going, operations_run}
use stellar_tip_contract.Fuzz.Conservation.Counting.{balances_sum}

module _ {h : Host} (maps : MapLaws h) (sdk : TestUtils h) (laws : TestLaws h sdk) where
  -- For all fees, numbers of creators and operations that proptest may draw,
  -- `test_token_conservation_invariant` runs to its end: every registration, mint, tip and withdrawal
  -- returns, no arithmetic overflows, and at the end the contract's token balance is the sum of the
  -- creators' balances.
  pub conservation_passes :
      (fee_bps num_creators : ℕ) (ops : List Operation)
      → fee_bps < 10_000
      → 1 ≤ num_creators
      → num_creators < 6
      → 1 ≤ length ops
      → length ops < 6
      → AllDrawn ops
      → (w : Sandbox h) × (test_token_conservation_invariant sdk fee_bps num_creators ops
            (sandbox sdk)
          ≡ passed (tt, w))
  unfolding test_token_conservation_invariant balance owners total
  conservation_passes fee_bps k ops range some_creators few_creators some_ops few_ops drawn =
      let rate : fee_bps ≤ max_fee_bps = omega (arith, range) in
      let (l, zeroed, begin) = begins sdk laws fee_bps _ rate in
      let w₀ : Sandbox h = record { env = initialized sdk fee_bps l; generated = 5 } in
      let (w₁, registered, made, s₁, same) =
        creators_register maps sdk laws fee_bps k 0 k w₀ (omega arith) (omega (arith, few_creators))
          refl (initialized-Enrolled maps sdk laws fee_bps l rate) in
      let nothing : (a : ℕ)
          → (a == 0) ≡ false
          → sdk.balance w₁.env.ledger (sdk.address 4) (sdk.address a) ≡ pos 0 =
        λ a p. rw same (zeroed (sdk.address a) (laws.distinct a 0 p)) in
      let s₂ : Going maps sdk laws k fee_bps 0 w₁ = record {
        held = λ _. 0;
        fees = 0;
        count = 0;
        minted = 0;
        crowd =
            Enrolled-Crowd maps sdk laws fee_bps k w₁.generated (taken_names maps sdk k) w₁.env s₁
              nothing (omega (arith, made));
        few = omega arith;
        supply = omega arith;
      } in
      let (w₂, ran, s) =
        operations_run maps sdk laws k fee_bps ops 0 w₁ s₂ rate some_creators
          (omega (arith, few_ops)) drawn in
      (
        w₂,
        (begin _
            <| on _ _ registered
            <| on _ _ ran
            <| on _ _ refl
            <| on _ _ (
                balances_sum maps sdk k fee_bps s.held s.count w₂ s.crowd.ready
                  (omega (arith, s.crowd.backed, s.supply, few_ops)) k 0 (omega arith))
            <| at_assert _ _ _ s.crowd.contract_holds).ends,
      )
