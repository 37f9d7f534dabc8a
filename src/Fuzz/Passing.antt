-- ===== src/Fuzz/Passing.antt =====
-- The tests of src/fuzz.rs with a single tip pass for every value that proptest may draw.
use stellar_tip_contract.Base.{ℕ, ◌≤◌, ◌<◌, ◌+◌, ◌-◌, pos, ◌≡◌, refl, ◌∙◌, arith}
use stellar_tip_contract.Host.{Host, MapLaws}
use stellar_tip_contract.Types.{max_fee_bps}
use stellar_tip_contract.Contract.{get_balance}
use stellar_tip_contract.Fees.{div_bound}
use stellar_tip_contract.Fuzz.Environment.{TestUtils, Sandbox, passed, balance, view, sandbox}
use stellar_tip_contract.Fuzz.Properties.{
  ok_text, thanks_text, test_i128_boundary_amount_no_overflow, test_tip_balance_invariant,
}
use stellar_tip_contract.Fuzz.Laws.{
  TestLaws, ◌<|◌, on, on_call, on_mint, on_checked, on_assert, at_assert,
}
use stellar_tip_contract.Fuzz.Amounts.{same_pos, fee_due, quotient_is, pos_sub, small_fits}
use stellar_tip_contract.Fuzz.Opening.{starts}
use stellar_tip_contract.Fuzz.Charges.{on_charges}
use stellar_tip_contract.Fuzz.Moves.{tip_moves}

module _ {h : Host} (maps : MapLaws h) (sdk : TestUtils h) (laws : TestLaws h sdk) where
  boundary_amount_passes :
      (n : ℕ)
      → 1 ≤ n
      → n ≤ 1_000_000_000_000
      → (w : Sandbox h) × (test_i128_boundary_amount_no_overflow sdk (pos n) (sandbox sdk)
          ≡ passed (tt, w))
  unfolding test_i128_boundary_amount_no_overflow view get_balance
  boundary_amount_passes n positive small =
      let free : 0 ≤ max_fee_bps = omega arith in
      let total : n + 0 + 0 + 0 ≤ 1_000_000_000_000_000 = omega (arith, small) in
      let (e₀, l, minted, s₀, begin) = starts maps sdk laws n 0 _ free (omega (arith, small)) in
      let (index, e₁, ran, s) =
        tip_moves maps sdk laws 0 n 0 0 0 0 (record e₀ { ledger = l }) s₀ total n ok_text positive
          (omega arith) small free (omega arith) in
      (
        _,
        (begin _
            <| on_mint sdk _ _ _ _ minted
            <| on_call _ _ ran
            <| on _ _ refl
            <| at_assert _ _ _ ((s.ready.balance 0 (omega arith)) ∙ same_pos (omega arith))).ends,
      )

  tip_balance_passes :
      (n fee_bps : ℕ)
      → 1 ≤ n
      → n ≤ 1_000_000_000_000
      → fee_bps < 10_000
      → (w : Sandbox h) × (test_tip_balance_invariant sdk (pos n) fee_bps (sandbox sdk)
          ≡ passed (tt, w))
  unfolding test_tip_balance_invariant view balance get_balance
  tip_balance_passes n fee_bps positive small range =
      let rate : fee_bps ≤ max_fee_bps = omega (arith, range) in
      let total : n + 0 + 0 + 0 ≤ 1_000_000_000_000_000 = omega (arith, small) in
      let f = fee_due n fee_bps in
      let below = div_bound n fee_bps rate in
      let (e₀, l, minted, s₀, begin) =
        starts maps sdk laws n fee_bps _ rate (omega (arith, small)) in
      let (index, e₁, ran, s) =
        tip_moves maps sdk laws fee_bps n 0 0 0 0 (record e₀ { ledger = l }) s₀ total n thanks_text
          positive (omega arith) small rate (omega arith) in
      (
        _,
        (begin _
            <| on_mint sdk _ _ _ _ minted
            <| on _ _ refl
            <| on_call _ _ ran
            <| on_charges n fee_bps _ small rate
            <| on _ _ refl
            <| on_assert _ _ _ (s.ready.balance 0 (omega arith) ∙ same_pos (omega arith))
            <| on _ _ refl
            <| on_checked _ _ (
                rw (s.recipient_holds, s₀.recipient_holds, pos_sub (0 + f) 0 (omega arith))
                  (small_fits (0 + f - 0) (omega (arith, below, small))))
            <| on_assert _ _ _ (
                rw
                  (
                    s.recipient_holds,
                    s₀.recipient_holds,
                    pos_sub (0 + f) 0 (omega arith),
                    quotient_is n fee_bps,
                  )
                  (same_pos (omega arith)))
            <| on _ _ refl
            <| at_assert _ _ _ (s.contract_holds ∙ same_pos (omega arith))).ends,
      )

  -- For every amount from 1 to 10^12 and every fee below 100%, `test_i128_boundary_amount_no_overflow`
  -- and `test_tip_balance_invariant` run to their end: no call panics, no addition or multiplication
  -- overflows, and every assertion holds.
  pub tip_tests_pass :
      (n fee_bps : ℕ)
      → 1 ≤ n
      → n ≤ 1_000_000_000_000
      → fee_bps < 10_000
      → ((w : Sandbox h) × (test_i128_boundary_amount_no_overflow sdk (pos n) (sandbox sdk)
            ≡ passed (tt, w)))
        × ((w : Sandbox h) × (test_tip_balance_invariant sdk (pos n) fee_bps (sandbox sdk)
              ≡ passed (tt, w)))
  tip_tests_pass n fee_bps positive small range =
      (boundary_amount_passes n positive small, tip_balance_passes n fee_bps positive small range)
