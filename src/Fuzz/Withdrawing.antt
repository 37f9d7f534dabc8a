-- ===== src/Fuzz/Withdrawing.antt =====
-- The test of src/fuzz.rs that withdraws passes for every value that proptest may draw.
use stellar_tip_contract.Base.{ℕ, ◌≤◌, ◌<◌, ◌+◌, ◌-◌, min, pos, ◌-ℤ◌, ◌≡◌, refl, ◌∙◌, arith}
use stellar_tip_contract.Host.{Host, MapLaws}
use stellar_tip_contract.Types.{max_fee_bps}
use stellar_tip_contract.Contract.{get_balance}
use stellar_tip_contract.Fees.{div_bound}
use stellar_tip_contract.Fuzz.Environment.{TestUtils, Sandbox, passed, balance, view, sandbox}
use stellar_tip_contract.Fuzz.Properties.{thanks_text, test_withdraw_balance_invariant}
use stellar_tip_contract.Fuzz.Laws.{
  ◌<|◌, TestLaws, on, on_call, on_mint, on_checked, on_assert, on_assume, at_assert,
}
use stellar_tip_contract.Fuzz.Amounts.{same_pos, fee_due, fee_below, pos_sub, small_fits, asked_for}
use stellar_tip_contract.Fuzz.Opening.{starts}
use stellar_tip_contract.Fuzz.Charges.{on_charges}
use stellar_tip_contract.Fuzz.Moves.{tip_moves}
use stellar_tip_contract.Fuzz.Moves.{withdraw_moves}

module _ {h : Host} (maps : MapLaws h) (sdk : TestUtils h) (laws : TestLaws h sdk) where
  -- For all amounts that proptest may draw, `test_withdraw_balance_invariant` runs to its end: its
  -- assumption holds in every case, no call panics, no arithmetic overflows, and every assertion
  -- holds.
  pub withdraw_balance_passes :
      (n m fee_bps : ℕ)
      → 1 ≤ n
      → n < 1_000_000_000_000
      → 1 ≤ m
      → m < 1_000_000_000_000
      → fee_bps < 10_000
      → (w : Sandbox h) × (test_withdraw_balance_invariant sdk (pos n) (pos m) fee_bps (sandbox sdk)
          ≡ passed (tt, w))
  unfolding test_withdraw_balance_invariant view balance get_balance
  withdraw_balance_passes n m fee_bps positive small wanted limited range =
      let below_cap : n ≤ 1_000_000_000_000 = omega (arith, small) in
      let rate : fee_bps ≤ max_fee_bps = omega (arith, range) in
      let f = fee_due n fee_bps in
      let below = div_bound n fee_bps rate in
      let w = min m (n - f) in
      let some_left : 1 ≤ w = omega (arith, fee_below n fee_bps positive range, wanted) in
      let asked = asked_for m (n - f) in
      let (e₀, l, minted, s₀, begin) =
        starts maps sdk laws n fee_bps _ rate (omega (arith, small)) in
      let (index, e₁, ran, s) =
        tip_moves maps sdk laws fee_bps n 0 0 0 0 (record e₀ { ledger = l }) s₀
          (omega (arith, small)) n thanks_text positive (omega arith) below_cap rate
          (omega arith) in
      let (e₂, ran₂, s₂) =
        withdraw_moves maps sdk laws fee_bps (n - n) (0 + (n - f)) (0 + f) 0 (0 + 1) e₁ s
          (omega (arith, small, below)) w some_left (omega arith) in
      let sent : sdk.balance e₁.ledger (sdk.address 4) (sdk.address 2)
            -ℤ sdk.balance e₂.ledger (sdk.address 4) (sdk.address 2)
          ≡ pos w =
        rw (s.contract_holds, s₂.contract_holds)
          (pos_sub (0 + (n - f)) (0 + (n - f) - w) (omega arith) ∙ same_pos (omega arith)) in
      (
        _,
        (begin _
            <| on_mint sdk _ _ _ _ minted
            <| on_call _ _ ran
            <| on_charges n fee_bps _ below_cap rate
            <| on_assume _ _ (rw asked (ground (arith, some_left)))
            <| on _ _ refl
            <| on _ _ refl
            <| on_call _ _ {a = tt} {e = e₂} (rw asked ran₂)
            <| on _ _ refl
            <| on _ _ refl
            <| on _ _ refl
            <| on_checked _ _ (
                rw (s₂.creator_holds, s.creator_holds, pos_sub (0 + w) 0 (omega arith))
                  (small_fits (0 + w - 0) (omega (arith, limited))))
            <| on_assert _ _ _ (
                rw (s₂.creator_holds, s.creator_holds, pos_sub (0 + w) 0 (omega arith), asked)
                  (same_pos (omega arith)))
            <| on_checked _ _ (rw sent (small_fits w (omega (arith, limited))))
            <| on_assert _ _ _ (rw (sent, asked) refl)
            <| on_checked _ _ (
                rw (asked, pos_sub (n - f) w (omega arith))
                  (small_fits (n - f - w) (omega (arith, small))))
            <| at_assert _ _ _ (
                rw (asked, pos_sub (n - f) w (omega arith))
                  ((s₂.ready.balance 0 (omega arith)) ∙ same_pos (omega arith)))).ends,
      )
