-- ===== src/Fuzz/Flow.antt =====
-- The test of src/fuzz.rs with three tips and two withdrawals passes.
use stellar_tip_contract.Base.{
  ℕ, ◌≤◌, ◌<◌, ◌+◌, ◌-◌, pos, ◌+ℤ◌, ltb_ℤ, ◌≡◌, refl, true, some, sym, arith, subst,
}
use stellar_tip_contract.Host.{Host, Text, MapLaws}
use stellar_tip_contract.Types.{max_fee_bps}
use stellar_tip_contract.Contract.{tip, get_balance}
use stellar_tip_contract.Env.{Env, ok}
use stellar_tip_contract.Fees.{div_bound}
use stellar_tip_contract.Fuzz.Environment.{TestUtils, Sandbox, passed, balance, view, sandbox}
use stellar_tip_contract.Fuzz.Properties.{t1_text, t2_text, t3_text, test_combined_flow}
use stellar_tip_contract.Fuzz.Laws.{
  TestLaws, on, on_call, on_mint, on_checked, on_assert, on_then, ◌<|◌,
}
use stellar_tip_contract.Fuzz.Charges.{on_dues}
use stellar_tip_contract.Fuzz.Amounts.{fee_due, fee_below, pos_add, small_fits}
use stellar_tip_contract.Fuzz.Standing.{Standing}
use stellar_tip_contract.Fuzz.Opening.{starts}
use stellar_tip_contract.Fuzz.Moves.{tip_moves}
use stellar_tip_contract.Fuzz.Draining.{in_two_goes}

module _ {h : Host} (maps : MapLaws h) (sdk : TestUtils h) (laws : TestLaws h sdk) where
  abbrev TipGoes : ℕ → Text → Env h → Env h → Type 0
  TipGoes n message e e' =
      (index : ℕ) × (tip (sdk.address 6) (sdk.address 5) (sdk.address 4) (pos n) message e
        ≡ ok (index, e'))

  -- Three tips out of what the tipper was given.
  three_tips :
      (n₁ n₂ n₃ fee_bps : ℕ) (e : Env h)
      → 1 ≤ n₁
      → n₁ < 1_000_000_000_000
      → 1 ≤ n₂
      → n₂ < 1_000_000_000_000
      → 1 ≤ n₃
      → n₃ < 1_000_000_000_000
      → fee_bps ≤ max_fee_bps
      → Standing maps sdk fee_bps (n₁ + n₂ + n₃) 0 0 0 0 e
      → let f₁ = fee_due n₁ fee_bps in
        let f₂ = fee_due n₂ fee_bps in
        let f₃ = fee_due n₃ fee_bps in
        (e₁ : Env h) × (e₂ : Env h) × (e₃ : Env h) × TipGoes n₁ t1_text e e₁
        × TipGoes n₂ t2_text e₁ e₂
        × TipGoes n₃ t3_text e₂ e₃
        × Standing maps sdk fee_bps
            (n₁ + n₂ + n₃ - n₁ - n₂ - n₃)
            (0 + (n₁ - f₁) + (n₂ - f₂) + (n₃ - f₃))
            (0 + f₁ + f₂ + f₃)
            0
            (0 + 1 + 1 + 1)
            e₃
  three_tips n₁ n₂ n₃ fee_bps e p₁ q₁ p₂ q₂ p₃ q₃ rate s₀ =
      let n = n₁ + n₂ + n₃ in
      let f₁ = fee_due n₁ fee_bps in
      let f₂ = fee_due n₂ fee_bps in
      let below₁ = div_bound n₁ fee_bps rate in
      let below₂ = div_bound n₂ fee_bps rate in
      let (i₁, e₁, ran₁, s₁) =
        tip_moves maps sdk laws fee_bps n 0 0 0 0 e s₀ (omega (arith, q₁, q₂, q₃)) n₁ t1_text p₁
          (omega arith) (omega (arith, q₁)) rate (omega arith) in
      let (i₂, e₂, ran₂, s₂) =
        tip_moves maps sdk laws fee_bps (n - n₁) (0 + (n₁ - f₁)) (0 + f₁) 0 (0 + 1) e₁ s₁
          (omega (arith, q₁, q₂, q₃, below₁)) n₂ t2_text p₂ (omega arith) (omega (arith, q₂)) rate
          (omega arith) in
      let (i₃, e₃, ran₃, s₃) =
        tip_moves maps sdk laws fee_bps (n - n₁ - n₂) (0 + (n₁ - f₁) + (n₂ - f₂)) (0 + f₁ + f₂) 0
          (0 + 1 + 1) e₂ s₂ (omega (arith, q₁, q₂, q₃, below₁, below₂)) n₃ t3_text p₃ (omega arith)
          (omega (arith, q₃)) rate (omega arith) in
      (e₁, e₂, e₃, (i₁, ran₁), (i₂, ran₂), (i₃, ran₃), s₃)

  -- For all tips, fees and shares that proptest may draw, `test_combined_flow` runs to its end: the
  -- three tips and the withdrawals return, no arithmetic overflows, and every assertion holds.
  pub combined_flow_passes :
      (n₁ n₂ n₃ fee_bps pct : ℕ)
      → 1 ≤ n₁
      → n₁ < 1_000_000_000_000
      → 1 ≤ n₂
      → n₂ < 1_000_000_000_000
      → 1 ≤ n₃
      → n₃ < 1_000_000_000_000
      → fee_bps < 10_000
      → pct < 100
      → (w : Sandbox h) × (test_combined_flow sdk
            (pos n₁)
            (pos n₂)
            (pos n₃)
            fee_bps
            pct
            (sandbox sdk)
          ≡ passed (tt, w))
  unfolding test_combined_flow view balance get_balance
  combined_flow_passes n₁ n₂ n₃ fee_bps pct p₁ q₁ p₂ q₂ p₃ q₃ range share =
      let rate : fee_bps ≤ max_fee_bps = omega (arith, range) in
      let small₁ : n₁ ≤ 1_000_000_000_000 = omega (arith, q₁) in
      let small₂ : n₂ ≤ 1_000_000_000_000 = omega (arith, q₂) in
      let small₃ : n₃ ≤ 1_000_000_000_000 = omega (arith, q₃) in
      let n = n₁ + n₂ + n₃ in
      let f₁ = fee_due n₁ fee_bps in
      let f₂ = fee_due n₂ fee_bps in
      let f₃ = fee_due n₃ fee_bps in
      let below₁ = fee_below n₁ fee_bps p₁ range in
      let below₂ = fee_below n₂ fee_bps p₂ range in
      let below₃ = fee_below n₃ fee_bps p₃ range in
      let (e₀, l, minted, s₀, begin) =
        starts maps sdk laws n fee_bps _ rate (omega (arith, q₁, q₂, q₃)) in
      let (e₁, e₂, e₃, (i₁, ran₁), (i₂, ran₂), (i₃, ran₃), s₃) =
        three_tips n₁ n₂ n₃ fee_bps (record e₀ { ledger = l }) p₁ q₁ p₂ q₂ p₃ q₃ rate s₀ in
      let a₁ = n₁ - f₁ in
      let a₂ = n₂ - f₂ in
      let a₃ = n₃ - f₃ in
      let sum : pos n₁ +ℤ pos n₂ +ℤ pos n₃ ≡ pos n =
        rw (pos_add n₁ n₂, pos_add (n₁ + n₂) n₃) refl in
      let minted_sum : sdk.mint e₀.ledger (sdk.address 4) (sdk.address 6)
            (pos n₁ +ℤ pos n₂ +ℤ pos n₃)
          ≡ some l =
        subst (λ x. sdk.mint e₀.ledger (sdk.address 4) (sdk.address 6) x ≡ some l) (sym sum)
          minted in
      let some_due : ltb_ℤ (pos 0) (pos (0 + a₁ + a₂ + a₃)) ≡ true = ground (arith, below₁) in
      let (w, drained) =
        in_two_goes maps sdk laws fee_bps (n - n₁ - n₂ - n₃) (0 + a₁ + a₂ + a₃) (0 + f₁ + f₂ + f₃) 0
          (0 + 1 + 1 + 1) e₃ s₃ (omega (arith, q₁, q₂, q₃, below₁, below₂, below₃)) 7 pct share in
      (
        w,
        (begin _
            <| on_checked _ _ (rw (pos_add n₁ n₂) (small_fits (n₁ + n₂) (omega (arith, q₁, q₂))))
            <| on_checked _ _ (rw sum (small_fits n (omega (arith, q₁, q₂, q₃))))
            <| on_mint sdk _ _ _ _ {l = l} minted_sum
            <| on_call _ _ ran₁
            <| on_call _ _ ran₂
            <| on_call _ _ ran₃
            <| on_dues sdk n₁ n₂ n₃ fee_bps _ small₁ small₂ small₃ rate
            <| on _ _ refl
            <| on_assert _ _ _ (s₃.ready.balance 0 (omega arith))
            <| on _ _ refl
            <| on_assert _ _ _ s₃.contract_holds
            <| on_then _ _ _ some_due (record { ends = drained })).ends,
      )
