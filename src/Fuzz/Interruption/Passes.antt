-- ===== src/Fuzz/Interruption/Passes.antt =====
-- The test passes.
use stellar_tip_contract.Base.{
  ℕ, ◌≤◌, ◌<◌, ◌+◌, ◌==◌, false, mem, pos, ◌≡◌, refl, ◌∙◌, ap, [], ◌∷◌, arith,
}
use stellar_tip_contract.Host.{Host, MapLaws}
use stellar_tip_contract.Types.{max_fee_bps}
use stellar_tip_contract.Env.{Env}
use stellar_tip_contract.Contract.{get_balance}
use stellar_tip_contract.Fuzz.Environment.{
  TestUtils, Sandbox, passed, generate, view, balance, sandbox,
}
use stellar_tip_contract.Fuzz.Random.{SimpleRng, new}
use stellar_tip_contract.Fuzz.Batches.{c1_text, c2_text}
use stellar_tip_contract.Fuzz.Pauses.{final_invariant, test_paused_mid_batch_no_state_corruption}
use stellar_tip_contract.Fuzz.Laws.{◌<|◌, TestLaws, on, on_call, on_assert, at_assert}
use stellar_tip_contract.Fuzz.Amounts.{pos_add}
use stellar_tip_contract.Fuzz.Charges.{checked_pos}
use stellar_tip_contract.Fuzz.Start.{fixture, initialized, begins}
use stellar_tip_contract.Fuzz.Crowd.{total}
use stellar_tip_contract.Fuzz.Crowd.Enrolling.{
  initialized-Enrolled, register_returns, Enrolled-Crowd,
}
use stellar_tip_contract.Fuzz.Interruption.Arms.{Running}
use stellar_tip_contract.Fuzz.Interruption.Loop.{batch, arms_run}

module _ {h : Host} (maps : MapLaws h) (sdk : TestUtils h) (laws : TestLaws h sdk) where
  invariant_holds :
      (fee_bps c : ℕ) (held : ℕ → ℕ) (fees : ℕ) (w : Sandbox h) (rng : SimpleRng)
      → Running maps sdk laws 2 fee_bps c held fees w
      → c ≤ 100
      → final_invariant sdk (fixture sdk) (sdk.address 5) (sdk.address 6) (batch rng held fees) w
        ≡ passed (tt, w)
  unfolding final_invariant balance view get_balance total
  invariant_holds fee_bps c held fees w rng s few =
      let crowd = s.crowd in
      let two : total 2 held ≡ held 0 + held 1 = omega arith in
      (on _ _ refl
        <| on_assert _ _ _ (crowd.ready.balance 0 (omega arith))
        <| on _ _ refl
        <| on_assert _ _ _ (crowd.ready.balance 1 (omega arith))
        <| on _ _ refl
        <| on _ _ (
            checked_pos _ (held 0 + held 1) w (pos_add (held 0) (held 1))
              (omega (arith, two, crowd.backed, s.supply, few)))
        <| on_assert _ _ _ (crowd.contract_holds ∙ ap pos two)
        <| on _ _ refl
        <| at_assert _ _ _ crowd.recipient_holds).ends

  -- For all seeds, numbers of operations and fees that proptest may draw,
  -- `test_paused_mid_batch_no_state_corruption` runs to its end: a tip returns exactly when the
  -- contract is not paused, no arithmetic overflows, and at the end the creators' balances are the
  -- expected ones, the contract holds their sum, and the fee recipient holds all the fees.
  pub paused_mid_batch_passes :
      (seed num_ops fee_bps : ℕ)
      → 3 ≤ num_ops
      → num_ops < 30
      → fee_bps < 2_500
      → (w : Sandbox h) × (test_paused_mid_batch_no_state_corruption sdk seed num_ops fee_bps
            (sandbox sdk)
          ≡ passed (tt, w))
  unfolding test_paused_mid_batch_no_state_corruption generate
  paused_mid_batch_passes seed num_ops fee_bps several few range =
      let rate : fee_bps ≤ max_fee_bps = omega (arith, range) in
      let (l, zeroed, begin) = begins sdk laws fee_bps _ rate in
      let e₀ : Env h = initialized sdk fee_bps l in
      let (e₁, ran₁, s₁, same₁) =
        register_returns maps sdk laws fee_bps 0 [] e₀
          (initialized-Enrolled maps sdk laws fee_bps l rate) (sdk.symbol "creator1") c1_text []
          refl refl (omega arith) in
      let d = laws.symbols in
      let apart : mem (sdk.symbol "creator2") (sdk.symbol "creator1" ∷ []) ≡ false =
        ground (arith, d) in
      let (e₂, ran₂, s₂, same₂) =
        register_returns maps sdk laws fee_bps 1 (sdk.symbol "creator1" ∷ []) e₁ s₁
          (sdk.symbol "creator2") c2_text [] apart refl (omega arith) in
      let nothing : (a : ℕ)
          → (a == 0) ≡ false
          → sdk.balance e₂.ledger (sdk.address 4) (sdk.address a) ≡ pos 0 =
        λ a p. rw (same₂, same₁) (zeroed (sdk.address a) (laws.distinct a 0 p)) in
      let w₀ : Sandbox h = record { env = e₂; generated = 7 } in
      let s : Running maps sdk laws 2 fee_bps 0 (λ _. 0) 0 w₀ = record {
        paused = false;
        count = 0;
        minted = 0;
        crowd = Enrolled-Crowd maps sdk laws fee_bps 2 7 _ e₂ s₂ nothing (omega arith);
        few = omega arith;
        supply = omega arith;
      } in
      let r =
        arms_run maps sdk laws fee_bps rate num_ops 0 (λ _. 0) 0 w₀ (new seed) s
          (omega (arith, few)) in
      (
        r.after,
        (begin _
            <| on _ _ refl
            <| on _ _ refl
            <| on_call _ _ ran₁
            <| on_call _ _ ran₂
            <| on _ _ r.ends (record {
              ends =
                  invariant_holds fee_bps (0 + num_ops) r.held r.fees r.after r.rng r.running
                    (omega (arith, few));
            })).ends,
      )
