-- ===== src/Fuzz/Draining.antt =====
-- The two withdrawals of test_combined_flow of src/fuzz.rs.
use stellar_tip_contract.Base.{
  ℕ, zero, suc, ◌≤◌, ◌<◌, ◌+◌, ◌-◌, ◌*◌, ◌/◌, pos, ◌*ℤ◌, ◌/ℤ◌, ltb_ℤ, ◌≡◌, refl, ◌∙◌, true,
  Bool-cases, inl, inr, arith,
}
use stellar_tip_contract.Host.{Host, MapLaws}
use stellar_tip_contract.Contract.{get_balance}
use stellar_tip_contract.Env.{Env, fits_i128}
use stellar_tip_contract.Fuzz.Environment.{TestUtils, Sandbox, passed, pure, balance, view}
use stellar_tip_contract.Fuzz.Properties.{withdraw_in_two, withdraw_part, withdraw_rest}
use stellar_tip_contract.Fuzz.Laws.{◌<|◌, TestLaws, on, on_call, on_checked, on_assert, at_assert}
use stellar_tip_contract.Fuzz.Amounts.{same_pos, pos_sub, small_fits}
use stellar_tip_contract.Fuzz.Start.{fixture}
use stellar_tip_contract.Fuzz.Standing.{Standing}
use stellar_tip_contract.Fuzz.Moves.{withdraw_moves}

share_below : (n p : ℕ) → p < 100 → n * p / 100 ≤ n
share_below n p q = grind arith

share_fits : (n p : ℕ) → n ≤ 1_000_000_000_000_000 → p < 100 → fits_i128 (pos n *ℤ pos p) ≡ true
unfolding fits_i128 ◌*ℤ◌
share_fits n p small q =
    let bound : n * p ≤ 1_000_000_000_000_000 * 100 = grind arith in ground (arith, bound)

share_is : (n p : ℕ) → pos n *ℤ pos p /ℤ pos 100 ≡ pos (n * p / 100)
unfolding ◌*ℤ◌ ◌/ℤ◌
share_is n p = ground arith

module _ {h : Host} (maps : MapLaws h) (sdk : TestUtils h) (laws : TestLaws h sdk)
    (fee_bps rest held fees paid count : ℕ) (e : Env h)
    (s : Standing maps sdk fee_bps rest held fees paid count e)
    (bounded : rest + held + fees + paid ≤ 1_000_000_000_000_000) (g : ℕ) where
  part_goes :
      (p : ℕ)
      → p ≤ held
      → (e' : Env h) × (withdraw_part sdk
            (fixture sdk)
            (sdk.address 5)
            (pos held)
            (pos p)
            (record { env = e; generated = g })
          ≡ passed (tt, record { env = e'; generated = g }))
        × Standing maps sdk fee_bps rest (held - p) fees (paid + p) count e'
  unfolding withdraw_part view balance pure get_balance
  part_goes zero below =
      let same : held - 0 ≡ held = omega arith in
      let plus : paid + 0 ≡ paid = omega arith in (e, refl, rw (same, plus) s)
  part_goes (suc p) below =
      let (e', ran, s') =
        withdraw_moves maps sdk laws fee_bps rest held fees paid count e s bounded (suc p)
          (omega arith) below in
      let positive : ltb_ℤ (pos 0) (pos (suc p)) ≡ true = ground arith in
      (
        e',
        rw positive
            (on_call _ _ ran
              <| on_checked _ _ (
                  rw (pos_sub held (suc p) below)
                    (small_fits (held - suc p) (omega (arith, bounded))))
              <| on _ _ refl
              <| on_assert _ _ _
                  (rw (pos_sub held (suc p) below) (s'.ready.balance 0 (omega arith)))
              <| on _ _ refl
              <| at_assert _ _ _ (rw (pos_sub held (suc p) below) s'.contract_holds)).ends,
        s',
      )

  rest_goes :
      (w : Sandbox h) × (withdraw_rest sdk
          (fixture sdk)
          (sdk.address 5)
          (record { env = e; generated = g })
        ≡ passed (tt, w))
  unfolding withdraw_rest view balance pure get_balance
  rest_goes =
      let w : Sandbox h = record { env = e; generated = g } in
      elim (Bool-cases (ltb_ℤ (pos 0) (pos held))) [
        | inl some_held ↦
            let (e', ran, s') =
              withdraw_moves maps sdk laws fee_bps rest held fees paid count e s bounded held
                (ground (arith, some_held)) (omega arith) in
            (
              record { env = e'; generated = g },
              (on _ _ {a = pos held} {w' = w} (rw (s.ready.balance 0 (omega arith)) refl) (
                  rw some_held (
                    on_call _ _ ran
                    <| on _ _ refl
                    <| on_assert _ _ _ ((s'.ready.balance 0 (omega arith)) ∙ same_pos (omega arith))
                    <| on _ _ refl
                    <| at_assert _ _ _ (s'.contract_holds ∙ same_pos (omega arith))))).ends,
            )
        | inr none_held ↦
            let zero_held : held ≡ 0 = ground (arith, none_held) in
            (
              w,
              (on _ _ {a = pos held} {w' = w} (rw (s.ready.balance 0 (omega arith)) refl) (
                  rw none_held (
                    on _ _ refl
                    <| on _ _ refl
                    <| on_assert _ _ _ ((s.ready.balance 0 (omega arith)) ∙ same_pos zero_held)
                    <| on _ _ refl
                    <| at_assert _ _ _ (s.contract_holds ∙ same_pos zero_held)))).ends,
            )
      ]

module _ {h : Host} (maps : MapLaws h) (sdk : TestUtils h) (laws : TestLaws h sdk) where
  pub in_two_goes :
      (fee_bps rest held fees paid count : ℕ) (e : Env h)
      → Standing maps sdk fee_bps rest held fees paid count e
      → rest + held + fees + paid ≤ 1_000_000_000_000_000
      → (g pct : ℕ) → pct < 100
      → (w : Sandbox h) × (withdraw_in_two sdk
            (fixture sdk)
            (sdk.address 5)
            (pos held)
            pct
            (record { env = e; generated = g })
          ≡ passed (tt, w))
  unfolding withdraw_in_two
  in_two_goes fee_bps rest held fees paid count e s bounded g pct share =
      let q = held * pct / 100 in
      let below = share_below held pct share in
      let (e', ran, s') =
        part_goes maps sdk laws fee_bps rest held fees paid count e s bounded g q below in
      let (w, ended) =
        rest_goes maps sdk laws fee_bps rest (held - q) fees (paid + q) count e' s'
          (omega (arith, bounded, below)) g in
      (
        w,
        (on_checked _ _ (share_fits held pct (omega (arith, bounded)) share)
            <| on _ _ (rw (share_is held pct) ran) (record { ends = ended })).ends,
      )
