-- ===== src/Fuzz/Interruption/Rounds.antt =====
-- Each arm of the loop runs, and leaves the accounts as the test expects.
use stellar_tip_contract.Base.{
  ℕ, ◌≤◌, ◌<◌, ◌+◌, ◌-◌, ◌%◌, ◌==◌, ==_iff, pos, ltb_ℤ, ◌≡◌, refl, ◌∙◌, ap, fun_ext, true, false,
  Bool-cases, inl, inr, update, arith,
}
use stellar_tip_contract.Host.{Host, MapLaws}
use stellar_tip_contract.Types.{max_fee_bps}
use stellar_tip_contract.Env.{fits_u64}
use stellar_tip_contract.Contract.{is_paused}
use stellar_tip_contract.Fuzz.Environment.{TestUtils, Sandbox, passed, pure, view}
use stellar_tip_contract.Fuzz.Random.{SimpleRng, next}
use stellar_tip_contract.Fuzz.Batches.{checked_u64, as_u64}
use stellar_tip_contract.Fuzz.Pauses.{tip_arm, withdraw_arm}
use stellar_tip_contract.Fuzz.Laws.{on_then, on_else, at_end, ◌<|◌, TestLaws, on}
use stellar_tip_contract.Fuzz.Amounts.{pos_sub}
use stellar_tip_contract.Fuzz.Charges.{checked_pos}
use stellar_tip_contract.Fuzz.Start.{fixture}
use stellar_tip_contract.Fuzz.Ready.{owner}
use stellar_tip_contract.Fuzz.Crowd.{le-total, Crowd}
use stellar_tip_contract.Fuzz.Crowd.Moves.{withdrawal_lands}
use stellar_tip_contract.Fuzz.Interruption.Arms.{attempt_returns, Running, open_tip, paused_tip}

update_self : (f : ℕ → ℕ) (i : ℕ) → update f i (f i) ≡ f
update_self f i = fun_ext λ j. elim (Bool-cases (j == i)) [
  | inl same ↦ rw ((==_iff j i).0 same) (ground arith)
  | inr other ↦ rw other refl
]

as_u64_lem : (n : ℕ) → n ≤ 1_000_000_000_000 → as_u64 (pos n) ≡ n
unfolding as_u64
as_u64_lem n p = omega arith

bound_goes :
    {h : Host} (n : ℕ) (w : Sandbox h)
    → n ≤ 1_000_000_000_000
    → checked_u64 (as_u64 (pos n) + 1) w ≡ passed (n + 1, w)
unfolding checked_u64 fits_u64
bound_goes n w p =
    let fits : fits_u64 (n + 1) ≡ true = ground arith in rw (as_u64_lem n p, fits) refl

module _ {h : Host} (maps : MapLaws h) (sdk : TestUtils h) (laws : TestLaws h sdk) (k fee_bps c : ℕ)
    (held : ℕ → ℕ) (fees : ℕ) (w : Sandbox h)
    (s : Running maps sdk laws k fee_bps c held fees w) where
  -- An operation that changes nothing.
  pub idle : Running maps sdk laws k fee_bps (c + 1) held fees w
  idle = record {
    paused = s.paused;
    count = s.count;
    minted = s.minted;
    crowd = s.crowd;
    few = omega (arith, s.few);
    supply = omega (arith, s.supply);
  }

  module _ (i : ℕ) (among : i < k) (early : c ≤ 100) (rng : SimpleRng) where
    pub tip_arm_runs :
        fee_bps ≤ max_fee_bps
        → (w' : Sandbox h) × (v : ℕ) × (fees' : ℕ) × (tip_arm sdk
              (fixture sdk)
              fee_bps
              (owner maps sdk i)
              (record { rng = rng; expected_balance = pos (held i); cumulative_fee = pos fees })
              w
            ≡ passed (
              record { rng = (next rng).1; expected_balance = pos v; cumulative_fee = pos fees' },
              w',
            ))
          × Running maps sdk laws k fee_bps (c + 1) (update held i v) fees' w'
    tip_arm_runs range = elim (Bool-cases s.paused) [
      | inr unpaused ↦
          let (w', ran, s') =
            open_tip maps sdk laws k fee_bps c held fees w i among range early rng s.count s.minted
              (rw unpaused at s.crowd) s.few s.supply in
          (w', _, _, ran, s')
      | inl is_paused ↦
          let (w', ran, s') =
            paused_tip maps sdk laws k fee_bps c held fees w i among range early rng s.count
              s.minted (rw is_paused at s.crowd) s.few s.supply in
          (w', held i, fees, ran, rw (update_self held i) s')
    ]

    -- The draw is taken from an open contract.
    open_withdrawal :
        Crowd maps sdk k w.generated fee_bps false held fees s.count s.minted w.env
        → ltb_ℤ (pos 0) (pos (held i)) ≡ true
        → (w' : Sandbox h) × (v : ℕ) × (withdraw_arm sdk
              (fixture sdk)
              (owner maps sdk i)
              (record { rng = rng; expected_balance = pos (held i) })
              w
            ≡ passed (record { rng = (next rng).1; expected_balance = pos v }, w'))
          × Running maps sdk laws k fee_bps (c + 1) (update held i v) fees w'
    unfolding withdraw_arm view is_paused pure checked_u64
    open_withdrawal crowd something =
        let n = held i in
        let part = le-total k held i among in
        let small : n ≤ 1_000_000_000_000 = omega (arith, part, crowd.backed, s.supply, early) in
        let x = (next rng).0 % (n + 1) in
        let covered : x ≤ n = omega arith in
        elim (Bool-cases (ltb_ℤ (pos 0) (pos x))) [
          | inl some_drawn ↦
              let (e, ran, crowd') =
                withdrawal_lands maps sdk laws k w.generated fee_bps held fees s.count s.minted
                  w.env crowd i among (omega (arith, s.supply, early)) x
                  (ground (arith, some_drawn)) covered in
              let w' : Sandbox h = record w { env = e } in
              (
                w',
                n - x,
                (on _ _ {a = false} {w' = w} (ap (λ p. passed (p, w)) crowd.ready.flag)
                    <| on_then _ _ _ something
                    <| on _ _ (bound_goes n w small)
                    <| on_then _ _ _ some_drawn
                    <| on _ _ (attempt_returns _ _ ran)
                    <| on _ _
                        (checked_pos _ (n - x) w' (pos_sub n x covered) (omega (arith, small)))
                    <| at_end _ w').ends,
                record {
                  paused = false;
                  count = s.count;
                  minted = s.minted;
                  crowd = crowd';
                  few = omega (arith, s.few);
                  supply = omega (arith, s.supply);
                },
              )
          | inr none_drawn ↦ (
            w,
            n,
            (on _ _ {a = false} {w' = w} (ap (λ p. passed (p, w)) crowd.ready.flag)
                <| on_then _ _ _ something
                <| on _ _ (bound_goes n w small)
                <| on_else _ _ _ none_drawn
                <| at_end _ w).ends,
            rw (update_self held i) idle,
          )
        ]

    pub withdraw_arm_runs :
        (w' : Sandbox h) × (rng' : SimpleRng) × (v : ℕ) × (withdraw_arm sdk
            (fixture sdk)
            (owner maps sdk i)
            (record { rng = rng; expected_balance = pos (held i) })
            w
          ≡ passed (record { rng = rng'; expected_balance = pos v }, w'))
        × Running maps sdk laws k fee_bps (c + 1) (update held i v) fees w'
    unfolding withdraw_arm view is_paused pure
    withdraw_arm_runs =
        let flag = s.crowd.ready.flag in
        elim (Bool-cases s.paused) [
          | inl stopped ↦ (
            w,
            rng,
            held i,
            (on _ _ {a = true} {w' = w} (ap (λ p. passed (p, w)) (flag ∙ stopped))
                (record { ends = refl })).ends,
            rw (update_self held i) idle,
          )
          | inr unpaused ↦ elim (Bool-cases (ltb_ℤ (pos 0) (pos (held i)))) [
            | inl something ↦
                let (w', v, ran, s') = open_withdrawal (rw unpaused at s.crowd) something in
                (w', (next rng).1, v, ran, s')
            | inr nothing ↦ (
              w,
              rng,
              held i,
              (on _ _ {a = false} {w' = w} (ap (λ p. passed (p, w)) (flag ∙ unpaused))
                  (record { ends = rw nothing refl })).ends,
              rw (update_self held i) idle,
            )
          ]
        ]
