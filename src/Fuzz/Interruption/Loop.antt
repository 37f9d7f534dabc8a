-- ===== src/Fuzz/Interruption/Loop.antt =====
-- The loop runs to its end, and the accounts are as the test expects.
use stellar_tip_contract.Base.{
  ℕ, zero, suc, ◌≤◌, ◌<◌, ◌+◌, ◌-◌, ◌%◌, ◌==◌, leb, pos, ◌≡◌, refl, subst, true, false, ◌&&◌,
  update, arith,
}
use native.Mathlib.Decide.{dec_lt}
use stellar_tip_contract.Host.{Host, MapLaws}
use stellar_tip_contract.Types.{max_fee_bps}
use stellar_tip_contract.Fuzz.Environment.{TestUtils, Sandbox, TestResult, passed, pure}
use stellar_tip_contract.Fuzz.Random.{SimpleRng, next}
use stellar_tip_contract.Fuzz.Pauses.{Batch, run_arm, run_arms}
use stellar_tip_contract.Fuzz.Laws.{TestLaws, on, on_call}
use stellar_tip_contract.Fuzz.Start.{fixture}
use stellar_tip_contract.Fuzz.Interruption.Arms.{Running}
use stellar_tip_contract.Fuzz.Interruption.Flags.{pause_runs, unpause_runs}
use stellar_tip_contract.Fuzz.Interruption.Rounds.{tip_arm_runs, withdraw_arm_runs}

abbrev pub batch : SimpleRng → (ℕ → ℕ) → ℕ → Batch
batch rng held fees = record {
  rng = rng;
  expected_balance1 = pos (held 0);
  expected_balance2 = pos (held 1);
  cumulative_fee = pos fees;
}

module _ {h : Host} (maps : MapLaws h) (sdk : TestUtils h) (laws : TestLaws h sdk) (fee_bps : ℕ)
    (range : fee_bps ≤ max_fee_bps) where
  -- What holds after a part of the loop that started in `w`.
  pub record Ran (c : ℕ) (r : TestResult (Batch × Sandbox h)) : Type 0 where
    pub after : Sandbox h
    pub rng : SimpleRng
    pub held : ℕ → ℕ
    pub fees : ℕ
    pub ends : r ≡ passed (batch rng held fees, after)
    pub running : Running maps sdk laws 2 fee_bps c held fees after

  module _ (c : ℕ) (held : ℕ → ℕ) (fees : ℕ) (w : Sandbox h)
      (s : Running maps sdk laws 2 fee_bps c held fees w) (early : c ≤ 100) (rng : SimpleRng) where
    -- What holds after the arm `op`, run in `w`.
    abbrev Lands : ℕ → Type 0
    Lands op = Ran (c + 1) (
        run_arm sdk (fixture sdk) fee_bps (sdk.address 5) (sdk.address 6) op (batch rng held fees)
          w)

    flags_run : (op : ℕ) → op < 2 → Lands op
    unfolding run_arm pure
    flags_run zero p =
        let (e, ran, s') = pause_runs maps sdk laws 2 fee_bps c held fees w s in
        record {
          after = record w { env = e };
          rng = rng;
          held = held;
          fees = fees;
          ends = (on_call _ _ ran (record { ends = refl })).ends;
          running = s';
        }
    flags_run (suc zero) p =
        let (e, ran, s') = unpause_runs maps sdk laws 2 fee_bps c held fees w s in
        record {
          after = record w { env = e };
          rng = rng;
          held = held;
          fees = fees;
          ends = (on_call _ _ ran (record { ends = refl })).ends;
          running = s';
        }
    flags_run (suc (suc op)) p = absurd (omega arith)

    first_tip_runs : (op : ℕ) → 2 ≤ op → op ≤ 4 → Lands op
    unfolding run_arm pure
    first_tip_runs op p q =
        let not_zero : (op == 0) ≡ false = ground (arith, p) in
        let not_one : (op == 1) ≡ false = ground (arith, p) in
        let here : (leb 2 op && leb op 4) ≡ true = ground (arith, p, q) in
        let (w', v, fees', ran, s') =
          tip_arm_runs maps sdk laws 2 fee_bps c held fees w s 0 (omega arith) early rng range in
        record {
          after = w';
          rng = (next rng).1;
          held = update held 0 v;
          fees = fees';
          ends = rw (not_zero, not_one, here) (on _ _ ran (record { ends = refl })).ends;
          running = s';
        }

    second_tip_runs : (op : ℕ) → 5 ≤ op → op ≤ 7 → Lands op
    unfolding run_arm pure
    second_tip_runs op p q =
        let not_zero : (op == 0) ≡ false = ground (arith, p) in
        let not_one : (op == 1) ≡ false = ground (arith, p) in
        let not_first : (leb 2 op && leb op 4) ≡ false = ground (arith, p, q) in
        let here : (leb 5 op && leb op 7) ≡ true = ground (arith, p, q) in
        let (w', v, fees', ran, s') =
          tip_arm_runs maps sdk laws 2 fee_bps c held fees w s 1 (omega arith) early rng range in
        record {
          after = w';
          rng = (next rng).1;
          held = update held 1 v;
          fees = fees';
          ends = rw (not_zero, not_one, not_first, here) (on _ _ ran (record { ends = refl })).ends;
          running = s';
        }

    withdrawals_run : (op : ℕ) → op < 2 → Lands (8 + op)
    unfolding run_arm pure
    withdrawals_run zero p =
        let (w', rng', v, ran, s') =
          withdraw_arm_runs maps sdk laws 2 fee_bps c held fees w s 0 (omega arith) early rng in
        record {
          after = w';
          rng = rng';
          held = update held 0 v;
          fees = fees;
          ends = (on _ _ ran (record { ends = refl })).ends;
          running = s';
        }
    withdrawals_run (suc zero) p =
        let (w', rng', v, ran, s') =
          withdraw_arm_runs maps sdk laws 2 fee_bps c held fees w s 1 (omega arith) early rng in
        record {
          after = w';
          rng = rng';
          held = update held 1 v;
          fees = fees;
          ends = (on _ _ ran (record { ends = refl })).ends;
          running = s';
        }
    withdrawals_run (suc (suc op)) p = absurd (omega arith)

    arm_runs : (op : ℕ) → op < 10 → Lands op
    arm_runs op p = elim (dec_lt op 2) [
      | yes low ↦ flags_run op low
      | no high ↦ elim (dec_lt op 5) [
        | yes low ↦ first_tip_runs op (omega arith) (omega arith)
        | no high ↦ elim (dec_lt op 8) [
          | yes low ↦ second_tip_runs op (omega arith) (omega arith)
          | no high ↦
              let same : 8 + (op - 8) ≡ op = omega arith in
              subst Lands same (withdrawals_run (op - 8) (omega arith))
        ]
      ]
    ]

  pub arms_run :
      (rounds c : ℕ) (held : ℕ → ℕ) (fees : ℕ) (w : Sandbox h) (rng : SimpleRng)
      → Running maps sdk laws 2 fee_bps c held fees w
      → c + rounds ≤ 100
      → Ran (c + rounds) (
          run_arms sdk
            (fixture sdk)
            fee_bps
            (sdk.address 5)
            (sdk.address 6)
            rounds
            (batch rng held fees)
            w)
  unfolding run_arms pure
  arms_run zero c held fees w rng s early =
      let same : c ≡ c + 0 = omega arith in
      record {
        after = w;
        rng = rng;
        held = held;
        fees = fees;
        ends = refl;
        running = subst (λ n. Running maps sdk laws 2 fee_bps n held fees w) same s;
      }
  arms_run (suc rounds) c held fees w rng s early =
      let drawn = next rng in
      let first =
        arm_runs c held fees w s (omega (arith, early)) drawn.1 (drawn.0 % 10) (omega arith) in
      let rest =
        arms_run rounds (c + 1) first.held first.fees first.after first.rng first.running
          (omega (arith, early)) in
      let same : c + 1 + rounds ≡ c + suc rounds = omega arith in
      record {
        after = rest.after;
        rng = rest.rng;
        held = rest.held;
        fees = rest.fees;
        ends = (on _ _ first.ends (record { ends = rest.ends })).ends;
        running =
            subst (λ n. Running maps sdk laws 2 fee_bps n rest.held rest.fees rest.after) same
              rest.running;
      }
