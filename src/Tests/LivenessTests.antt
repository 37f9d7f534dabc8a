-- ===== src/Tests/LivenessTests.antt =====
-- The theorems of `Liveness` at the scenario.
use stellar_tip_contract.Base.{◌≡◌, refl, pos, arith, [], List, ◌∷◌}
use stellar_tip_contract.Types.{TipError, tip_error}
use stellar_tip_contract.Env.{Env, ok, panic}
use stellar_tip_contract.Contract.{
  Call, tip, unregister, get_tip_count, get_admin, is_paused, is_creator, get_balance,
  get_fee_percentage, get_fee_recipient, get_max_tips_per_creator, get_min_tip_amount,
}
use stellar_tip_contract.Outcome.Tipping.{fee_amount}
use stellar_tip_contract.Liveness.Payments.{tip_succeeds}
use stellar_tip_contract.Liveness.Payouts.{Payout, withdraw_all, withdrawals_succeed}
use stellar_tip_contract.System.Reach.{Reach, next, call}
use stellar_tip_contract.Liveness.Unregistration.{unregister_blocked, unregister_succeeds}
use stellar_tip_contract.Tests.Model.{model, model_maps, model_tokens, model_payments}
use stellar_tip_contract.Tests.Scenario.{run, joined, tipped, drained, Reach-joined, Reach-tipped}

tip_succeeds_example :
    (e' : Env model) × (tip 4 3 7 (pos 400) [] joined ≡ ok (get_tip_count 3 joined, e'))
unfolding run get_admin is_paused is_creator get_tip_count get_fee_percentage get_fee_recipient
    get_max_tips_per_creator get_min_tip_amount fee_amount
tip_succeeds_example =
    tip_succeeds model_maps model_tokens model_payments 4 3 7 2 (pos 400) [] joined Reach-joined
      refl refl refl refl refl refl refl refl refl refl refl refl

-- A second creator has a tip too.
abbrev both : Env model
both = run (Call.tip 4 5 7 (pos 200) []) (run (Call.register 5 12 [] []) tipped)

Reach-both : Reach model_tokens both
unfolding run
Reach-both =
    next (next Reach-tipped (call (Call.register 5 12 [] []) _ refl))
      (call (Call.tip 4 5 7 (pos 200) []) _ refl)

abbrev payouts : List Payout
payouts =
    record { caller = 5; token = 7; amount = pos 195 }
    ∷ record { caller = 3; token = 7; amount = pos 390 }
    ∷ []

withdrawals_succeed_example : (e' : Env model) × (withdraw_all payouts both ≡ ok (tt, e'))
unfolding run get_admin is_paused is_creator get_balance
withdrawals_succeed_example =
    withdrawals_succeed model_maps model_tokens model_payments payouts both Reach-both refl
      (refl, (refl, tt))
      (
        record { authorized = refl; creator = refl; positive = refl; covered = refl; room = refl },
        (
          record {
            authorized = refl;
            creator = refl;
            positive = refl;
            covered = refl;
            room = refl;
          },
          tt,
        ),
      )

unregister_blocked_example : unregister 3 tipped ≡ panic (tip_error TipError.balance_not_empty)
unfolding run get_admin is_paused is_creator get_balance
unregister_blocked_example =
    unregister_blocked model_maps model_tokens 3 7 tipped Reach-tipped refl refl refl refl

unregister_succeeds_example : (e' : Env model) × (unregister 3 drained ≡ ok (tt, e'))
unfolding run get_admin is_paused is_creator get_balance
unregister_succeeds_example = unregister_succeeds 3 drained refl refl refl (λ t. ground arith)
