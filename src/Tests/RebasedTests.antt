-- ===== src/Tests/RebasedTests.antt =====
-- The theorem of `Rebasing.Hosting` at a token that halves after a tip.
use stellar_tip_contract.Base.{
  pos, ◌+ℤ◌, ◌-ℤ◌, ◌*ℤ◌, ◌/ℤ◌, ◌==◌, ◌≡◌, refl, [], ◌∷◌, none, some, if◌then◌else◌,
}
use stellar_tip_contract.Host.{Address}
use stellar_tip_contract.Types.{token_error}
use stellar_tip_contract.Env.{
  Env, panic, ◌>>=◌, fits_u32, fits_u64, fits_i128, check_initialized_and_not_paused,
  validate_input,
}
use stellar_tip_contract.Contract.{
  Call, execute, invoke, init, register, tip, withdraw, settle, fee_of, forward_fee, credit_balance,
  track_token, record_tip, get_balance, is_creator, get_admin, is_paused,
}
use stellar_tip_contract.System.Reach.{deployed}
use stellar_tip_contract.Rebasing.{RebasingStorage, transfer, nominal_to_shares, factor, shares_of}
use stellar_tip_contract.Rebasing
use stellar_tip_contract.Rebasing.Outcome.{shares_for}
use stellar_tip_contract.Rebasing.Hosting.{rebasing, transfer_of, withdraw_panics}
use stellar_tip_contract.Tests.Model.{model}
use stellar_tip_contract.Tests.Scenario.{everyone}

abbrev coins : Address → RebasingStorage
coins token = record {
  shares = λ a. if a == 4 then some (pos 1000) else none;
  num = none;
  den = none;
}

unfoldable run : Call → Env (rebasing model) → Env (rebasing model)
unfolding invoke execute init register tip settle fee_of forward_fee credit_balance track_token
    record_tip check_initialized_and_not_paused validate_input fits_u32 fits_u64 fits_i128 ◌>>=◌
    ◌+ℤ◌ ◌-ℤ◌ ◌*ℤ◌ ◌/ℤ◌ transfer_of transfer nominal_to_shares factor shares_of Rebasing.◌>>=◌
run = invoke

abbrev tipped : Env (rebasing model)
tipped = run (Call.tip 4 3 7 (pos 400) []) (
    run (Call.register 3 11 (74 ∷ []) [])
      (run (Call.init 1 2 250 10 10 (pos 1)) (deployed everyone 0 50 coins)))

-- Every token contract has been rebased by one half.
abbrev halved : Env (rebasing model)
halved = record tipped {
  ledger = λ token. record (tipped.ledger token) { num = some (pos 1); den = some (pos 2) };
}

withdraw_panics_example : withdraw 3 7 (pos 390) halved ≡ panic token_error
unfolding run get_balance is_creator get_admin is_paused shares_for
withdraw_panics_example = withdraw_panics model 3 7 (pos 390) halved refl refl refl refl refl refl
