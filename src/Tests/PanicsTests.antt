-- ===== src/Tests/PanicsTests.antt =====
-- The theorem of `Panics.Exact` at the scenario: a withdrawal of more than the balance.
use stellar_tip_contract.Base.{pos, ◌≡◌, refl}
use stellar_tip_contract.Types.{TipError, tip_error}
use stellar_tip_contract.Env.{Env, panic}
use stellar_tip_contract.Contract.{Call, execute, get_admin, is_paused, get_balance, is_creator}
use stellar_tip_contract.Panics.Exact.{panics_exactly}
use stellar_tip_contract.Tests.Model.{model, model_maps, model_tokens}
use stellar_tip_contract.Tests.Scenario.{run, tipped, Reach-tipped}

panics_exactly_example :
    (e' : Env model) × (execute (Call.withdraw 3 7 (pos 391)) tipped
      ≡ panic (tip_error TipError.insufficient_balance))
unfolding run get_admin is_paused get_balance is_creator
panics_exactly_example =
    panics_exactly model_maps model_tokens (Call.withdraw 3 7 (pos 391)) tipped Reach-tipped refl
