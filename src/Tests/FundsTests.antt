-- ===== src/Tests/FundsTests.antt =====
-- The theorems of `Funds` and `Balances` at the scenario.
use stellar_tip_contract.Base.{pos, ◌+ℤ◌, ◌-ℤ◌, ◌≤ℤ◌, ◌≡◌, refl, [], ◌∷◌, if◌then◌else◌, ◌&&◌, ◌==◌}
use stellar_tip_contract.Host.{Address}
use stellar_tip_contract.Contract.{is_creator, get_balance, get_fee_percentage}
use stellar_tip_contract.Outcome.Tipping.{fee_amount}
use stellar_tip_contract.System.Solvency.{total}
use stellar_tip_contract.Funds.{solvent, tip_conserves, withdraw_conserves, held_by_creators}
use stellar_tip_contract.Tests.Model.{model_maps, model_tokens}
use stellar_tip_contract.Tests.Scenario.{
  run, joined, tipped, drained, left, Reach-joined, Reach-tipped, Reach-left, tip_returns,
  withdraw_returns,
}

solvent_example :
    total (3 ∷ 5 ∷ []) 7 tipped.pers.balance ≤ℤ tipped.ledger 7 tipped.current_contract_address
solvent_example =
    solvent model_maps model_tokens tipped Reach-tipped 7 (3 ∷ 5 ∷ []) (refl, (refl, tt))

tip_conserves_example :
    let credit = pos 400 -ℤ fee_amount (pos 400) (get_fee_percentage joined) in
    let contract = joined.current_contract_address in
    ((c t : Address)
      → get_balance c t tipped
        ≡ (if c == 3 && t == 7 then get_balance c t joined +ℤ credit else get_balance c t joined))
    × ((t : Address)
        → tipped.ledger t contract
          ≡ (if t == 7 then joined.ledger t contract +ℤ credit else joined.ledger t contract))
tip_conserves_example =
    tip_conserves model_maps model_tokens 4 3 7 (pos 400) [] joined tipped 0 Reach-joined
      tip_returns

withdraw_conserves_example :
    let contract = tipped.current_contract_address in
    ((c t : Address)
      → get_balance c t drained
        ≡ (if c == 3 && t == 7 then get_balance c t tipped -ℤ pos 390 else get_balance c t tipped))
    × ((t : Address)
        → drained.ledger t contract
          ≡ (if t == 7 then tipped.ledger t contract -ℤ pos 390 else tipped.ledger t contract))
    × (drained.ledger 7 3 ≡ tipped.ledger 7 3 +ℤ pos 390)
withdraw_conserves_example =
    withdraw_conserves model_maps model_tokens 3 7 (pos 390) tipped drained Reach-tipped
      withdraw_returns

held_by_creators_example : get_balance 3 7 left ≡ pos 0
unfolding run is_creator
held_by_creators_example = held_by_creators model_maps model_tokens left Reach-left 3 7 refl
