-- ===== src/Tests/HistoryTests.antt =====
-- The theorems of `History` at the scenario.
use stellar_tip_contract.Base.{
  ℕ, ◌+◌, ◌-◌, ◌^◌, min, ltb, pos, ◌≡◌, none, some, List, [], length, get_elem?, if◌then◌else◌,
  ◌==◌, ◌&&◌, arith,
}
use stellar_tip_contract.Host.{Address}
use stellar_tip_contract.Types.{Tip, overflow}
use stellar_tip_contract.Env.{ok, panic}
use stellar_tip_contract.Contract.{Call, get_tip, get_tips, get_tip_count}
use stellar_tip_contract.History.{tip_appends, records_stay, get_tips_page}
use stellar_tip_contract.Tests.Model.{model_maps, model_tokens}
use stellar_tip_contract.Tests.Scenario.{
  run, joined, tipped, drained, Reach-tipped, tip_returns, execute-withdraw_returns,
}

tip_appends_example :
    let sent : Tip = record {
      from = 4;
      token = 7;
      amount = pos 400;
      message = [];
      timestamp = joined.timestamp;
    } in
    (0 ≡ get_tip_count 3 joined)
    × ((c : Address) → get_tip_count c tipped ≡ (if c == 3 then 0 + 1 else get_tip_count c joined))
    × ((c : Address) (i : ℕ)
        → get_tip c i tipped ≡ (if c == 3 && i == 0 then some sent else get_tip c i joined))
tip_appends_example = tip_appends 4 3 7 (pos 400) [] joined tipped 0 tip_returns

records_stay_example : get_tip 3 0 drained ≡ get_tip 3 0 tipped
unfolding run get_tip_count
records_stay_example =
    records_stay (Call.withdraw 3 7 (pos 390)) tipped drained execute-withdraw_returns 3 0
      (omega arith)

get_tips_page_example :
    let count = get_tip_count 3 tipped in
    (page : List Tip) × (get_tips 3 0 5 tipped
      ≡ (if ltb 5 (2 ^ 64) then ok (page, tipped) else panic overflow))
    × (length page ≡ min 5 (count - 0))
    × ((k : ℕ)
        → get_elem? page k ≡ (if ltb k (length page) then get_tip 3 (0 + k) tipped else none))
get_tips_page_example = get_tips_page model_maps model_tokens tipped Reach-tipped 3 0 5

abbrev first_tip : Tip
first_tip = record { from = 4; token = 7; amount = pos 400; message = []; timestamp = 50 }
