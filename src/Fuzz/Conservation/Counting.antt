-- ===== src/Fuzz/Conservation/Counting.antt =====
-- The sum of the creators' balances.
use stellar_tip_contract.Base.{
  ℕ, zero, suc, ◌≤◌, ◌+◌, pos, ◌+ℤ◌, ◌≡◌, refl, ◌∙◌, ap, sym, false, arith,
}
use stellar_tip_contract.Host.{Host, MapLaws}
use stellar_tip_contract.Contract.{get_balance}
use stellar_tip_contract.Fuzz.Environment.{TestUtils, Sandbox, passed, pure, view}
use stellar_tip_contract.Fuzz.Batches.{sum_balances}
use stellar_tip_contract.Fuzz.Laws.{◌<|◌, on, on_checked}
use stellar_tip_contract.Fuzz.Amounts.{pos_add, small_fits}
use stellar_tip_contract.Fuzz.Start.{fixture}
use stellar_tip_contract.Fuzz.Ready.{Ready}
use stellar_tip_contract.Fuzz.Crowd.{total, total_next, total_mono}
use stellar_tip_contract.Fuzz.Conservation.Owners.{owners}

module _ {h : Host} (maps : MapLaws h) (sdk : TestUtils h) (k fee_bps : ℕ) (held : ℕ → ℕ)
    (count : ℕ) (w : Sandbox h) (s : Ready maps sdk k fee_bps false held count w.env)
    (bounded : total k held ≤ 1_000_000_000_000_000) where
  pub balances_sum :
      (rounds i : ℕ)
      → i + rounds ≡ k
      → sum_balances sdk (fixture sdk) (owners maps sdk rounds i) (pos (total i held)) w
        ≡ passed (pos (total k held), w)
  unfolding sum_balances owners pure view get_balance
  balances_sum zero i p = let same : i ≡ k = omega arith in rw same refl
  balances_sum (suc rounds) i p =
      let sum : pos (total i held) +ℤ pos (held i) ≡ pos (total (i + 1) held) =
        pos_add (total i held) (held i) ∙ ap pos (sym (total_next i held)) in
      (on _ _ {a = pos (held i)} {w' = w} (rw (s.balance i (omega arith)) refl)
        <| on_checked _ _
            (rw sum (
              small_fits (total (i + 1) held)
                (omega (arith, total_mono (i + 1) k held (omega arith), bounded))))
            (record { ends = rw sum (balances_sum rounds (i + 1) (omega arith)) })).ends
