-- ===== src/Tests/FuzzTests.antt =====
-- The theorems of `Fuzz` on the concrete host, with a concrete test environment.
use stellar_tip_contract.Base.{
  ℕ, ℤ, ◌<◌, ◌^◌, ◌≢◌, ◌+◌, ◌*◌, [], ◌∷◌, String, pos, ◌+ℤ◌, leb_ℤ, ◌==◌, ◌&&◌, ◌≡◌, refl, true,
  some, List, if◌then◌else◌, arith,
}
use Prim.Native.Char.{code}
use stellar_tip_contract.Host.{Address}
use stellar_tip_contract.Fuzz.{
  TestUtils, Sandbox, passed, sandbox, test_i128_boundary_amount_no_overflow,
  test_tip_balance_invariant, test_withdraw_balance_invariant, test_combined_flow, Operation,
  test_token_conservation_invariant, test_paused_mid_batch_no_state_corruption,
}
use stellar_tip_contract.Fuzz.Laws.{TestLaws}
use stellar_tip_contract.Fuzz.Passing.{tip_tests_pass}
use stellar_tip_contract.Fuzz.Withdrawing.{withdraw_balance_passes}
use stellar_tip_contract.Fuzz.Flow.{combined_flow_passes}
use stellar_tip_contract.Fuzz.Random.Draws.{draw, draws_differ}
use stellar_tip_contract.Fuzz.Conservation.Passes.{conservation_passes}
use stellar_tip_contract.Fuzz.Interruption.Passes.{paused_mid_batch_passes}
use stellar_tip_contract.Tests.Model.{Ledger, model, model_maps, balance-transfer, move_tokens}

abbrev mint_tokens : Ledger → Address → Address → ℤ → Ledger
mint_tokens l token to amount u a = l u a +ℤ (if u == token && a == to then amount else pos 0)

-- A name as a number in base 256.
abbrev spelled : String → ℕ
spelled String.[] = 0
spelled (String.◌∷◌ c s) = code c + 256 * spelled s

abbrev utils : TestUtils model
utils = record {
  address = λ n. n;
  symbol = spelled;
  ledger = λ token a. pos 0;
  mint = λ l token to amount. some (mint_tokens l token to amount);
  balance = λ l. l;
}

nonneg : (n : ℕ) → leb_ℤ (pos 0) (pos n) ≡ true
nonneg n = ground arith

utils_laws : TestLaws model utils
utils_laws = record {
  distinct = λ m n p. p;
  symbols = (refl, (refl, (refl, (refl, (refl, (refl, (refl, tt)))))));
  empty = λ token a. refl;
  mints = λ l token to n p. (mint_tokens l token to (pos n), refl, λ u a. refl);
  moves = λ l token from to n other covered p.
      (move_tokens l token from to (pos n), rw (nonneg n, covered) refl);
  balance-transfer = balance-transfer;
}

tip_tests_pass_example :
    ((w : Sandbox model) × (test_i128_boundary_amount_no_overflow utils (pos 400) (sandbox utils)
        ≡ passed (tt, w)))
    × ((w : Sandbox model) × (test_tip_balance_invariant utils (pos 400) 250 (sandbox utils)
          ≡ passed (tt, w)))
tip_tests_pass_example =
    tip_tests_pass model_maps utils utils_laws 400 250 (omega arith) (omega arith) (omega arith)

withdraw_balance_passes_example :
    (w : Sandbox model) × (test_withdraw_balance_invariant utils
        (pos 400)
        (pos 100)
        250
        (sandbox utils)
      ≡ passed (tt, w))
withdraw_balance_passes_example =
    withdraw_balance_passes model_maps utils utils_laws 400 100 250 (omega arith) (omega arith)
      (omega arith) (omega arith) (omega arith)

combined_flow_passes_example :
    (w : Sandbox model) × (test_combined_flow utils
        (pos 400)
        (pos 300)
        (pos 1)
        250
        40
        (sandbox utils)
      ≡ passed (tt, w))
combined_flow_passes_example =
    combined_flow_passes model_maps utils utils_laws 400 300 1 250 40 (omega arith) (omega arith)
      (omega arith) (omega arith) (omega arith) (omega arith) (omega arith) (omega arith)

abbrev two_operations : List Operation
two_operations =
    (record { creator_index = 7; is_withdrawal = 0; amount = pos 400 })
    ∷ (record { creator_index = 1; is_withdrawal = 2; amount = pos 50_000_000 })
    ∷ []

conservation_passes_example :
    (w : Sandbox model) × (test_token_conservation_invariant utils 250 3 two_operations
        (sandbox utils)
      ≡ passed (tt, w))
conservation_passes_example =
    conservation_passes model_maps utils utils_laws 250 3 two_operations (omega arith) (omega arith)
      (omega arith) (omega arith) (omega arith)
      (
        record { size = 400; amount_is = refl; positive = omega arith; small = omega arith },
        (
          record {
            size = 50_000_000;
            amount_is = refl;
            positive = omega arith;
            small = omega arith;
          },
          tt,
        ),
      )

paused_mid_batch_passes_example :
    (w : Sandbox model) × (test_paused_mid_batch_no_state_corruption utils 7 20 250 (sandbox utils)
      ≡ passed (tt, w))
paused_mid_batch_passes_example =
    paused_mid_batch_passes model_maps utils utils_laws 7 20 250 (omega arith) (omega arith)
      (omega arith)

fourth_draw : draw 7 3 ≡ 9889543983210544564
unfolding draw
fourth_draw = refl

draws_differ_example : (draw 7 0 < 2 ^ 64) × (draw 7 0 ≢ draw 7 3)
draws_differ_example = draws_differ 7 0 3 (omega arith) (omega arith) (omega arith)
