-- ===== src/Fuzz/Batches.antt =====
-- The property tests that loop over many operations.
use stellar_tip_contract.Base.{
  ℕ, zero, suc, ◌+◌, ◌%◌, ◌==◌, ℤ, pos, negsuc, ◌-◌, ◌+ℤ◌, ◌*ℤ◌, ◌/ℤ◌, ltb_ℤ, leb_ℤ, Bool, true,
  false, Option, none, some, List, [], ◌∷◌, ◌++◌, length, get_elem?, ⊤, if◌then◌else◌,
}
use stellar_tip_contract.Host.{Host, Address, Symbol, Text}
use stellar_tip_contract.Types.{overflow}
use stellar_tip_contract.Env.{Action, ok, panic, fits_u64}
use stellar_tip_contract.Contract.{register, tip, withdraw, get_balance}
use stellar_tip_contract.Fuzz.Random.{u64_mod}
use stellar_tip_contract.Fuzz.Environment.{
  TestUtils, FuzzEnv, Test, passed, panicked, failed, pure, assert_eq, checked, call, view,
  generate, mint, balance, fuzz_env, ◌>>=◌, ◌>>◌,
}

-- The display names of the creators, and the message "fuzz".
abbrev pub c_text : Text
c_text = 67 ∷ []

abbrev pub c1_text : Text
c1_text = 67 ∷ 49 ∷ []

abbrev pub c2_text : Text
c2_text = 67 ∷ 50 ∷ []

abbrev pub fuzz_text : Text
fuzz_text = 102 ∷ 117 ∷ 122 ∷ 122 ∷ []

module _ {h : Host} where
  -- `unwrap()` of an `Option`, and indexing, which fail the test on `none`.
  unfoldable pub unwrap : {A : Type 0} → Option A → Test h A
  unwrap none w = failed
  unwrap (some a) w = passed (a, w)

  -- `unreachable!`
  unfoldable pub unreachable : {A : Type 0} → Test h A
  unreachable w = failed

  -- `prop_assert!`
  unfoldable pub assert : Bool → Test h ⊤
  assert test w = if test then passed (tt, w) else failed

  -- `catch_unwind` around a call of the client: whether it returned. A call that panics has changed
  -- nothing.
  unfoldable pub attempt : {A : Type 0} → Action h A → Test h Bool
  attempt m w = elim (m w.env) [
    | ok (a, e) ↦ passed (true, record w { env = e })
    | panic p ↦ passed (false, w)
  ]

  unfoldable pub checked_u64 : ℕ → Test h ℕ
  checked_u64 n w = if fits_u64 n then passed (n, w) else panicked overflow

-- The cast `as u64` of an i128.
unfoldable pub as_u64 : ℤ → ℕ
as_u64 (pos n) = n % u64_mod
as_u64 (negsuc n) = u64_mod - 1 - n % u64_mod

abbrev pub max_amount : ℤ → ℤ → ℤ
max_amount x y = if leb_ℤ x y then y else x

-- One drawn operation: `(ci_raw, is_wd, amt)`.
pub record Operation : Type 0 where
  pub creator_index : ℕ
  pub is_withdrawal : ℕ
  pub amount : ℤ

module _ {h : Host} (sdk : TestUtils h) where
  unfoldable pub syms : List Symbol
  syms = sdk.symbol "a" ∷ sdk.symbol "b" ∷ sdk.symbol "c" ∷ sdk.symbol "d" ∷ sdk.symbol "e" ∷ []

  -- `for i in 0..num_creators`, with `rounds` left.
  unfoldable pub register_creators : ℕ → ℕ → List Address → Test h (List Address)
  register_creators zero i creators = pure creators
  register_creators (suc rounds) i creators = do
    c ← generate sdk
    name ← unwrap (get_elem? syms i)
    call (register c name c_text [])
    register_creators rounds (i + 1) (creators ++ c ∷ [])

  -- The two branches of an operation.
  unfoldable pub tip_to : FuzzEnv → Address → ℤ → Test h ⊤
  tip_to t creator amt = do
    tipper ← generate sdk
    mint sdk t.token_id tipper amt
    index ← call (tip tipper creator t.token_id amt [])
    pure tt

  unfoldable pub withdraw_share : FuzzEnv → Address → ℤ → Test h ⊤
  withdraw_share t creator amt = do
    bal ← view (get_balance creator t.token_id)
    if ltb_ℤ (pos 0) bal
        then (do
          product ← checked (bal *ℤ amt)
          call (withdraw creator t.token_id (max_amount (product /ℤ pos 100_000_000) (pos 1))))
        else pure tt

  unfoldable pub run_operation : FuzzEnv → List Address → Operation → Test h ⊤
  run_operation t creators o = do
    creator ← unwrap (get_elem? creators (o.creator_index % length creators))
    if o.is_withdrawal == 0 then tip_to t creator o.amount else withdraw_share t creator o.amount

  unfoldable pub run_operations : FuzzEnv → List Address → List Operation → Test h ⊤
  run_operations t creators [] = pure tt
  run_operations t creators (o ∷ ops) = do run_operation t creators o; run_operations t creators ops

  unfoldable pub sum_balances : FuzzEnv → List Address → ℤ → Test h ℤ
  sum_balances t [] sum_internal = pure sum_internal
  sum_balances t (c ∷ creators) sum_internal = do
    held ← view (get_balance c t.token_id)
    sum ← checked (sum_internal +ℤ held)
    sum_balances t creators sum

  unfoldable pub test_token_conservation_invariant : ℕ → ℕ → List Operation → Test h ⊤
  test_token_conservation_invariant fee_bps num_creators ops = do
    t ← fuzz_env sdk fee_bps
    creators ← register_creators num_creators 0 []
    run_operations t creators ops
    contract_balance ← balance sdk t.token_id t.contract_id
    sum_internal ← sum_balances t creators (pos 0)
    assert_eq contract_balance sum_internal
