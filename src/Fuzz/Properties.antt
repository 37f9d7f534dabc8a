-- ===== src/Fuzz/Properties.antt =====
-- The property tests that go straight through: each is a function of the values that proptest draws.
use stellar_tip_contract.Base.{
  ℕ, ℤ, pos, ◌+ℤ◌, ◌-ℤ◌, ◌*ℤ◌, ◌/ℤ◌, ltb_ℤ, leb_ℤ, [], ◌∷◌, ⊤, if◌then◌else◌,
}
use stellar_tip_contract.Host.{Host, Address, Text}
use stellar_tip_contract.Contract.{register, tip, withdraw, get_balance}
use stellar_tip_contract.Fuzz.Environment.{
  TestUtils, FuzzEnv, Test, pure, assume, assert_eq, checked, call, view, generate, mint, balance,
  fuzz_env, ◌>>=◌, ◌>>◌,
}

-- "Creator", "Bio", "ok" and "Thanks!"
abbrev pub creator_text : Text
creator_text = 67 ∷ 114 ∷ 101 ∷ 97 ∷ 116 ∷ 111 ∷ 114 ∷ []

abbrev pub bio_text : Text
bio_text = 66 ∷ 105 ∷ 111 ∷ []

abbrev pub ok_text : Text
ok_text = 111 ∷ 107 ∷ []

abbrev pub thanks_text : Text
thanks_text = 84 ∷ 104 ∷ 97 ∷ 110 ∷ 107 ∷ 115 ∷ 33 ∷ []

-- "T1", "T2" and "T3"
abbrev pub t1_text : Text
t1_text = 84 ∷ 49 ∷ []

abbrev pub t2_text : Text
t2_text = 84 ∷ 50 ∷ []

abbrev pub t3_text : Text
t3_text = 84 ∷ 51 ∷ []

abbrev pub min_amount : ℤ → ℤ → ℤ
min_amount x y = if leb_ℤ x y then x else y

module _ {h : Host} (sdk : TestUtils h) where
  unfoldable pub test_i128_boundary_amount_no_overflow : ℤ → Test h ⊤
  test_i128_boundary_amount_no_overflow amount = do
    t ← fuzz_env sdk 0
    creator ← generate sdk
    call (register creator (sdk.symbol "creator") creator_text bio_text)
    tipper ← generate sdk
    mint sdk t.token_id tipper amount
    index ← call (tip tipper creator t.token_id amount ok_text)
    held ← view (get_balance creator t.token_id)
    assert_eq held amount

  unfoldable pub test_tip_balance_invariant : ℤ → ℕ → Test h ⊤
  test_tip_balance_invariant amount fee_bps = do
    t ← fuzz_env sdk fee_bps
    creator ← generate sdk
    call (register creator (sdk.symbol "creator") creator_text bio_text)
    tipper ← generate sdk
    mint sdk t.token_id tipper amount
    fee_recipient_balance_before ← balance sdk t.token_id t.fee_recipient
    index ← call (tip tipper creator t.token_id amount thanks_text)
    product ← checked (amount *ℤ pos fee_bps)
    fee ← checked (product /ℤ pos 10_000)
    expected_creator_balance ← checked (amount -ℤ fee)
    internal_balance ← view (get_balance creator t.token_id)
    assert_eq internal_balance expected_creator_balance
    fee_recipient_balance_after ← balance sdk t.token_id t.fee_recipient
    forwarded ← checked (fee_recipient_balance_after -ℤ fee_recipient_balance_before)
    assert_eq forwarded fee
    contract_balance ← balance sdk t.token_id t.contract_id
    assert_eq contract_balance expected_creator_balance

  unfoldable pub test_withdraw_balance_invariant : ℤ → ℤ → ℕ → Test h ⊤
  test_withdraw_balance_invariant amount limit fee_bps = do
    t ← fuzz_env sdk fee_bps
    creator ← generate sdk
    call (register creator (sdk.symbol "creator") creator_text bio_text)
    tipper ← generate sdk
    mint sdk t.token_id tipper amount
    index ← call (tip tipper creator t.token_id amount thanks_text)
    product ← checked (amount *ℤ pos fee_bps)
    fee ← checked (product /ℤ pos 10_000)
    expected_creator_balance ← checked (amount -ℤ fee)
    let withdraw_amount = min_amount limit expected_creator_balance
    assume (ltb_ℤ (pos 0) withdraw_amount)
    creator_before ← balance sdk t.token_id creator
    contract_before ← balance sdk t.token_id t.contract_id
    call (withdraw creator t.token_id withdraw_amount)
    creator_after ← balance sdk t.token_id creator
    contract_after ← balance sdk t.token_id t.contract_id
    internal_balance_after ← view (get_balance creator t.token_id)
    received ← checked (creator_after -ℤ creator_before)
    assert_eq received withdraw_amount
    sent ← checked (contract_before -ℤ contract_after)
    assert_eq sent withdraw_amount
    left ← checked (expected_creator_balance -ℤ withdraw_amount)
    assert_eq internal_balance_after left

  -- The last withdrawal, of the whole balance, and the assertions after it.
  unfoldable pub withdraw_rest : FuzzEnv → Address → Test h ⊤
  withdraw_rest t creator = do
    remaining ← view (get_balance creator t.token_id)
    if ltb_ℤ (pos 0) remaining then call (withdraw creator t.token_id remaining) else pure tt
    none_held ← view (get_balance creator t.token_id)
    assert_eq none_held (pos 0)
    contract_left ← balance sdk t.token_id t.contract_id
    assert_eq contract_left (pos 0)

  -- The first withdrawal, of a part of the balance.
  unfoldable pub withdraw_part : FuzzEnv → Address → ℤ → ℤ → Test h ⊤
  withdraw_part t creator expected_internal partial_withdraw =
      if ltb_ℤ (pos 0) partial_withdraw
      then (do
        call (withdraw creator t.token_id partial_withdraw)
        left ← checked (expected_internal -ℤ partial_withdraw)
        internal_left ← view (get_balance creator t.token_id)
        assert_eq internal_left left
        contract_left ← balance sdk t.token_id t.contract_id
        assert_eq contract_left left)
      else pure tt

  -- Both withdrawals: the body of `if expected_internal > 0`.
  unfoldable pub withdraw_in_two : FuzzEnv → Address → ℤ → ℕ → Test h ⊤
  withdraw_in_two t creator expected_internal withdraw_pct = do
    part ← checked (expected_internal *ℤ pos withdraw_pct)
    withdraw_part t creator expected_internal (part /ℤ pos 100)
    withdraw_rest t creator

  -- `(tip * fee_bps) / 10000`
  unfoldable pub tip_fee : ℤ → ℕ → Test h ℤ
  tip_fee amount fee_bps = do
    product ← checked (amount *ℤ pos fee_bps)
    checked (product /ℤ pos 10_000)

  unfoldable pub test_combined_flow : ℤ → ℤ → ℤ → ℕ → ℕ → Test h ⊤
  test_combined_flow tip1 tip2 tip3 fee_bps withdraw_pct = do
    t ← fuzz_env sdk fee_bps
    creator ← generate sdk
    call (register creator (sdk.symbol "creator") creator_text bio_text)
    tipper ← generate sdk
    tip12 ← checked (tip1 +ℤ tip2)
    total_tip ← checked (tip12 +ℤ tip3)
    mint sdk t.token_id tipper total_tip
    index1 ← call (tip tipper creator t.token_id tip1 t1_text)
    index2 ← call (tip tipper creator t.token_id tip2 t2_text)
    index3 ← call (tip tipper creator t.token_id tip3 t3_text)
    fee1 ← tip_fee tip1 fee_bps
    fee2 ← tip_fee tip2 fee_bps
    fee3 ← tip_fee tip3 fee_bps
    net1 ← checked (tip1 -ℤ fee1)
    net2 ← checked (tip2 -ℤ fee2)
    net12 ← checked (net1 +ℤ net2)
    net3 ← checked (tip3 -ℤ fee3)
    expected_internal ← checked (net12 +ℤ net3)
    internal ← view (get_balance creator t.token_id)
    assert_eq internal expected_internal
    contract_balance ← balance sdk t.token_id t.contract_id
    assert_eq contract_balance expected_internal
    if ltb_ℤ (pos 0) expected_internal
        then withdraw_in_two t creator expected_internal withdraw_pct
        else pure tt
