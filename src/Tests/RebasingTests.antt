-- ===== src/Tests/RebasingTests.antt =====
-- The theorems of `Rebasing` at concrete holders: 4 has 1000 shares, of a token worth 2 units each
-- or not rebased.
use stellar_tip_contract.Base.{
  pos, negsuc, ◌+ℤ◌, ◌-ℤ◌, ◌*ℤ◌, ◌/ℤ◌, int_laws, ◌==◌, ◌≡◌, refl, true, ◌||◌, none, some,
  if◌then◌else◌,
}
use stellar_tip_contract.Host.{moved}
use stellar_tip_contract.Env.{fits_i128}
use stellar_tip_contract.Rebasing.{
  RebasingStorage, TokenEnv, returns, transfer, balance, nominal_to_shares, factor, shares_of,
  ◌>>=◌,
}
use stellar_tip_contract.Rebasing.Outcome.{held, shares_for, after_transfer}
use stellar_tip_contract.Rebasing.Laws.{IsSound, transfer_exact}
use stellar_tip_contract.Rebasing.Faults.{self_transfer_mints, negative_transfer_takes}

abbrev unrebased_coins : RebasingStorage
unrebased_coins = record {
  shares = λ a. if a == 4 || a == 5 then some (pos 1000) else none;
  num = none;
  den = none;
}

abbrev doubled_coins : RebasingStorage
doubled_coins = record unrebased_coins { num = some (pos 2); den = some (pos 1) }

abbrev signed : RebasingStorage → TokenEnv
signed s = record { authorized = λ a. true; storage = s }

abbrev paid : TokenEnv
paid = signed (after_transfer 4 5 (pos 200) doubled_coins)

abbrev paid_itself : TokenEnv
paid_itself = signed (after_transfer 4 4 (pos 200) doubled_coins)

doubled_coins-IsSound : IsSound doubled_coins
doubled_coins-IsSound = record {
  num_nonneg = grind int_laws;
  den_pos = grind int_laws;
  held_nonneg = λ a. grind int_laws;
}

paid_lem : transfer 4 5 (pos 400) (signed doubled_coins) ≡ returns (tt, paid)
unfolding transfer nominal_to_shares factor shares_of fits_i128 ◌+ℤ◌ ◌-ℤ◌ ◌*ℤ◌ ◌/ℤ◌ ◌>>=◌
paid_lem = refl

paid_itself_lem : transfer 4 4 (pos 400) (signed doubled_coins) ≡ returns (tt, paid_itself)
unfolding transfer nominal_to_shares factor shares_of fits_i128 ◌+ℤ◌ ◌-ℤ◌ ◌*ℤ◌ ◌/ℤ◌ ◌>>=◌
paid_itself_lem = refl

balance_before : balance 5 (signed doubled_coins) ≡ returns (pos 2000, signed doubled_coins)
unfolding balance factor shares_of fits_i128 ◌*ℤ◌ ◌/ℤ◌ ◌>>=◌
balance_before = refl

balance_after : balance 5 paid ≡ returns (pos 2400, paid)
unfolding balance factor shares_of fits_i128 ◌+ℤ◌ ◌*ℤ◌ ◌/ℤ◌ ◌>>=◌
balance_after = refl

transfer_exact_example : pos 2400 ≡ moved (pos 2000) 4 5 (pos 400) 5
unfolding shares_for ◌*ℤ◌ ◌/ℤ◌
transfer_exact_example =
    transfer_exact 4 5 400 (signed doubled_coins) paid doubled_coins-IsSound refl (grind int_laws)
      refl paid_lem 5 (pos 2000) (pos 2400) (signed doubled_coins) paid balance_before balance_after

self_transfer_mints_example : held paid_itself.storage 4 ≡ (
    if 4 == 4
    then held doubled_coins 4 +ℤ shares_for doubled_coins (pos 400)
    else held doubled_coins 4)
self_transfer_mints_example =
    self_transfer_mints 4 (pos 400) (signed doubled_coins) paid_itself paid_itself_lem 4

negative_transfer_takes_example :
    (e' : TokenEnv) × (transfer 4 5 (negsuc 99) (signed unrebased_coins) ≡ returns (tt, e'))
    × (held e'.storage 4 ≡ pos 1000 -ℤ negsuc 99)
    × (held e'.storage 5 ≡ pos 1000 +ℤ negsuc 99)
unfolding fits_i128 ◌+ℤ◌ ◌-ℤ◌
negative_transfer_takes_example =
    negative_transfer_takes 4 5 99 (signed unrebased_coins) refl refl refl refl refl
      (grind int_laws) refl refl
