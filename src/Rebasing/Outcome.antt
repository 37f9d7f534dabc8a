-- ===== src/Rebasing/Outcome.antt =====
-- What the methods of `RebasingToken` have checked and written when they return.
use stellar_tip_contract.Base.{
  ℤ, pos, ◌+ℤ◌, ◌-ℤ◌, ◌*ℤ◌, ◌/ℤ◌, ltb_ℤ, leb_ℤ, ◌≡◌, refl, Bool, true, false, ◌&&◌, some, ⊤,
  unwrap_or, update, if◌then◌else◌, arith,
}
use stellar_tip_contract.Host.{Address}
use stellar_tip_contract.Env.{fits_i128}
use stellar_tip_contract.Rebasing.State.{
  RebasingTokenError, RebasingStorage, TokenEnv, TokenResult, returns, fails, TokenAction,
  token_error, unauthorized, overflow, ◌>>=◌,
}
use stellar_tip_contract.Rebasing.Steps.{steps}
use stellar_tip_contract.Rebasing.Methods.{
  factor, shares_of, nominal_to_shares, mint, balance, transfer,
}

abbrev pub num_of : RebasingStorage → ℤ
num_of s = unwrap_or s.num (pos 1)

abbrev pub den_of : RebasingStorage → ℤ
den_of s = unwrap_or s.den (pos 1)

abbrev pub held : RebasingStorage → Address → ℤ
held s a = unwrap_or (s.shares a) (pos 0)

abbrev pub is_zero : ℤ → Bool
is_zero x = leb_ℤ x (pos 0) && leb_ℤ (pos 0) x

-- The shares that an amount stands for.
unfoldable pub shares_for : RebasingStorage → ℤ → ℤ
shares_for s amount = amount *ℤ den_of s /ℤ num_of s

-- The storage after a transfer of shares.
abbrev pub after_transfer : Address → Address → ℤ → RebasingStorage → RebasingStorage
after_transfer from to shares s =
    let left = update s.shares from (some (held s from -ℤ shares)) in
    record s { shares = update left to (some (held s to +ℤ shares)) }

-- How a transfer ends, test by test.
abbrev pub transfer_result : Address → Address → ℤ → TokenEnv → TokenResult (⊤ × TokenEnv)
transfer_result from to amount e =
    let s = e.storage in
    let shares = shares_for s amount in
    if e.authorized from
    then (if is_zero (num_of s)
        then fails (token_error RebasingTokenError.invalid_rebase_factor)
        else (if fits_i128 (amount *ℤ den_of s) && fits_i128 shares
            then (if ltb_ℤ (held s from) shares
                then fails (token_error RebasingTokenError.insufficient_balance)
                else (if fits_i128 (held s from -ℤ shares) && fits_i128 (held s to +ℤ shares)
                    then returns (tt, record e { storage = after_transfer from to shares s })
                    else fails overflow))
            else fails overflow))
    else fails unauthorized

then_shares_of :
    {A : Type 0} (id : Address) (f : ℤ → TokenAction A) (e : TokenEnv)
    → (shares_of id >>= f) e ≡ f (held e.storage id) e
unfolding shares_of ◌>>=◌
then_shares_of id f e = refl

pub transfer_runs :
    (from to : Address) (amount : ℤ) (e : TokenEnv)
    → transfer from to amount e ≡ transfer_result from to amount e
unfolding transfer nominal_to_shares factor shares_for
transfer_runs from to amount e = simp (steps, then_shares_of) (ground arith)

abbrev pub mint_result : Address → ℤ → TokenEnv → TokenResult (⊤ × TokenEnv)
mint_result to amount e =
    let s = e.storage in
    let shares = shares_for s amount in
    if is_zero (num_of s)
    then fails (token_error RebasingTokenError.invalid_rebase_factor)
    else (if fits_i128 (amount *ℤ den_of s) && fits_i128 shares && fits_i128 (held s to +ℤ shares)
        then returns (
          tt,
          record e {
            storage = record s { shares = update s.shares to (some (held s to +ℤ shares)) };
          },
        )
        else fails overflow)

pub mint_runs :
    (to : Address) (amount : ℤ) (e : TokenEnv) → mint to amount e ≡ mint_result to amount e
unfolding mint nominal_to_shares factor shares_for
mint_runs to amount e = simp (steps, then_shares_of) (ground arith)

-- The nominal balance of a holder.
unfoldable pub nominal : RebasingStorage → Address → ℤ
nominal s a = held s a *ℤ num_of s /ℤ den_of s

pub balance_runs :
    (a : Address) (e : TokenEnv)
    → balance a e ≡ (
        if fits_i128 (held e.storage a *ℤ num_of e.storage) && fits_i128 (nominal e.storage a)
        then returns (nominal e.storage a, e)
        else fails overflow)
unfolding balance factor nominal
balance_runs a e = simp (steps, then_shares_of) (ground arith)

-- What a transfer has checked and written when it returns.
pub record Transferred (from to : Address) (amount : ℤ) (e e' : TokenEnv) : Type 0 where
  pub authorized : e.authorized from ≡ true
  pub nonzero : is_zero (num_of e.storage) ≡ false
  pub covered : ltb_ℤ (held e.storage from) (shares_for e.storage amount) ≡ false
  pub result :
      e' ≡ record e { storage = after_transfer from to (shares_for e.storage amount) e.storage }

pub transfer_lem :
    (from to : Address) (amount : ℤ) (e e' : TokenEnv)
    → transfer from to amount e ≡ returns (tt, e')
    → Transferred from to amount e e'
transfer_lem from to amount e e' p = record {
  authorized = ground (arith, transfer_runs from to amount e, p);
  nonzero = ground (arith, transfer_runs from to amount e, p);
  covered = ground (arith, transfer_runs from to amount e, p);
  result = ground (arith, transfer_runs from to amount e, p);
}
