-- ===== src/Rebasing/Laws.antt =====
-- What a transfer of a `RebasingToken` moves, in shares and in nominal units.
use stellar_tip_contract.Base.{
  ℕ, ℤ, pos, ◌+ℤ◌, ◌-ℤ◌, ◌*ℤ◌, ◌≤ℤ◌, int_laws, ltb_ℤ, ◌==◌, ==_iff, Bool-cases, inl, inr, ◌≡◌, ◌∙◌,
  false, arith,
}
use stellar_tip_contract.Host.{Address, moved}
use stellar_tip_contract.Rebasing.State.{RebasingStorage, TokenEnv, returns}
use stellar_tip_contract.Rebasing.Methods.{transfer, balance}
use stellar_tip_contract.Rebasing.Outcome.{
  num_of, den_of, held, shares_for, nominal, after_transfer, balance_runs, transfer_lem,
}
use stellar_tip_contract.Rebasing.Exact.{quotient_add}

-- The factor is one that `rebase` accepts, and no holder has a negative number of shares.
pub record IsSound (s : RebasingStorage) : Type 0 where
  pub num_nonneg : pos 0 ≤ℤ num_of s
  pub den_pos : pos 1 ≤ℤ den_of s
  pub held_nonneg : (a : Address) → pos 0 ≤ℤ held s a

balance_lem :
    (a : Address) (b : ℤ) (e e' : TokenEnv)
    → balance a e ≡ returns (b, e')
    → b ≡ nominal e.storage a
balance_lem a b e e' p = ground (arith, balance_runs a e, p)

taken_away : (x y n : ℤ) → x ≡ y +ℤ n → y ≡ x -ℤ n +ℤ pos 0
taken_away x y n p = rw p (omega int_laws)

-- The nominal balances after an exact transfer between two holders.
nominal-after_transfer :
    (s : RebasingStorage) (from to : Address) (n : ℕ) (a : Address)
    → IsSound s
    → (from == to) ≡ false
    → pos 0 ≤ℤ shares_for s (pos n)
    → ltb_ℤ (held s from) (shares_for s (pos n)) ≡ false
    → shares_for s (pos n) *ℤ num_of s ≡ pos n *ℤ den_of s
    → nominal (after_transfer from to (shares_for s (pos n)) s) a
      ≡ moved (nominal s a) from to (pos n) a
unfolding nominal
nominal-after_transfer s from to n a sound other nonneg covered exact =
    let shares = shares_for s (pos n) in
    let grown =
      quotient_add (held s to) shares (num_of s) (den_of s) n (sound.held_nonneg to) nonneg
        sound.num_nonneg sound.den_pos exact in
    let shrunk =
      quotient_add (held s from -ℤ shares) shares (num_of s) (den_of s) n (grind int_laws) nonneg
        sound.num_nonneg sound.den_pos exact in
    let back : held s from -ℤ shares +ℤ shares ≡ held s from = omega int_laws in
    elim (Bool-cases (a == to)) [
      | inl is_to ↦ grind (int_laws, grown)
      | inr not_to ↦ elim (Bool-cases (a == from)) [
        | inl is_from ↦
            rw (not_to, is_from, (==_iff a from).0 is_from)
              (taken_away _ _ (pos n) (rw back at shrunk))
        | inr neither ↦ grind int_laws
      ]
    ]

-- When a transfer of a nonnegative amount between two different holders returns, the shares that it
-- takes are worth the amount exactly, no holder has negative shares and the factor is one that
-- `rebase` accepts, then the nominal balances, where `balance` returns them, change as a SEP-41
-- token's do: the sender's falls by the amount, the recipient's grows by it, and the others stay.
pub transfer_exact :
    (from to : Address) (n : ℕ) (e e' : TokenEnv)
    → IsSound e.storage
    → (from == to) ≡ false
    → pos 0 ≤ℤ shares_for e.storage (pos n)
    → shares_for e.storage (pos n) *ℤ num_of e.storage ≡ pos n *ℤ den_of e.storage
    → transfer from to (pos n) e ≡ returns (tt, e')
    → (a : Address) (b b' : ℤ) (f f' : TokenEnv) → balance a e ≡ returns (b, f)
    → balance a e' ≡ returns (b', f')
    → b' ≡ moved b from to (pos n) a
transfer_exact from to n e e' sound other nonneg exact p a b b' f f' before after =
    let o = transfer_lem from to (pos n) e e' p in
    let old = balance_lem a b e f before in
    let new = balance_lem a b' e' f' after in
    new
    ∙ rw (o.result, old)
        (nominal-after_transfer e.storage from to n a sound other nonneg o.covered exact)
