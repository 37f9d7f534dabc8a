-- ===== src/Rebasing/Faults.antt =====
-- Where a transfer of `RebasingToken` is not a SEP-41 transfer: from a holder to itself, and of a
-- negative amount.
use stellar_tip_contract.Base.{
  ℕ, ℤ, pos, negsuc, ◌+ℤ◌, ◌-ℤ◌, ◌*ℤ◌, ◌/ℤ◌, ◌≤ℤ◌, ◌==◌, ◌≡◌, ◌∙◌, true, false, none, if◌then◌else◌,
  arith,
}
use stellar_tip_contract.Host.{Address}
use stellar_tip_contract.Env.{fits_i128}
use stellar_tip_contract.Rebasing.State.{RebasingStorage, TokenEnv, returns}
use stellar_tip_contract.Rebasing.Methods.{transfer}
use stellar_tip_contract.Rebasing.Outcome.{
  held, shares_for, after_transfer, transfer_lem, transfer_runs,
}

-- A transfer of a holder to itself that returns adds the shares of the amount to the holder's, and
-- leaves everybody else's.
pub self_transfer_mints :
    (holder : Address) (amount : ℤ) (e e' : TokenEnv)
    → transfer holder holder amount e ≡ returns (tt, e')
    → (a : Address)
    → held e'.storage a
      ≡ (if a == holder then held e.storage a +ℤ shares_for e.storage amount else held e.storage a)
self_transfer_mints holder amount e e' p a =
    let o = transfer_lem holder holder amount e e' p in rw o.result (ground arith)

times_one : (n : ℕ) → negsuc n *ℤ pos 1 ≡ negsuc n
unfolding ◌*ℤ◌
times_one n = ground arith

one_for_one :
    (s : RebasingStorage) (n : ℕ) → s.num ≡ none → s.den ≡ none → shares_for s (negsuc n) ≡ negsuc n
unfolding shares_for ◌*ℤ◌ ◌/ℤ◌
one_for_one s n p q = rw (p, q) (ground arith)

-- Before any rebase, a transfer of -(n + 1) units that the sender has authorized takes n + 1 shares
-- from the recipient, without the recipient's authorization, and gives them to the sender, if the
-- sender's shares are not negative and the new numbers of shares are in range.
pub negative_transfer_takes :
    (from to : Address) (n : ℕ) (e : TokenEnv)
    → e.storage.num ≡ none
    → e.storage.den ≡ none
    → e.authorized from ≡ true
    → (from == to) ≡ false
    → fits_i128 (negsuc n) ≡ true
    → pos 0 ≤ℤ held e.storage from
    → fits_i128 (held e.storage from -ℤ negsuc n) ≡ true
    → fits_i128 (held e.storage to +ℤ negsuc n) ≡ true
    → (e' : TokenEnv) × (transfer from to (negsuc n) e ≡ returns (tt, e'))
      × (held e'.storage from ≡ held e.storage from -ℤ negsuc n)
      × (held e'.storage to ≡ held e.storage to +ℤ negsuc n)
negative_transfer_takes from to n e num den authorized other fits nonneg left_fits total_fits = (
  record e { storage = after_transfer from to (negsuc n) e.storage },
  transfer_runs from to (negsuc n) e
      ∙ ground (
        arith,
        one_for_one e.storage n num den,
        times_one n,
        num,
        den,
        authorized,
        fits,
        nonneg,
        left_fits,
        total_fits,
      ),
  ground (arith, other),
  ground (arith, other),
)
