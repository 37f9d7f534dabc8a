-- ===== src/Fuzz/Crowd.antt =====
-- Where the accounts of the tests with several creators stand between two calls.
pub mod Moves
pub mod Enrolling
use stellar_tip_contract.Base.{
  ℕ, zero, suc, ◌≤◌, ◌<◌, ◌+◌, ◌-◌, ◌==◌, pos, ◌≡◌, refl, update, Bool, Bool-cases, inl, inr, arith,
}
use stellar_tip_contract.Host.{Host, MapLaws}
use stellar_tip_contract.Env.{Env}
use stellar_tip_contract.Fuzz.Environment.{TestUtils}
use stellar_tip_contract.Fuzz.Ready.{owner, Ready}

-- The sum of the first `k` values.
unfoldable pub total : ℕ → (ℕ → ℕ) → ℕ
total zero f = 0
total (suc k) f = total k f + f k

total-update_of_le : (k : ℕ) (f : ℕ → ℕ) (i v : ℕ) → k ≤ i → total k (update f i v) ≡ total k f
unfolding total
total-update_of_le zero f i v p = refl
total-update_of_le (suc k) f i v p = ground (arith, total-update_of_le k f i v)

pub total-update :
    (k : ℕ) (f : ℕ → ℕ) (i v : ℕ) → i < k → total k (update f i v) + f i ≡ total k f + v
unfolding total
total-update zero f i v p = absurd (omega arith)
total-update (suc k) f i v p = elim (Bool-cases (k == i)) [
  | inl last ↦ ground (arith, last, total-update_of_le k f i v)
  | inr below ↦ ground (arith, below, total-update k f i v)
]

pub le-total : (k : ℕ) (f : ℕ → ℕ) (i : ℕ) → i < k → f i ≤ total k f
unfolding total
le-total zero f i p = absurd (omega arith)
le-total (suc k) f i p = elim (Bool-cases (k == i)) [
  | inl last ↦ ground (arith, last)
  | inr below ↦ ground (arith, below, le-total k f i)
]

pub total_next : (k : ℕ) (f : ℕ → ℕ) → total (k + 1) f ≡ total k f + f k
unfolding total
total_next k f = let next : k + 1 ≡ suc k = omega arith in rw next refl

pub total_mono : (k m : ℕ) (f : ℕ → ℕ) → k ≤ m → total k f ≤ total m f
unfolding total
total_mono k zero f p = let none_left : k ≡ 0 = omega arith in rw none_left (omega arith)
total_mono k (suc m) f p = elim (Bool-cases (k == suc m)) [
  | inl all ↦ ground (arith, all)
  | inr fewer ↦ let less : k ≤ m = ground (arith, fewer, p) in omega (arith, total_mono k m f less)
]

pub total-zero : (k : ℕ) → total k (λ _. 0) ≡ 0
unfolding total
total-zero zero = refl
total-zero (suc k) = omega (arith, total-zero k)

module _ {h : Host} (maps : MapLaws h) (sdk : TestUtils h) where
  -- The contract holds what it owes the `k` creators, and the fee recipient `fees`. The addresses from
  -- the `g`-th on are not made yet. All that the accounts have was minted by the test.
  pub record Crowd (k g fee_bps : ℕ) (paused : Bool) (held : ℕ → ℕ) (fees count minted : ℕ)
      (e : Env h) : Type 0 where
    pub ready : Ready maps sdk k fee_bps paused held count e
    pub contract_holds : sdk.balance e.ledger (sdk.address 4) (sdk.address 2) ≡ pos (total k held)
    pub recipient_holds : sdk.balance e.ledger (sdk.address 4) (sdk.address 1) ≡ pos fees
    pub owners_hold :
        (i : ℕ)
        → i < k
        → (paid : ℕ) × (sdk.balance e.ledger (sdk.address 4) (owner maps sdk i) ≡ pos paid)
          × (paid + total k held + fees ≤ minted)
    pub backed : total k held + fees ≤ minted
    pub fresh : (j : ℕ) → g ≤ j → sdk.balance e.ledger (sdk.address 4) (sdk.address j) ≡ pos 0
    pub made : 5 + k ≤ g
