-- ===== src/Host.antt =====
-- What the contract uses of the Soroban SDK and of other contracts (soroban_sdk in Cargo.toml, and
-- the token contracts behind `token::Client`): operations, and laws as separate records.
use stellar_tip_contract.Base.{
  ℕ, ◌≡◌, Bool, true, false, not, ◌&&◌, ◌||◌, Option, some, List, String, ⊤, ◌==◌, mem, is_some,
  if◌then◌else◌, ℤ, pos, ◌+ℤ◌, ◌-ℤ◌,
}

-- Addresses and symbols are only compared, so a number stands for each.
abbrev pub Address : Type 0
Address = ℕ

abbrev pub Symbol : Type 0
Symbol = ℕ

-- A Soroban `String` is its bytes: the contract takes its length and stores it.
abbrev pub Text : Type 0
Text = List ℕ

pub record Host : Type 1 where
  -- the state of all other contracts, and `token::Client::transfer` on it
  pub Ledger : Type 0
  pub transfer : Ledger → Address → Address → Address → ℤ → Option Ledger
  -- `Address::from_string`
  pub address_from_string : String → Address
  -- `Map<Address, ()>`
  pub TokenSet : Type 0
  pub new_map : TokenSet
  pub contains_key : TokenSet → Address → Bool
  pub insert_key : TokenSet → Address → TokenSet
  pub remove_key : TokenSet → Address → Option ⊤ × TokenSet
  pub is_empty : TokenSet → Bool
  pub keys : TokenSet → List Address

-- The documented behaviour of the SDK's `Map`, seen through `contains_key`.
pub record MapLaws (h : Host) : Type 0 where
  pub contains-new : (a : Address) → h.contains_key h.new_map a ≡ false
  pub contains-insert :
      (m : h.TokenSet) (a b : Address)
      → h.contains_key (h.insert_key m a) b ≡ (b == a || h.contains_key m b)
  pub contains-remove :
      (m : h.TokenSet) (a b : Address)
      → h.contains_key (h.remove_key m a).1 b ≡ (not (b == a) && h.contains_key m b)
  pub removed : (m : h.TokenSet) (a : Address) → is_some (h.remove_key m a).0 ≡ h.contains_key m a
  pub contains-empty :
      (m : h.TokenSet) (a : Address) → h.is_empty m ≡ true → h.contains_key m a ≡ false
  pub mem-keys : (m : h.TokenSet) (a : Address) → mem a (h.keys m) ≡ h.contains_key m a

-- The change of one holder's balance when `amount` goes from `from` to `to`.
abbrev pub moved : ℤ → Address → Address → ℤ → Address → ℤ
moved balance from to amount holder =
    balance
    -ℤ (if holder == from then amount else pos 0)
    +ℤ (if holder == to then amount else pos 0)

-- The documented behaviour of a SEP-41 token whose balances change by transfers only: a transfer
-- that succeeds moves exactly the amount, of that token, between the two holders, where these are
-- not the same.
pub record TokenLaws (h : Host) : Type 0 where
  pub token_balance : h.Ledger → Address → Address → ℤ
  pub balance-transfer :
      (l l' : h.Ledger) (token from to : Address) (amount : ℤ)
      → (from == to) ≡ false
      → h.transfer l token from to amount ≡ some l'
      → (u holder : Address)
      → token_balance l' u holder ≡ (
          if u == token
          then moved (token_balance l token holder) from to amount holder
          else token_balance l u holder)
