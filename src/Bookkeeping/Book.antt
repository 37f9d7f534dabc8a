-- ===== src/Bookkeeping/Book.antt =====
-- An abstract view of the contract: each creator's profile, balances and list of tips, and the fee;
-- and what each call does to it.
use stellar_tip_contract.Base.{
  ℕ, zero, suc, ℤ, pos, ◌+ℤ◌, ◌-ℤ◌, ltb_ℤ, leb_ℤ, ◌==◌, ◌&&◌, ◌≡◌, true, false, Option, none, some,
  is_some, List, [], ◌∷◌, ◌++◌, ⊤, if◌then◌else◌, update,
}
use stellar_tip_contract.Host.{Host, Address}
use stellar_tip_contract.Types.{CreatorProfile, Tip}
use stellar_tip_contract.Env.{Env}
use stellar_tip_contract.Contract.{
  Call, get_profile, get_balance, get_tip, get_tip_count, get_fee_percentage,
}
use stellar_tip_contract.Outcome.Tipping.{fee_amount}

pub record Book : Type 0 where
  pub profile : Address → Option CreatorProfile
  pub balance : Address → Address → ℤ
  -- oldest first
  pub history : Address → List Tip
  pub fee_percentage : ℕ

abbrev pub append_found : List Tip → Option Tip → List Tip
append_found ts none = ts
append_found ts (some t) = ts ++ t ∷ []

-- The first `n` records.
unfoldable pub listed : (ℕ → Option Tip) → ℕ → List Tip
listed tip zero = []
listed tip (suc n) = append_found (listed tip n) (tip n)

module _ {h : Host} where
  -- What the view functions show.
  unfoldable pub book : Env h → Book
  unfolding get_profile get_balance get_tip get_tip_count get_fee_percentage listed
  book e = record {
    profile = λ a. get_profile a e;
    balance = λ c t. get_balance c t e;
    history = λ c. listed (λ i. get_tip c i e) (get_tip_count c e);
    fee_percentage = get_fee_percentage e;
  }

-- The calls that the book allows: a name must be free, an account without any balance may leave, a
-- tip goes to a creator, and a withdrawal is covered.
abbrev pub Allowed : Call → Book → Type 0
Allowed (Call.register caller username display_name bio) b =
    (b.profile caller ≡ none)
    × ((a : Address) (q : CreatorProfile) → b.profile a ≡ some q → (q.username == username) ≡ false)
Allowed (Call.update_profile caller display_name bio) b = is_some (b.profile caller) ≡ true
Allowed (Call.unregister caller) b =
    (is_some (b.profile caller) ≡ true) × ((t : Address) → b.balance caller t ≡ pos 0)
Allowed (Call.tip from creator token amount message) b =
    (is_some (b.profile creator) ≡ true) × (ltb_ℤ (pos 0) amount ≡ true)
Allowed (Call.withdraw caller token amount) b =
    (is_some (b.profile caller) ≡ true)
    × (ltb_ℤ (pos 0) amount ≡ true)
    × (leb_ℤ amount (b.balance caller token) ≡ true)
Allowed _ b = ⊤

abbrev pub add_at : Address → Address → ℤ → (Address → Address → ℤ) → Address → Address → ℤ
add_at creator token amount balance c t =
    balance c t +ℤ (if c == creator && t == token then amount else pos 0)

-- The book after a call at a time.
abbrev pub post : Call → ℕ → Book → Book
post (Call.init _ _ bps _ _ _) now b = record b { fee_percentage = bps }
post (Call.set_fee_percentage _ bps) now b = record b { fee_percentage = bps }
post (Call.register caller username display_name bio) now b = record b {
  profile = update b.profile caller (
      some (record {
        username = username;
        display_name = display_name;
        bio = bio;
        registered_at = now;
      }));
  history = update b.history caller [];
}
post (Call.update_profile caller display_name bio) now b = record b {
  profile = update b.profile caller (elim (b.profile caller) [
    | none ↦ none
    | some old ↦ some (record old { display_name = display_name; bio = bio })
  ]);
}
post (Call.unregister caller) now b = record b {
  profile = update b.profile caller none;
  history = update b.history caller [];
}
post (Call.tip from creator token amount message) now b = record b {
  balance = add_at creator token (amount -ℤ fee_amount amount b.fee_percentage) b.balance;
  history = update b.history creator (
      b.history creator
      ++ (record {
        from = from;
        token = token;
        amount = amount;
        message = message;
        timestamp = now;
      })
        ∷ []);
}
post (Call.withdraw caller token amount) now b = record b {
  balance = add_at caller token (pos 0 -ℤ amount) b.balance;
}
post _ now b = b
