-- ===== src/Tests/Model.antt =====
-- A concrete host: token balances as a function, and token sets as lists.
use stellar_tip_contract.Base.{
  ℤ, pos, leb_ℤ, ◌==◌, Bool, Bool-cases, inl, inr, ◌≡◌, refl, not, ◌&&◌, false, true, Option, none,
  some, of_some, List, [], ◌∷◌, mem, if◌then◌else◌, subst, arith,
}
use stellar_tip_contract.Liveness.Common.{PaymentLaws}
use stellar_tip_contract.Host.{Host, MapLaws, TokenLaws, Address, moved}

abbrev pub Ledger : Type 0
Ledger = Address → Address → ℤ

abbrev pub move_tokens : Ledger → Address → Address → Address → ℤ → Ledger
move_tokens l token from to amount u holder =
    if u == token then moved (l token holder) from to amount holder else l u holder

abbrev pub transfer : Ledger → Address → Address → Address → ℤ → Option Ledger
transfer l token from to amount =
    if leb_ℤ (pos 0) amount && leb_ℤ amount (l token from)
    then some (move_tokens l token from to amount)
    else none

abbrev pub without : List Address → Address → List Address
without [] a = []
without (x ∷ xs) a = let rest = without xs a in if a == x then rest else x ∷ rest

abbrev pub is_nil : List Address → Bool
is_nil [] = true
is_nil (x ∷ xs) = false

abbrev pub model : Host
model = record {
  Ledger = Ledger;
  transfer = transfer;
  address_from_string = λ s. 99;
  TokenSet = List Address;
  new_map = [];
  contains_key = λ m a. mem a m;
  insert_key = λ m a. a ∷ m;
  remove_key = λ m a. (if mem a m then some tt else none, without m a);
  is_empty = is_nil;
  keys = λ m. m;
}

mem-without : (m : List Address) (a b : Address) → mem b (without m a) ≡ (not (b == a) && mem b m)
mem-without [] a b = ground arith
mem-without (x ∷ m) a b = ground (arith, mem-without m a b)

mem-is_nil : (m : List Address) (a : Address) → is_nil m ≡ true → mem a m ≡ false
mem-is_nil [] a p = refl
mem-is_nil (x ∷ m) a p = cc p

pub model_maps : MapLaws model
model_maps = record {
  contains-new = λ a. refl;
  contains-insert = λ m a b. refl;
  contains-remove = mem-without;
  removed = λ m a. ground arith;
  contains-empty = mem-is_nil;
  mem-keys = λ m a. refl;
}

pub balance-transfer :
    (l l' : Ledger) (token from to : Address) (amount : ℤ)
    → (from == to) ≡ false
    → transfer l token from to amount ≡ some l'
    → (u holder : Address)
    → l' u holder
      ≡ (if u == token then moved (l token holder) from to amount holder else l u holder)
balance-transfer l l' token from to amount _ p u holder =
    elim (Bool-cases (leb_ℤ (pos 0) amount && leb_ℤ amount (l token from))) [
      | inl good ↦
          subst (λ (m : Ledger). m u holder ≡ move_tokens l token from to amount u holder)
            (of_some (rw good at p)) refl
      | inr bad ↦ cc (rw bad at p)
    ]

abbrev pub model_tokens : TokenLaws model
model_tokens = record { token_balance = λ l. l; balance-transfer = balance-transfer }

pub model_payments : PaymentLaws model model_tokens
model_payments = record {
  pays = λ l token from to amount p nonneg covered room.
      let good : (leb_ℤ (pos 0) amount && leb_ℤ amount (l token from)) ≡ true =
        ground (arith, nonneg, covered) in
      (move_tokens l token from to amount, rw good refl);
}
