-- ===== src/Bookkeeping/Journal.antt =====
-- A run of the contract as the journal of the calls that returned, and the book that it adds up to.
use stellar_tip_contract.Base.{ℕ, pos, ◌≡◌, refl, ◌∙◌, ap, subst, none, List, [], ◌∷◌, ⊤}
use stellar_tip_contract.Host.{Host, MapLaws, TokenLaws}
use stellar_tip_contract.Env.{Env}
use stellar_tip_contract.Contract.{
  Call, get_profile, get_balance, get_tip, get_tip_count, get_fee_percentage,
}
use stellar_tip_contract.System.Reach.{Reach, start, next, call, outside}
use stellar_tip_contract.Bookkeeping.Book.{Book, book, listed, Allowed, post}
use stellar_tip_contract.Bookkeeping.Refinement.{refines}

-- A call and the time of the ledger when it was made.
pub record Entry : Type 0 where
  pub made : Call
  pub at : ℕ

abbrev pub empty_book : Book
empty_book = record {
  profile = λ a. none;
  balance = λ c t. pos 0;
  history = λ c. [];
  fee_percentage = 0;
}

-- The newest entry first.
pub replay : List Entry → Book
replay [] = empty_book
replay (entry ∷ entries) = post entry.made entry.at (replay entries)

-- Every entry is allowed in the book before it.
pub AllAllowed : List Entry → Type 0
unfolding replay
AllAllowed [] = ⊤
AllAllowed (entry ∷ entries) = Allowed entry.made (replay entries) × AllAllowed entries

module _ {h : Host} (maps : MapLaws h) (tokens : TokenLaws h) where
  -- Calls that panic, and what happens outside the contract, leave no entry.
  pub journal : {e : Env h} → Reach tokens e → List Entry
  journal (start authorized contract timestamp ledger p q) = []
  journal (next {e} r (call c e' p)) = (record { made = c; at = e.timestamp }) ∷ journal r
  journal (next r (outside authorized timestamp ledger p q)) = journal r

  -- However a state was reached, the profiles, the balances, the records below the tip counts and the
  -- fee that the view functions show are those that the journal of the calls that returned, with the
  -- times when they were made, adds up to from an empty book, and the abstract rules allow every entry
  -- of the journal where it stands.
  pub replays :
      {e : Env h} (r : Reach tokens e) → (book e ≡ replay (journal r)) × AllAllowed (journal r)
  unfolding replay journal AllAllowed book listed get_profile get_balance get_tip get_tip_count
      get_fee_percentage
  replays (start authorized contract timestamp ledger p q) = (refl, tt)
  replays (next {e} r (call c e' p)) =
      let (same, allowed) = replays r in
      let (fits, posted) = refines maps tokens c e e' r p in
      (posted ∙ ap (post c e.timestamp) same, (subst (Allowed c) same fits, allowed))
  replays (next r (outside authorized timestamp ledger p q)) = replays r
