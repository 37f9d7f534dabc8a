-- ===== src/Bookkeeping/Refinement.antt =====
-- Every call of src/lib.rs does to the book what the book's own rules say.
use stellar_tip_contract.Base.{
  ℕ, zero, suc, ◌<◌, ◌==◌, ==_iff, ◌≡◌, refl, Option, none, some, [], ◌∷◌, ◌++◌, update, update₂,
  unwrap_or, ◌+◌, arith, Bool-cases, inl, inr,
}
use stellar_tip_contract.Host.{Host, MapLaws, TokenLaws, Address}
use stellar_tip_contract.Types.{Tip}
use stellar_tip_contract.Env.{Env, ok}
use stellar_tip_contract.Contract.{
  Call, execute, get_balance, get_fee_percentage, get_tip, get_tip_count, get_profile,
}
use stellar_tip_contract.Outcome.Calls.{Done, executed}
use stellar_tip_contract.System.Reach.{Reach}
use stellar_tip_contract.System.Invariant.{Reach-IsValid}
use stellar_tip_contract.System.Tokens.{Unregistered-holds_nothing}
use stellar_tip_contract.Balances.{balance_change, balances_move}
use stellar_tip_contract.Bookkeeping.Book.{Book, listed, book, Allowed, post}

pub book_path :
    (b b' : Book)
    → ((a : Address) → b.profile a ≡ b'.profile a)
    → ((c t : Address) → b.balance c t ≡ b'.balance c t)
    → ((c : Address) → b.history c ≡ b'.history c)
    → b.fee_percentage ≡ b'.fee_percentage
    → b ≡ b'
book_path b b' p q r s = λ i. record {
  profile = λ a. p a i;
  balance = λ c t. q c t i;
  history = λ c. r c i;
  fee_percentage = s i;
}

-- Records from the count on do not matter.
listed_same :
    (tip tip' : ℕ → Option Tip) (n : ℕ)
    → ((i : ℕ) → i < n → tip' i ≡ tip i)
    → listed tip' n ≡ listed tip n
unfolding listed
listed_same tip tip' zero same = refl
listed_same tip tip' (suc n) same =
    rw (listed_same tip tip' n (λ i p. same i (omega (arith, p))), same n (omega arith)) refl

grown :
    (tip tip' : ℕ → Option Tip) (n : ℕ) (t : Tip)
    → ((i : ℕ) → i < n → tip' i ≡ tip i)
    → tip' n ≡ some t
    → listed tip' (n + 1) ≡ listed tip n ++ t ∷ []
unfolding listed
grown tip tip' n t same last =
    let next : n + 1 ≡ suc n = omega arith in rw (next, listed_same tip tip' n same, last) refl

emptied :
    (tip : Address → ℕ → Option Tip) (count : Address → Option ℕ) (caller : Address)
    (zeroed : Option ℕ) (c : Address)
    → unwrap_or zeroed 0 ≡ 0
    → listed (tip c) (unwrap_or (update count caller zeroed c) 0)
      ≡ update (λ a. listed (tip a) (unwrap_or (count a) 0)) caller [] c
unfolding listed
emptied tip count caller zeroed c z = elim (Bool-cases (c == caller)) [
  | inl same ↦ rw (same, z) refl
  | inr other ↦ rw other refl
]

appended :
    (tip : Address → ℕ → Option Tip) (count : Address → Option ℕ) (creator : Address) (t : Tip)
    (c : Address)
    → let index = unwrap_or (count creator) 0 in
      listed
        (update₂ tip creator index (some t) c)
        (unwrap_or (update count creator (some (index + 1)) c) 0)
      ≡ update
          (λ a. listed (tip a) (unwrap_or (count a) 0))
          creator
          (listed (tip creator) index ++ t ∷ [])
          c
appended tip count creator t c =
    let index = unwrap_or (count creator) 0 in
    elim (Bool-cases (c == creator)) [
      | inr other ↦ rw other (listed_same (tip c) _ _ (λ i p. ground (arith, other)))
      | inl same ↦
          rw (same, (==_iff c creator).0 same)
            (grown (tip creator) _ index t (λ i p. ground (arith, p)) (ground arith))
    ]

module _ {h : Host} (maps : MapLaws h) (tokens : TokenLaws h) where
  allowed : (c : Call) (e e' : Env h) → Reach tokens e → Done c e e' → Allowed c (book e)
  unfolding book
  allowed (Call.init _ _ _ _ _ _) e e' r o = tt
  allowed (Call.set_admin _ _) e e' r o = tt
  allowed (Call.pause _) e e' r o = tt
  allowed (Call.unpause _) e e' r o = tt
  allowed (Call.set_fee_percentage _ _) e e' r o = tt
  allowed (Call.set_fee_recipient _ _) e e' r o = tt
  allowed (Call.set_max_creators _ _) e e' r o = tt
  allowed (Call.set_max_tips_per_creator _ _) e e' r o = tt
  allowed (Call.set_min_tip_amount _ _) e e' r o = tt
  allowed (Call.register caller username display_name bio) e e' r o =
      let v = (Reach-IsValid maps tokens r).registry in
      (ground (arith, o.unregistered), λ a q found. ground (arith, v.owner a q found, o.untaken))
  allowed (Call.update_profile caller display_name bio) e e' r o = ground (arith, o.found)
  allowed (Call.unregister caller) e e' r o =
      let v = (Reach-IsValid maps tokens r).tracking in
      (
        ground (arith, o.found),
        λ t. ground (arith, v.nonneg caller t, Unregistered-holds_nothing maps e e' caller o v t),
      )
  allowed (Call.tip from creator token amount message) e e' r o =
      (ground (arith, o.1.registered), ground (arith, o.1.positive))
  allowed (Call.withdraw caller token amount) e e' r o =
      (ground (arith, o.registered), ground (arith, o.positive), ground (arith, o.covered))

  posted :
      (c : Call) (e e' : Env h)
      → Reach tokens e
      → execute c e ≡ ok (tt, e')
      → Done c e e'
      → book e' ≡ post c e.timestamp (book e)
  unfolding book listed balance_change get_fee_percentage get_balance get_tip get_tip_count
      get_profile
  posted (Call.init _ _ _ _ _ _) e e' r p o = rw o.result refl
  posted (Call.set_admin _ _) e e' r p o = rw o.1.result refl
  posted (Call.pause _) e e' r p o = rw o.result refl
  posted (Call.unpause _) e e' r p o = rw o.result refl
  posted (Call.set_fee_percentage _ _) e e' r p o = rw o.1.result refl
  posted (Call.set_fee_recipient _ _) e e' r p o = rw o.1.result refl
  posted (Call.set_max_creators _ _) e e' r p o = rw o.result refl
  posted (Call.set_max_tips_per_creator _ _) e e' r p o = rw o.result refl
  posted (Call.set_min_tip_amount _ _) e e' r p o = rw o.1.result refl
  posted (Call.register caller username display_name bio) e e' r p o = rw o.result (
      book_path _ _ (λ a. refl) (λ c t. refl)
        (λ c. emptied e.pers.tip e.pers.tip_count caller (some 0) c refl) refl)
  posted (Call.update_profile caller display_name bio) e e' r p o = rw (o.result, o.found) refl
  posted (Call.unregister caller) e e' r p o = rw o.result (
      book_path _ _ (λ a. refl) (λ c t. refl)
        (λ c. emptied e.pers.tip e.pers.tip_count caller none c refl) refl)
  posted (Call.tip from creator token amount message) e e' r p o =
      let c : Call = Call.tip from creator token amount message in
      let t : Tip = record {
        from = from;
        token = token;
        amount = amount;
        message = message;
        timestamp = e.timestamp;
      } in
      book_path (book e') (post c e.timestamp (book e)) (λ a. rw o.1.result refl)
        (balances_move maps tokens c e e' r p)
        (λ a. rw (o.1.result, o.1.index_is) (appended e.pers.tip e.pers.tip_count creator t a))
        (rw o.1.result refl)
  posted (Call.withdraw caller token amount) e e' r p o =
      let c = Call.withdraw caller token amount in
      book_path (book e') (post c e.timestamp (book e)) (λ a. rw o.result refl)
        (balances_move maps tokens c e e' r p) (λ a. rw o.result refl) (rw o.result refl)

  -- When any call returns in a reachable state, the abstract book allows the call, and the book that
  -- the view functions show after it is the book that they showed before it, with the call posted at
  -- the time of the ledger. In particular `register`, which looks the username up in an index, returns
  -- only if no creator has that username, and `unregister`, which looks at the tracked tokens alone,
  -- only if the creator has no balance in any token.
  pub refines :
      (c : Call) (e e' : Env h)
      → Reach tokens e
      → execute c e ≡ ok (tt, e')
      → Allowed c (book e) × (book e' ≡ post c e.timestamp (book e))
  refines c e e' r p = let o = executed c e e' p in (allowed c e e' r o, posted c e e' r p o)
