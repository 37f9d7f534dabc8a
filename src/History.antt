-- ===== src/History.antt =====
-- The record of tips (`tip`, `get_tip`, `get_tips` and `get_tip_count` of src/lib.rs).
use stellar_tip_contract.Base.{
  ℕ, pos, ltb_ℤ, zero, suc, ◌+◌, ◌-◌, ◌^◌, ◌<◌, ◌≤◌, min, ltb, ◌==◌, ◌&&◌, Option-cases, inl, inr,
  ℤ, ◌≡◌, refl, ap, ◌∙◌, sym, true, none, some, List, [], ◌∷◌, ◌++◌, length, get_elem?, is_some,
  unwrap_or, if◌then◌else◌, arith,
}
use stellar_tip_contract.Host.{Host, MapLaws, TokenLaws, Address, Text}
use stellar_tip_contract.Types.{Tip, overflow}
use stellar_tip_contract.Env.{Env, ok, panic, ◌>>=◌, fits_u64}
use stellar_tip_contract.Env.Ensures.{returned}
use stellar_tip_contract.Contract.{
  Call, execute, tip, get_tip, get_tips, get_tips_loop, get_tip_count,
}
use stellar_tip_contract.Outcome.Tipping.{tip_lem}
use stellar_tip_contract.Outcome.Calls.{executed}
use stellar_tip_contract.System.Kind.{
  Kind, a_setting, an_init, a_registration, an_update, an_unregistration, a_tip, a_withdrawal, kind,
}
use stellar_tip_contract.System.Reach.{Reach}
use stellar_tip_contract.System.Invariant.{Reach-IsValid}

append_assoc : (xs : List Tip) (t : Tip) (ys : List Tip) → (xs ++ t ∷ []) ++ ys ≡ xs ++ t ∷ ys
append_assoc [] t ys = refl
append_assoc (x ∷ xs) t ys = ap (λ (zs : List Tip). x ∷ zs) (append_assoc xs t ys)

append_nil : (xs : List Tip) → xs ++ [] ≡ xs
append_nil [] = refl
append_nil (x ∷ xs) = ap (λ (zs : List Tip). x ∷ zs) (append_nil xs)

module _ {h : Host} where
  loop-append :
      (creator : Address) (n i : ℕ) (results : List Tip) (e : Env h)
      → get_tips_loop creator n i results e ≡ results ++ get_tips_loop creator n i [] e
  unfolding get_tips_loop
  loop-append creator zero i results e = sym (append_nil results)
  loop-append creator (suc n) i results e = elim (Option-cases (e.pers.tip creator i)) [
    | inl absent ↦ rw absent (loop-append creator n (i + 1) results e)
    | inr (t, found) ↦ rw found (
        loop-append creator n (i + 1) (results ++ t ∷ []) e
        ∙ append_assoc results t (get_tips_loop creator n (i + 1) [] e)
        ∙ ap (λ (ts : List Tip). results ++ ts) (sym (loop-append creator n (i + 1) (t ∷ []) e)))
  ]

  -- `n` rounds over records without a gap give the `n` records in order.
  loop_page :
      (creator : Address) (n i : ℕ) (e : Env h)
      → ((j : ℕ) → i ≤ j → j < i + n → is_some (e.pers.tip creator j) ≡ true)
      → let page = get_tips_loop creator n i [] e in
        (length page ≡ n)
        × ((k : ℕ) → get_elem? page k ≡ (if ltb k n then e.pers.tip creator (i + k) else none))
  unfolding get_tips_loop
  loop_page creator zero i e full = (refl, λ k. ground arith)
  loop_page creator (suc n) i e full =
      let rest =
        loop_page creator n (i + 1) e (λ j p q. full j (omega (arith, p)) (omega (arith, q))) in
      elim (Option-cases (e.pers.tip creator i)) [
        | inl absent ↦ absurd (ground (arith, absent, full i (omega arith) (omega arith)))
        | inr (t, found) ↦
            rw (found, loop-append creator n (i + 1) (t ∷ []) e)
              (omega (arith, rest.0), λ k. ground (arith, rest.1 (k - 1), found))
      ]

  get_tips_lem :
      (creator : Address) (start limit : ℕ) (e : Env h)
      → get_tips creator start limit e ≡ (
          if ltb (start + limit) (2 ^ 64)
          then ok (
            get_tips_loop creator
                (min (start + limit) (get_tip_count creator e) - start)
                start
                []
                e,
            e,
          )
          else panic overflow)
  unfolding get_tips ◌>>=◌ fits_u64 get_tip_count
  get_tips_lem creator start limit e = ground arith

  -- When a tip returns an index, that index was the creator's tip count, the count is one more, and
  -- the record at the index is the tip that was sent; all other counts and records stay.
  pub tip_appends :
      (from creator token : Address) (amount : ℤ) (message : Text) (e e' : Env h) (index : ℕ)
      → tip from creator token amount message e ≡ ok (index, e')
      → let sent : Tip = record {
        from = from;
        token = token;
        amount = amount;
        message = message;
        timestamp = e.timestamp;
      } in
        (index ≡ get_tip_count creator e)
        × ((c : Address)
            → get_tip_count c e' ≡ (if c == creator then index + 1 else get_tip_count c e))
        × ((c : Address) (i : ℕ)
            → get_tip c i e' ≡ (if c == creator && i == index then some sent else get_tip c i e))
  unfolding get_tip_count get_tip
  tip_appends from creator token amount message e e' index p =
      let o = returned _ (tip_lem from creator token amount message e) index e' p in
      rw o.result (o.index_is, (λ c. ground arith), λ c i. refl)

  -- No call that returns changes a tip record below the tip count that it found.
  pub records_stay :
      (c : Call) (e e' : Env h)
      → execute c e ≡ ok (tt, e')
      → (creator : Address) (i : ℕ) → i < get_tip_count creator e
      → get_tip creator i e' ≡ get_tip creator i e
  unfolding get_tip_count get_tip
  records_stay c e e' p creator i below = kept (kind c e e' (executed c e e' p))
    where
      kept : Kind e e' → e'.pers.tip creator i ≡ e.pers.tip creator i
      kept (a_setting _ _ _ _ _ _ _ _ _ _ _ o) = rw o.result refl
      kept (an_init _ _ _ _ _ _ o) = rw o.result refl
      kept (a_registration _ _ _ _ o) = rw o.result refl
      kept (an_update _ _ _ o) = rw o.result refl
      kept (an_unregistration _ o) = rw o.result refl
      kept (a_tip from to token amount message index o) =
          rw o.result (ground (arith, below, o.index_is))
      kept (a_withdrawal _ _ _ o) = rw o.result refl

module _ {h : Host} (maps : MapLaws h) (tokens : TokenLaws h) where
  -- In every reachable state, every index below a creator's tip count has a record.
  no_gap :
      (e : Env h)
      → Reach tokens e
      → (creator : Address) (i : ℕ) → i < get_tip_count creator e
      → (t : Tip) × (get_tip creator i e ≡ some t)
  unfolding get_tip_count get_tip
  no_gap e r creator i below = elim (Option-cases (e.pers.tip creator i)) [
    | inl absent ↦
        absurd
          (ground (arith, absent, (Reach-IsValid maps tokens r).history.no_gap creator i below))
    | inr found ↦ found
  ]

  -- In every reachable state, every recorded tip has a positive amount.
  tips_positive :
      (e : Env h)
      → Reach tokens e
      → (creator : Address) (i : ℕ) (t : Tip) → get_tip creator i e ≡ some t
      → ltb_ℤ (pos 0) t.amount ≡ true
  unfolding get_tip
  tips_positive e r creator i t found =
      ground (arith, (Reach-IsValid maps tokens r).contents.positive creator i t found)

  -- In every reachable state, `get_tips` returns, where the start and the limit add up within 64
  -- bits, exactly the records from the start on, in order, as many as the limit and the tip count
  -- allow, and changes nothing; where they do not, it panics.
  pub get_tips_page :
      (e : Env h)
      → Reach tokens e
      → (creator : Address) (start limit : ℕ)
      → let count = get_tip_count creator e in
        (page : List Tip) × (get_tips creator start limit e
          ≡ (if ltb (start + limit) (2 ^ 64) then ok (page, e) else panic overflow))
        × (length page ≡ min limit (count - start))
        × ((k : ℕ)
            → get_elem? page k
              ≡ (if ltb k (length page) then get_tip creator (start + k) e else none))
  unfolding get_tip_count get_tip
  get_tips_page e r creator start limit =
      let count = unwrap_or (e.pers.tip_count creator) 0 in
      let n = min (start + limit) count - start in
      let v = (Reach-IsValid maps tokens r).history in
      let page = loop_page creator n start e (λ j p q. v.no_gap creator j (omega (arith, p, q))) in
      (
        get_tips_loop creator n start [] e,
        get_tips_lem creator start limit e,
        page.0 ∙ omega arith,
        rw page.0 (page.1),
      )
