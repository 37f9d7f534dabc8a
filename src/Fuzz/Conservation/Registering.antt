-- ===== src/Fuzz/Conservation/Registering.antt =====
-- The loop that registers the creators runs to its end.
use stellar_tip_contract.Base.{
  ℕ, zero, suc, ◌≤◌, ◌+◌, ◌≡◌, refl, ◌∙◌, ap, sym, subst, [], ◌∷◌, ◌++◌, arith,
}
use stellar_tip_contract.Host.{Host, MapLaws}
use stellar_tip_contract.Env.{ok}
use stellar_tip_contract.Contract.{register}
use stellar_tip_contract.Fuzz.Ready.{owner}
use stellar_tip_contract.Fuzz.Environment.{TestUtils, Sandbox, passed, generate, pure}
use stellar_tip_contract.Fuzz.Batches.{c_text, unwrap, register_creators}
use stellar_tip_contract.Fuzz.Laws.{◌<|◌, TestLaws, on, on_call}
use stellar_tip_contract.Fuzz.Crowd.Enrolling.{Enrolled, register_returns}
use stellar_tip_contract.Fuzz.Conservation.Owners.{
  owners, owners_next, taken_next, nth_name, taken_names, next_name,
}

module _ {h : Host} (maps : MapLaws h) (sdk : TestUtils h) (laws : TestLaws h sdk)
    (fee_bps : ℕ) where
  pub creators_register :
      (rounds i k : ℕ) (w : Sandbox h)
      → i + rounds ≡ k
      → k ≤ 5
      → w.generated ≡ 5 + i
      → Enrolled maps sdk fee_bps i (taken_names maps sdk i) w.env
      → (w' : Sandbox h) × (register_creators sdk rounds i (owners maps sdk i 0) w
          ≡ passed (owners maps sdk k 0, w'))
        × (w'.generated ≡ 5 + k)
        × Enrolled maps sdk fee_bps k (taken_names maps sdk k) w'.env
        × (w'.env.ledger ≡ w.env.ledger)
  unfolding register_creators pure unwrap generate
  creators_register zero i k w p few made s =
      let same : i ≡ k = omega arith in
      (w, rw same refl, made ∙ ap (λ (n : ℕ). 5 + n) same, rw (← same) s, refl)
  creators_register (suc rounds) i k w p few made s =
      let (named, new) = next_name maps sdk i (omega arith) laws in
      let (e, ran, s', same) =
        register_returns maps sdk laws fee_bps i (taken_names maps sdk i) w.env s
          (nth_name maps sdk i) c_text [] new refl (omega arith) in
      let at : owner maps sdk i ≡ sdk.address w.generated = ap sdk.address (sym made) in
      let w₁ : Sandbox h = record { env = e; generated = w.generated + 1 } in
      let (w', rest, made', s'', same') =
        creators_register rounds (i + 1) k w₁ (omega arith) few (omega (arith, made))
          (subst (λ l. Enrolled maps sdk fee_bps (i + 1) l e) (taken_next maps sdk i) s') in
      (
        w',
        (on {r = passed (owners maps sdk k 0, w')} _ _ refl
            <| on _ _ (rw named refl)
            <| on_call _ _
                (subst (λ a. register a (nth_name maps sdk i) c_text [] w.env ≡ ok (tt, e)) at ran)
                (record {
                  ends =
                      subst
                        (λ a.
                          register_creators sdk rounds (i + 1) (owners maps sdk i 0 ++ a ∷ []) w₁
                          ≡ passed (owners maps sdk k 0, w'))
                        at
                        (subst
                          (λ l.
                            register_creators sdk rounds (i + 1) l w₁
                            ≡ passed (owners maps sdk k 0, w'))
                          (sym (owners_next maps sdk i)) rest);
                })).ends,
        made',
        s'',
        same' ∙ same,
      )
