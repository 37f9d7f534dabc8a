-- ===== src/Fuzz/Conservation/Owners.antt =====
-- The list of creators that the test registers, and the names that it registers them under.
use stellar_tip_contract.Base.{
  ℕ, zero, suc, ◌<◌, ◌+◌, ◌-◌, ◌==◌, ◌≡◌, refl, ap, ◌∙◌, false, some, List, [], ◌∷◌, ◌++◌, mem,
  length, get_elem?, arith,
}
use stellar_tip_contract.Host.{Host, MapLaws, Address, Symbol}
use stellar_tip_contract.Fuzz.Environment.{TestUtils}
use stellar_tip_contract.Fuzz.Batches.{syms}
use stellar_tip_contract.Fuzz.Laws.{TestLaws}
use stellar_tip_contract.Fuzz.Ready.{owner}

module _ {h : Host} (maps : MapLaws h) (sdk : TestUtils h) where
  -- `rounds` owners from the `i`-th on.
  unfoldable pub owners : ℕ → ℕ → List Address
  owners zero i = []
  owners (suc rounds) i = owner maps sdk i ∷ owners rounds (i + 1)

  owners_snoc :
      (rounds i j : ℕ)
      → i + rounds ≡ j
      → owners rounds i ++ owner maps sdk j ∷ [] ≡ owners (suc rounds) i
  unfolding owners
  owners_snoc zero i j p = let same : j ≡ i = omega arith in rw same refl
  owners_snoc (suc rounds) i j p =
      ap (λ l. owner maps sdk i ∷ l) (owners_snoc rounds (i + 1) j (omega arith))

  pub owners_next : (i : ℕ) → owners i 0 ++ owner maps sdk i ∷ [] ≡ owners (i + 1) 0
  owners_next i =
      let next : suc i ≡ i + 1 = omega arith in
      owners_snoc i 0 i (omega arith) ∙ ap (λ n. owners n 0) next

  pub length-owners : (rounds i : ℕ) → length (owners rounds i) ≡ rounds
  unfolding owners
  length-owners zero i = refl
  length-owners (suc rounds) i = omega (arith, length-owners rounds (i + 1))

  pub get_elem?-owners :
      (rounds i j : ℕ) → j < rounds → get_elem? (owners rounds i) j ≡ some (owner maps sdk (i + j))
  unfolding owners
  get_elem?-owners zero i j p = absurd (omega arith)
  get_elem?-owners (suc rounds) i zero p = let same : i + 0 ≡ i = omega arith in rw same refl
  get_elem?-owners (suc rounds) i (suc j) p =
      let less : suc j - 1 ≡ j = omega arith in
      let same : i + 1 + j ≡ i + suc j = omega arith in
      let later : (suc j == 0) ≡ false = ground arith in
      rw (less, later, ← same) (get_elem?-owners rounds (i + 1) j (omega arith))

  abbrev pub nth_name : ℕ → Symbol
  nth_name zero = sdk.symbol "a"
  nth_name (suc zero) = sdk.symbol "b"
  nth_name (suc (suc zero)) = sdk.symbol "c"
  nth_name (suc (suc (suc zero))) = sdk.symbol "d"
  nth_name (suc (suc (suc (suc i)))) = sdk.symbol "e"

  -- The names of the first creators, the last one first.
  abbrev pub taken_names : ℕ → List Symbol
  taken_names zero = []
  taken_names (suc i) = nth_name i ∷ taken_names i

  pub taken_next : (i : ℕ) → nth_name i ∷ taken_names i ≡ taken_names (i + 1)
  taken_next i = let next : suc i ≡ i + 1 = omega arith in ap taken_names next

  pub next_name :
      (i : ℕ)
      → i < 5
      → TestLaws h sdk
      → (get_elem? (syms sdk) i ≡ some (nth_name i)) × (mem (nth_name i) (taken_names i) ≡ false)
  unfolding syms
  next_name zero p laws = (refl, refl)
  next_name (suc zero) p laws = let d = laws.symbols in (refl, ground (arith, d))
  next_name (suc (suc zero)) p laws = let d = laws.symbols in (refl, ground (arith, d))
  next_name (suc (suc (suc zero))) p laws = let d = laws.symbols in (refl, ground (arith, d))
  next_name (suc (suc (suc (suc zero)))) p laws = let d = laws.symbols in (refl, ground (arith, d))
  next_name (suc (suc (suc (suc (suc i))))) p laws = absurd (omega arith)
