-- ===== src/Base/Updates.antt =====
-- Storage maps as functions from keys, and their update at one key.
use Prim.Native.Nat.{ℕ}
use mathlib.Core.Bool.{◌&&◌}
use stellar_tip_contract.Base.Tests.{◌==◌, if◌then◌else◌}

module _ {ℓ} {V : Type ℓ} where
  abbrev pub update : (ℕ → V) → ℕ → V → ℕ → V
  update f k v j = if j == k then v else f j

  abbrev pub update₂ : (ℕ → ℕ → V) → ℕ → ℕ → V → ℕ → ℕ → V
  update₂ f k l v i j = if i == k && j == l then v else f i j
