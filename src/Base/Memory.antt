-- ===== src/Base/Memory.antt =====
-- Raw memory, or a table of words, as a function of the address or index.
use Prim.Native.Nat.{ℕ}
use mathlib.Core.Path.{◌≡◌}
use native.Mathlib.Omega.{arith}
use sea_star_os.Base.Tests.{◌==◌, if◌then◌else◌}

unfoldable pub update {ℓ} : {A : Type ℓ} → (ℕ → A) → ℕ → A → ℕ → A
update m i v j = if j == i then v else m j

pub update_lem {ℓ} :
    {A : Type ℓ} (m : ℕ → A) (i : ℕ) (v : A) (j : ℕ) → update m i v j ≡ (if j == i then v else m j)
unfolding update
update_lem m i v j = ground arith
