-- ===== src/Base/Results.antt =====
-- Chains of results that may be missing.
use mathlib.Core.Option.{Option, none, some}

abbrev pub and_then {ℓ κ} : {A : Type ℓ} {B : Type κ} → Option A → (A → Option B) → Option B
and_then none k = none
and_then (some a) k = k a
