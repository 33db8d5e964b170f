-- ===== src/Base/Table.antt =====
-- A map as a function, with one entry changed.
use distributed_instant_mess.Base.Tests.{◌==◌, if◌then◌else◌}
use Prim.Native.Nat.{ℕ}
use mathlib.Core.Path.{◌≡◌}
use mathlib.Core.Logic.{◌≢◌}
use native.Mathlib.Omega.{arith}

abbrev pub assign {ℓ} : {V : Type ℓ} → (ℕ → V) → ℕ → V → ℕ → V
assign f k v j = if j == k then v else f j

pub assign-same {ℓ} : {V : Type ℓ} (f : ℕ → V) (k : ℕ) (v : V) → assign f k v k ≡ v
assign-same f k v = ground arith

pub assign-other {ℓ} :
    {V : Type ℓ} (f : ℕ → V) (k : ℕ) (v : V) (j : ℕ) → j ≢ k → assign f k v j ≡ f j
assign-other f k v j ne = ground arith
