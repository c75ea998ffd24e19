-- ===== src/Base/Maps.antt =====
-- `std::map`, as a function from its keys: the source looks keys up and stores at them, and never
-- walks over a map. The same type serves as the heap of the objects of one class.
use Prim.Native.Nat.{ℕ}
use mathlib.Core.Bool.{Bool, true, false}
use mathlib.Core.Option.{Option, none, some}
use simple_cgate.Base.Tests.{if◌then◌else◌}
use simple_cgate.Base.Equality.{KeyTest, ◌==◌, nat_eq}

abbrev pub Map : Type 0 → Type 0 → Type 0
Map K V = K → Option V

abbrev pub is_some {ℓ} : {A : Type ℓ} → Option A → Bool
is_some none = false
is_some (some a) = true

abbrev pub map_some {ℓ κ} : {A : Type ℓ} {B : Type κ} → (A → B) → Option A → Option B
map_some f none = none
map_some f (some a) = some (f a)

-- `m.clear()`
abbrev pub empty_map : {K V : Type 0} → Map K V
empty_map k = none

-- `m[k] = v`
abbrev pub put : {K V : Type 0} ⦃test : KeyTest K⦄ → K → V → Map K V → Map K V
put k v m j = if k == j then some v else m j

-- A write through a pointer: the object at `p` becomes `f` of what it was.
abbrev pub modify : {V : Type 0} → ℕ → (V → V) → Map ℕ V → Map ℕ V
modify p f h q = if p == q then map_some f (h q) else h q

abbrev pub bind_some {ℓ κ} : {A : Type ℓ} {B : Type κ} → Option A → (A → Option B) → Option B
bind_some none f = none
bind_some (some a) f = f a
