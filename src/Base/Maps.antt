-- ===== src/Base/Maps.antt =====
-- `std::unordered_map` as a finite function, with its updates in conditional form.
use Prim.Native.Nat.{ℕ}
use mathlib.Core.Option.{Option, none, some}
use torch_server.Base.Lists.{Bytes}
use torch_server.Base.Tests.{bytes_eq, ◌==◌, if◌then◌else◌}

module _ {ℓ} {V : Type ℓ} where
  -- `m[k] = v`
  abbrev pub update : (ℕ → Option V) → ℕ → V → ℕ → Option V
  update m k v j = if k == j then some v else m j

  -- `m.erase(k)`
  abbrev pub erase : (ℕ → Option V) → ℕ → ℕ → Option V
  erase m k j = if k == j then none else m j

  -- The same with a `std::string` as the key.
  abbrev pub put : (Bytes → Option V) → Bytes → V → Bytes → Option V
  put m k v j = if bytes_eq k j then some v else m j
