-- ===== src/Shared/Maps.antt =====
-- A `Map` with texts as keys: what is found under each key.
use Prim.Native.String.{String}
use mathlib.Core.Bool.{Bool}
use mathlib.Core.Option.{Option, none, some}
use text.Mathlib.Text.{◌==◌}
use ops_flow_ms.Shared.Tests.{if◌then◌else◌}

abbrev pub Map {ℓ} : Type ℓ → Type ℓ
Map V = String → Option V

module _ {ℓ} {V : Type ℓ} where
  abbrev pub set : String → V → Map V → Map V
  set key value m k = if k == key then some value else m k

  -- `m.delete(key)`
  abbrev pub remove : String → Map V → Map V
  remove key m k = if k == key then none else m k

  -- An entry, unless the test holds of it.
  abbrev pub unless : (V → Bool) → Option V → Option V
  unless p none = none
  unless p (some v) = if p v then none else some v

  -- The loop over `m.entries()` that deletes each entry of which the test holds.
  abbrev pub remove_where : (V → Bool) → Map V → Map V
  remove_where p m k = unless p (m k)
