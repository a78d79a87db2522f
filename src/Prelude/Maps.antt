-- ===== src/Prelude/Maps.antt =====
-- Storage maps as functions from keys to entries.
use Prim.Native.Nat.{ℕ}
use mathlib.Core.Bool.{◌&&◌}
use mathlib.Core.Option.{Option, none, some}
use callora_contracts.Prelude.Tests.{◌==◌, if◌then◌else◌}

module _ {ℓ} {V : Type ℓ} where
  -- `storage.set(key, value)`
  abbrev pub put : ℕ → V → (ℕ → Option V) → ℕ → Option V
  put k v m j = if j == k then some v else m j

  -- `storage.remove(key)`
  abbrev pub remove : ℕ → (ℕ → Option V) → ℕ → Option V
  remove k m j = if j == k then none else m j

  -- The same for a key of two parts.
  abbrev pub put₂ : ℕ → ℕ → V → (ℕ → ℕ → Option V) → ℕ → ℕ → Option V
  put₂ k l v m i j = if i == k && j == l then some v else m i j
