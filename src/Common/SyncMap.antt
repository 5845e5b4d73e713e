-- ===== src/Common/SyncMap.antt =====
-- `sync.Map` with string keys, as an association list without repeated keys. `Range` visits the
-- entries in the order of the list; Go promises no order.
use Prim.Native.String.{String}
use mathlib.Core.Path.{◌≡◌, refl}
use mathlib.Core.Option.{Option, none, some}
use mathlib.Core.List.{List, [], ◌∷◌}
use native.Mathlib.Omega.{arith}
use text.Mathlib.TextEquality.{eq_iff}
use cc_core_server.Common.Tests.{if◌then◌else◌}
use cc_core_server.Common.Text.{◌==◌}

abbrev pub SyncMap {ℓ} : Type ℓ → Type ℓ
SyncMap V = List (String × V)

module _ {ℓ} {V : Type ℓ} where
  unfoldable pub load : String → SyncMap V → Option V
  load k [] = none
  load k ((j, v) ∷ m) = if j == k then some v else load k m

  unfoldable pub delete : String → SyncMap V → SyncMap V
  delete k [] = []
  delete k ((j, v) ∷ m) = let rest = delete k m in if j == k then rest else (j, v) ∷ rest

  unfoldable pub store : String → V → SyncMap V → SyncMap V
  store k v [] = (k, v) ∷ []
  store k v ((j, w) ∷ m) = let rest = store k v m in if j == k then (j, v) ∷ m else (j, w) ∷ rest

  pub load-delete :
      (k j : String) (m : SyncMap V) → load j (delete k m) ≡ (if k == j then none else load j m)
  unfolding load delete
  load-delete k j [] = ground arith
  load-delete k j ((i, v) ∷ m) =
      ground (arith, load-delete k j m, eq_iff i k, eq_iff i j, eq_iff k j)

  pub load-store :
      (k j : String) (v : V) (m : SyncMap V)
      → load j (store k v m) ≡ (if k == j then some v else load j m)
  unfolding load store
  load-store k j v [] = refl
  load-store k j v ((i, w) ∷ m) =
      ground (arith, load-store k j v m, eq_iff i k, eq_iff i j, eq_iff k j)

pub ruleset sync_map_laws = (load-delete, load-store)
