-- ===== src/Base/Maps.antt =====
-- Maps with string keys as association lists, by their laws.
use Prim.Native.String.{String}
use text.Mathlib.Text.{◌==◌ as str_eq}
use text.Mathlib.TextEquality.{eq_iff}
use mathlib.Core.Path.{◌≡◌, refl}
use mathlib.Core.Option.{Option, none, some}
use mathlib.Core.List.{List, [], ◌∷◌}
use native.Mathlib.Omega.{arith}
use gopeed_torbox.Base.Tests.{if◌then◌else◌}

abbrev pub Assoc {ℓ} : Type ℓ → Type ℓ
Assoc V = List (String × V)

module _ {ℓ} {V : Type ℓ} where
  unfoldable pub lookup : String → Assoc V → Option V
  lookup k [] = none
  lookup k ((j, v) ∷ m) = if str_eq j k then some v else lookup k m

  -- `m[k] = v`
  unfoldable pub insert : String → V → Assoc V → Assoc V
  insert k v [] = (k, v) ∷ []
  insert k v ((j, w) ∷ m) = if str_eq j k then (k, v) ∷ m else (j, w) ∷ insert k v m

  -- `delete(m, k)`
  unfoldable pub without : String → Assoc V → Assoc V
  without k [] = []
  without k ((j, v) ∷ m) = let rest = without k m in if str_eq j k then rest else (j, v) ∷ rest

  pub lookup-insert :
      (i k : String) (v : V) (m : Assoc V)
      → lookup i (insert k v m) ≡ (if str_eq k i then some v else lookup i m)
  unfolding lookup insert
  lookup-insert i k v [] = refl
  lookup-insert i k v ((j, w) ∷ m) =
      ground (arith, eq_iff j k, eq_iff j i, eq_iff k i, lookup-insert i k v m)

  pub lookup-without :
      (i k : String) (m : Assoc V)
      → lookup i (without k m) ≡ (if str_eq k i then none else lookup i m)
  unfolding lookup without
  lookup-without i k [] = ground arith
  lookup-without i k ((j, w) ∷ m) =
      ground (arith, eq_iff j k, eq_iff j i, eq_iff k i, lookup-without i k m)
