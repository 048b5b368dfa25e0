-- ===== src/Common/Dict.antt =====
-- A Go map from texts as an association list.

use Prim.Native.String.{String}
use mathlib.Core.Path.{◌≡◌}
use mathlib.Core.Option.{Option, none, some}
use mathlib.Core.List.{List, [], ◌∷◌}
use native.Mathlib.Omega.{arith}
use text.Mathlib.Text.{◌==◌}
use text.Mathlib.TextEquality.{eq_iff}
use godeepwiki.Common.Tests.{if◌then◌else◌}

module _ {ℓ} {V : Type ℓ} where
  unfoldable pub lookup : String → List (String × V) → Option V
  lookup key [] = none
  lookup key ((name, value) ∷ entries) = if name == key then some value else lookup key entries

  -- delete(entries, key)
  unfoldable pub delete : String → List (String × V) → List (String × V)
  delete key [] = []
  delete key ((name, value) ∷ entries) =
      let rest = delete key entries in if name == key then rest else (name, value) ∷ rest

  -- entries[key] = value
  unfoldable pub insert : String → V → List (String × V) → List (String × V)
  unfolding delete
  insert key value entries = (key, value) ∷ delete key entries

  pub lookup-delete :
      (key name : String) (entries : List (String × V))
      → lookup name (delete key entries) ≡ (if key == name then none else lookup name entries)
  unfolding lookup delete
  lookup-delete key name [] = ground arith
  lookup-delete key name ((first, found) ∷ entries) =
      ground (
        arith,
        eq_iff key name,
        eq_iff first key,
        eq_iff first name,
        lookup-delete key name entries,
      )

  pub lookup-insert :
      (key name : String) (value : V) (entries : List (String × V))
      → lookup name (insert key value entries)
        ≡ (if key == name then some value else lookup name entries)
  unfolding lookup insert
  lookup-insert key name value entries = ground (arith, lookup-delete key name entries)
