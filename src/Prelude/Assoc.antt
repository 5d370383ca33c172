-- ===== src/Prelude/Assoc.antt =====
-- Go's `map[string]V` as an association list with at most one entry for a key.
use Prim.Native.String.{String}
use mathlib.Core.Path.{◌≡◌, refl}
use mathlib.Core.List.{List, [], ◌∷◌, map}
use mathlib.Core.Option.{Option, none, some}
use native.Mathlib.Omega.{arith}
use text.Mathlib.Text.{◌==◌ as str_eq}
use text.Mathlib.TextEquality.{eq_iff}
use castle_ops_client.Prelude.Tests.{if◌then◌else◌}

abbrev pub Assoc {ℓ} : Type ℓ → Type ℓ
Assoc V = List (String × V)

module _ {ℓ} {V : Type ℓ} where
  -- value, ok := table[key]
  unfoldable pub lookup : String → Assoc V → Option V
  lookup key [] = none
  lookup key (entry ∷ table) = if str_eq entry.0 key then some entry.1 else lookup key table

  -- table[key] = value: in place where the key is there, and else at the end.
  unfoldable pub insert : String → V → Assoc V → Assoc V
  insert key value [] = (key, value) ∷ []
  insert key value (entry ∷ table) =
      if str_eq entry.0 key then (key, value) ∷ table else entry ∷ insert key value table

  -- delete(table, key)
  unfoldable pub delete : String → Assoc V → Assoc V
  delete key [] = []
  delete key (entry ∷ table) =
      let kept = delete key table in if str_eq entry.0 key then kept else entry ∷ kept

  abbrev pub values : Assoc V → List V
  values = map λ entry. entry.1

  abbrev pub keys : Assoc V → List String
  keys = map λ entry. entry.0

  pub lookup-insert :
      (key other : String) (value : V) (table : Assoc V)
      → lookup other (insert key value table)
        ≡ (if str_eq key other then some value else lookup other table)
  unfolding lookup insert
  lookup-insert key other value [] = refl
  lookup-insert key other value (entry ∷ table) =
      let later = lookup-insert key other value table in
      ground (arith, later, eq_iff entry.0 key, eq_iff entry.0 other, eq_iff key other)

  pub lookup-delete :
      (key other : String) (table : Assoc V)
      → lookup other (delete key table) ≡ (if str_eq key other then none else lookup other table)
  unfolding lookup delete
  lookup-delete key other [] = ground arith
  lookup-delete key other (entry ∷ table) =
      let later = lookup-delete key other table in
      ground (arith, later, eq_iff entry.0 key, eq_iff entry.0 other, eq_iff key other)

pub ruleset map_laws = (lookup-insert, lookup-delete)
