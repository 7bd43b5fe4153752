-- ===== src/Prelude/Maps.antt =====
-- A Go map with string keys as an association list: at most one entry for a key.
use Prim.Native.String.{String}
use text.Mathlib.Text.{◌==◌ as str_eq}
use text.Mathlib.TextEquality.{eq_iff}
use mathlib.Core.Path.{◌≡◌, refl}
use mathlib.Core.Option.{Option, none, some}
use mathlib.Core.List.{List, [], ◌∷◌}
use native.Mathlib.Omega.{arith}
use bb_clientd.Prelude.Tests.{if◌then◌else◌}

abbrev pub StringMap {ℓ} : Type ℓ → Type ℓ
StringMap V = List (String × V)

module _ {ℓ} {V : Type ℓ} where
  -- delete(m, name)
  unfoldable pub delete : String → StringMap V → StringMap V
  delete name [] = []
  delete name (entry ∷ m) =
      let others = delete name m in if str_eq entry.0 name then others else entry ∷ others

  -- m[name] = value
  unfoldable pub insert : String → V → StringMap V → StringMap V
  insert name value [] = (name, value) ∷ []
  insert name value (entry ∷ m) =
      let others = insert name value m in
      if str_eq entry.0 name then (name, value) ∷ m else entry ∷ others

  -- value, ok := m[name]
  unfoldable pub lookup : String → StringMap V → Option V
  lookup name [] = none
  lookup name (entry ∷ m) =
      let later = lookup name m in if str_eq entry.0 name then some entry.1 else later

  pub lookup-delete :
      (gone name : String) (m : StringMap V)
      → lookup name (delete gone m) ≡ (if str_eq gone name then none else lookup name m)
  unfolding delete lookup
  lookup-delete gone name [] = ground arith
  lookup-delete gone name (entry ∷ m) =
      ground (
        arith,
        lookup-delete gone name m,
        eq_iff gone name,
        eq_iff entry.0 gone,
        eq_iff entry.0 name,
      )

  pub lookup-insert :
      (new name : String) (value : V) (m : StringMap V)
      → lookup name (insert new value m) ≡ (if str_eq new name then some value else lookup name m)
  unfolding insert lookup
  lookup-insert new name value [] = refl
  lookup-insert new name value (entry ∷ m) = ground (
    arith,
    lookup-insert new name value m,
    eq_iff new name,
    eq_iff entry.0 new,
    eq_iff entry.0 name,
  )
