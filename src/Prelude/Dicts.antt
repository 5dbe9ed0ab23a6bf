-- ===== src/Prelude/Dicts.antt =====
-- Python dictionaries with string keys, as association lists.
use mathlib.Core.Path.{◌≡◌, refl}
use mathlib.Core.Logic.{inl, inr}
use mathlib.Core.Bool.{not}
use native.Mathlib.Omega.{arith}
use text.Mathlib.TextEquality.{eq_iff}
use autonomous_agentic_platf.Prelude.Tests.{Bool-cases}
use autonomous_agentic_platf.Prelude.Lists.{select}
use mathlib.Core.Bool.{◌||◌}
use mathlib.Core.List.{[]}
use Prim.Native.String.{String}
use mathlib.Core.Bool.{Bool, false}
use mathlib.Core.Option.{Option, none, some}
use mathlib.Core.List.{List, ◌∷◌}
use text.Mathlib.Text.{◌==◌ as str_eq}
use autonomous_agentic_platf.Prelude.Tests.{if◌then◌else◌}

-- `x in xs`, for a list or a set of strings.
abbrev pub contains : String → List String → Bool
contains x [] = false
contains x (y ∷ ys) = str_eq x y || contains x ys

module _ {ℓ} {V : Type ℓ} where
  unfoldable pub lookup : String → List (String × V) → Option V
  lookup key [] = none
  lookup key ((at_key, value) ∷ dict) = if str_eq at_key key then some value else lookup key dict

  unfoldable pub insert : String → V → List (String × V) → List (String × V)
  insert key new [] = (key, new) ∷ []
  insert key new ((at_key, value) ∷ dict) =
      if str_eq at_key key then (key, new) ∷ dict else (at_key, value) ∷ insert key new dict

  -- `{**current, **new}`
  unfoldable pub merge : List (String × V) → List (String × V) → List (String × V)
  unfolding insert
  merge dict [] = dict
  merge dict ((key, new) ∷ more) = merge (insert key new dict) more

  -- `dict.pop(key, …)`
  unfoldable pub remove : String → List (String × V) → List (String × V)
  remove key dict = select (λ item. not (str_eq item.0 key)) dict

  -- `list(dict)`
  abbrev pub keys : List (String × V) → List String
  keys [] = []
  keys ((key, value) ∷ dict) = key ∷ keys dict

  pub lookup-insert_any :
      (asked key : String) (new : V) (dict : List (String × V))
      → lookup asked (insert key new dict)
        ≡ (if str_eq key asked then some new else lookup asked dict)
  unfolding lookup insert
  lookup-insert_any asked key new [] = refl
  lookup-insert_any asked key new ((other, value) ∷ dict) = elim (Bool-cases (str_eq other key)) [
    | inl same ↦ ground (arith, eq_iff other key, eq_iff other asked, eq_iff key asked)
    | inr apart ↦ ground (
      arith,
      eq_iff other key,
      eq_iff other asked,
      eq_iff key asked,
      lookup-insert_any asked key new dict,
    )
  ]

  pub lookup-remove :
      (asked key : String) (dict : List (String × V))
      → lookup asked (remove key dict) ≡ (if str_eq key asked then none else lookup asked dict)
  unfolding lookup remove
  lookup-remove asked key [] = ground arith
  lookup-remove asked key ((other, value) ∷ dict) = elim (Bool-cases (str_eq other key)) [
    | inl same ↦ ground (
      arith,
      eq_iff other key,
      eq_iff other asked,
      eq_iff key asked,
      lookup-remove asked key dict,
    )
    | inr apart ↦ ground (
      arith,
      eq_iff other key,
      eq_iff other asked,
      eq_iff key asked,
      lookup-remove asked key dict,
    )
  ]

  pub lookup-keys :
      (asked : String) (dict : List (String × V))
      → contains asked (keys dict) ≡ false
      → lookup asked dict ≡ none
  unfolding lookup
  lookup-keys asked [] h = refl
  lookup-keys asked ((other, value) ∷ dict) h =
      ground (arith, eq_iff other asked, eq_iff asked other, lookup-keys asked dict)
