-- ===== src/Socket/Filter.antt =====
-- `matches_filter`: which types of event a client has asked for.
use autonomous_agentic_platf.Prelude.{
  ℕ, zero, suc, ◌-◌, String, Bool, true, ◌&&◌, ◌||◌, Option, none, some, List, [], ◌∷◌, str_eq,
  if◌then◌else◌, or_else, any, contains,
}
use text.Mathlib.Text.{starts_with, get?}
use Prim.Native.String.{len}

-- `w.rstrip("*")` of a text with that number of bytes.
unfoldable pub strip_stars : ℕ → String → String
strip_stars zero w = w
strip_stars (suc n) w = elim (get? w n (suc n)) [
  | none ↦ w
  | some last ↦ if str_eq last "*" then strip_stars n (or_else (get? w 0 n) "") else w
]

-- `w.endswith((".", "*"))`
abbrev pub names_family : String → Bool
names_family w = contains (or_else (get? w (len w - 1) (len w)) "") ("." ∷ "*" ∷ [])

unfoldable pub matches_filter : String → Option (List String) → Bool
unfolding strip_stars
matches_filter type none = true
matches_filter type (some wanted) =
    contains type wanted
    || any (λ w. names_family w && starts_with type (strip_stars (len w) w)) wanted
