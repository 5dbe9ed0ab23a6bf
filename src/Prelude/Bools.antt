-- ===== src/Prelude/Bools.antt =====
-- Laws of the Boolean connectives.
use mathlib.Core.Path.{◌≡◌, refl}
use mathlib.Core.Bool.{Bool, true, false, not, ◌&&◌, ◌||◌}

pub and_true : (a : Bool) → (a && true) ≡ a
and_true true = refl
and_true false = refl

pub and_false : (a : Bool) → (a && false) ≡ false
and_false true = refl
and_false false = refl

pub and_assoc : (a b c : Bool) → ((a && b) && c) ≡ (a && (b && c))
and_assoc true b c = refl
and_assoc false b c = refl

pub or_true : (a : Bool) → (a || true) ≡ true
or_true true = refl
or_true false = refl

pub or_false : (a : Bool) → (a || false) ≡ a
or_false true = refl
or_false false = refl

pub or_assoc : (a b c : Bool) → ((a || b) || c) ≡ (a || (b || c))
or_assoc true b c = refl
or_assoc false b c = refl

pub not_and : (a b : Bool) → not (a && not b) ≡ (not a || b)
not_and false b = refl
not_and true true = refl
not_and true false = refl

pub and_both : (a b : Bool) → (a && b) ≡ true → (a ≡ true) × (b ≡ true)
and_both true true h = (refl, refl)
and_both true false h = absurd (cc)
and_both false b h = absurd (cc)

pub negated : (a : Bool) → not a ≡ true → a ≡ false
negated true h = absurd (cc)
negated false h = refl
