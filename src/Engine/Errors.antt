-- ===== src/Engine/Errors.antt =====
-- `consecutive_repeats` of backend/app/engine/errors.py.
pub mod Repeats
use autonomous_agentic_platf.Prelude.{[], ℕ, suc, List, ◌∷◌, reverse, String, str_eq, if◌then◌else◌}
use autonomous_agentic_platf.Engine.State.{ErrorRecord}

-- The loop over `reversed(history)`, which breaks at another fingerprint.
unfoldable pub leading : String → List ErrorRecord → ℕ
leading newest [] = 0
leading newest (error ∷ older) =
    let rest = leading newest older in if str_eq error.fingerprint newest then suc rest else 0

abbrev pub repeats_of_newest : List ErrorRecord → ℕ
repeats_of_newest [] = 0
repeats_of_newest (newest ∷ older) = leading newest.fingerprint (newest ∷ older)

unfoldable pub consecutive_repeats : List ErrorRecord → ℕ
consecutive_repeats errors = repeats_of_newest (reverse errors)
