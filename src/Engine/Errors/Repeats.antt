-- ===== src/Engine/Errors/Repeats.antt =====
-- What the stagnation counter counts.
use autonomous_agentic_platf.Prelude.{
  [], ◌+◌, String, ◌≡◌, refl, ◌≢◌, ◌⊎◌, inl, inr, List, ◌∷◌, ◌++◌, reverse, arith, eq_iff, length,
  All, All-reverse, length-reverse,
}
use mathlib.Core.List.{reverse-append}
use autonomous_agentic_platf.Engine.State.{ErrorRecord}
use autonomous_agentic_platf.Engine.Errors.{leading, consecutive_repeats}

abbrev pub HasFingerprint : String → ErrorRecord → Type 0
HasFingerprint f e = e.fingerprint ≡ f

-- The history before the run of equal errors: empty, or ending in another fingerprint.
abbrev pub EndsBefore : String → List ErrorRecord → Type 0
EndsBefore f older =
    (older ≡ [])
    ⊎ ((rest : List ErrorRecord) × (e : ErrorRecord) × (older ≡ rest ++ e ∷ [])
        × (e.fingerprint ≢ f))

leading-append :
    (f : String) (xs ys : List ErrorRecord)
    → All (HasFingerprint f) xs
    → leading f (xs ++ ys) ≡ length xs + leading f ys
unfolding leading
leading-append f [] ys h = omega arith
leading-append f (x ∷ xs) ys h = ground (arith, eq_iff x.fingerprint f, leading-append f xs ys h.1)

leading-EndsBefore :
    (f : String) (older : List ErrorRecord) → EndsBefore f older → leading f (reverse older) ≡ 0
unfolding leading
leading-EndsBefore f older (inl e) = rw e
leading-EndsBefore f older (inr (rest, x, e, other)) =
    rw (e, reverse-append rest (x ∷ [])) (ground (arith, eq_iff x.fingerprint f))

-- If the history ends in a run of errors that share a fingerprint, and the error before the run
-- has another, the counter is the length of that run.
pub consecutive_repeats-run :
    (older run : List ErrorRecord) (last : ErrorRecord)
    → EndsBefore last.fingerprint older
    → All (HasFingerprint last.fingerprint) run
    → consecutive_repeats (older ++ run ++ last ∷ []) ≡ length run + 1
unfolding consecutive_repeats
consecutive_repeats-run older run last before same =
    rw (reverse-append (older ++ run) (last ∷ []), reverse-append older run)
      (omega (
        arith,
        leading-append last.fingerprint (last ∷ reverse run) (reverse older)
            (refl, All-reverse _ run same),
        leading-EndsBefore last.fingerprint older before,
        length-reverse {0} run,
      ))
