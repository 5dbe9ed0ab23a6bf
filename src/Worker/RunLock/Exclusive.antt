-- ===== src/Worker/RunLock/Exclusive.antt =====
-- The lock of a run among several workers.
use autonomous_agentic_platf.Prelude.{
  ℕ, ◌+◌, ◌<◌, String, ◌≡◌, refl, sym, ap, inl, inr, Bool, true, false, not, ◌||◌, Option, some,
  List, [], ◌∷◌, map, eq_iff, str_eq, if◌then◌else◌, lt→ltb, Bool-cases, all, and_both,
}
use autonomous_agentic_platf.Worker.RunLock.{
  Key, Holder, Call, acquire, renew, release, live_key, call_lock, Event, all_calls,
}

abbrev pub is_renewal : Call → Bool
is_renewal renew = true
is_renewal _ = false

-- A call of another worker, or a renewal by the owner.
abbrev pub is_foreign_or_renewal : String → Event → Bool
is_foreign_or_renewal owner e = not (str_eq owner e.holder.worker_id) || is_renewal e.call

-- When the lease of the owner ends after a call.
abbrev pub next_expiry : ℕ → String → ℕ → Event → ℕ
next_expiry ttl owner expires e = if str_eq owner e.holder.worker_id then e.now + ttl else expires

-- Each call comes before the lease ends as it stands then.
abbrev pub Timely : ℕ → String → ℕ → List Event → Type 0
Timely ttl owner expires [] = Unit
Timely ttl owner expires (e ∷ events) =
    (e.now < expires) × Timely ttl owner (next_expiry ttl owner expires e) events

-- The call succeeded exactly if it is the owner's.
abbrev pub own_answers : String → List Event → List Bool
own_answers owner events = map (λ e. str_eq owner e.holder.worker_id) events

live_in_time :
    (now expires : ℕ) (owner : String)
    → now < expires
    → live_key now (some (record { owner = owner; expires = expires }))
      ≡ some (record { owner = owner; expires = expires })
live_in_time now expires owner h = rw (lt→ltb now expires h) refl

not_or_false : (b : Bool) → (not b || false) ≡ true → b ≡ false
not_or_false true h = absurd (cc)
not_or_false false h = refl

-- What a call gives: the key is the owner's still, with the lease as it is to be, and the call
-- succeeded exactly if it is the owner's.
abbrev KeepsLease : ℕ → String → ℕ → ℕ → Holder → Option Key × Holder × Bool → Type 0
KeepsLease ttl owner expires now h (after, holder, answer) =
    (after
      ≡ some (record {
        owner = owner;
        expires = if str_eq owner h.worker_id then now + ttl else expires;
      }))
    × (answer ≡ str_eq owner h.worker_id)

call_in_time :
    (ttl : ℕ) (owner : String) (expires now : ℕ) (h : Holder) (c : Call)
    → (not (str_eq owner h.worker_id) || is_renewal c) ≡ true
    → now < expires
    → KeepsLease ttl owner expires now h
        (call_lock ttl now h c (some (record { owner = owner; expires = expires })))
call_in_time ttl owner expires now h acquire foreign k =
    let e = not_or_false (str_eq owner h.worker_id) foreign in
    rw (live_in_time now expires owner k, e) (refl, refl)
call_in_time ttl owner expires now h renew foreign k =
    elim (Bool-cases (str_eq owner h.worker_id)) [
      | inl e ↦
          rw (live_in_time now expires owner k, e)
            (
              ap (λ w. some (record { owner = w; expires = now + ttl }))
                  (sym ((eq_iff owner h.worker_id).0 e)),
              refl,
            )
      | inr e ↦ rw (live_in_time now expires owner k, e) (refl, refl)
    ]
call_in_time ttl owner expires now h release foreign k =
    let e = not_or_false (str_eq owner h.worker_id) foreign in
    elim (Bool-cases h.acquired) [
      | inl a ↦ rw (live_in_time now expires owner k, e, a) (refl, refl)
      | inr a ↦ rw (live_in_time now expires owner k, e, a) (refl, refl)
    ]

-- When the lease ends after all of them.
abbrev pub last_expiry : ℕ → String → ℕ → List Event → ℕ
last_expiry ttl owner expires [] = expires
last_expiry ttl owner expires (e ∷ events) =
    last_expiry ttl owner (next_expiry ttl owner expires e) events

-- While a worker holds the lock of a run and renews it, and each call comes before its lease ends
-- as it then stands, no call of another worker succeeds, be it to acquire, to renew or to
-- release, every renewal of its own does, and the lock is still its own in the end, for a whole
-- lease behind its last renewal, or as long as at first if there was none.
pub all_calls-Timely :
    (ttl : ℕ) (owner : String) (events : List Event) (expires : ℕ)
    → all (is_foreign_or_renewal owner) events ≡ true
    → Timely ttl owner expires events
    → all_calls ttl events (some (record { owner = owner; expires = expires })) ≡ (
      some (record { owner = owner; expires = last_expiry ttl owner expires events }),
      own_answers owner events,
    )
unfolding all_calls
all_calls-Timely ttl owner [] expires ho ht = refl
all_calls-Timely ttl owner (e ∷ events) expires ho ht =
    let (he, hs) =
      and_both (is_foreign_or_renewal owner e) (all (is_foreign_or_renewal owner) events) ho in
    let (key, answer) = call_in_time ttl owner expires e.now e.holder e.call he ht.0 in
    simp (key, answer, all_calls-Timely ttl owner events (next_expiry ttl owner expires e) hs ht.1)
