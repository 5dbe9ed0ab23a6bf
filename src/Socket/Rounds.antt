-- ===== src/Socket/Rounds.antt =====
-- One round of the loop of `_pump`, by what its read and the step behind it give.
use autonomous_agentic_platf.Prelude.{ℕ, suc, ◌≡◌, refl, ap, Bool, true, false, some, List}
use autonomous_agentic_platf.Socket.{
  Conn, Outside, StoredEvent, Cursor, next_cursor, yielded, after_read, resynced, tail_live,
}

-- The loop behind a round.
abbrev pub resume : Outside → ℕ → Cursor → Bool × Conn → Conn
resume w rounds cursor (true, c) = tail_live w rounds cursor c
resume w rounds cursor (false, c) = c

pub round-reply :
    (w : Outside) (rounds : ℕ) (cursor : Cursor) (c : Conn) (events : List StoredEvent)
    (r : Bool × Conn)
    → c.closed ≡ false
    → c.finished ≡ false
    → w.xread (resynced w c).calls cursor 200 ≡ some events
    → after_read w events (yielded w (resynced w c)) ≡ r
    → tail_live w (suc rounds) cursor c ≡ resume w rounds (next_cursor cursor events) r
unfolding tail_live
round-reply w rounds cursor c events (true, next) is_open goes_on got e =
    rw (tail_live, is_open, goes_on, got, e)
      (ap (λ r. tail_live w rounds (next_cursor cursor events) r.1) e)
round-reply w rounds cursor c events (false, next) is_open goes_on got e =
    rw (tail_live, is_open, goes_on, got, e) (ap (λ r. r.1) e)

-- Without a request for a snapshot the round goes straight to its read.
pub resynced-same : (w : Outside) (c : Conn) → c.resync ≡ false → resynced w c ≡ c
unfolding resynced
resynced-same w c h = rw (resynced, h) refl

pub resume-stops :
    (w : Outside) (rounds : ℕ) (cursor : Cursor) (r : Bool × Conn)
    → r.0 ≡ false
    → resume w rounds cursor r ≡ r.1
resume-stops w rounds cursor (true, c) h = absurd (cc)
resume-stops w rounds cursor (false, c) h = refl

pub resume-goes :
    (w : Outside) (rounds : ℕ) (cursor : Cursor) (r : Bool × Conn)
    → r.0 ≡ true
    → resume w rounds cursor r ≡ tail_live w rounds cursor r.1
resume-goes w rounds cursor (true, c) h = refl
resume-goes w rounds cursor (false, c) h = absurd (cc)
