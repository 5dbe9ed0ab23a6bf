-- ===== src/Socket/Due.antt =====
-- Which events are due to a connection, and what reads give them.
use autonomous_agentic_platf.Prelude.{
  ℕ, String, ◌≡◌, refl, ap, ◌∙◌, inl, inr, Bool, true, false, ◌||◌, Option, some, List, [], ◌∷◌,
  ◌++◌, if◌then◌else◌, Bool-cases, is_empty, any, select,
}
use autonomous_agentic_platf.Socket.{StoredEvent, Conn, Outside, Cursor, ends_run, next_cursor}
use autonomous_agentic_platf.Socket.Filter.{matches_filter}

-- The events up to the first that is terminal, which is one of them.
abbrev pub until_terminal : List StoredEvent → List StoredEvent
until_terminal [] = []
until_terminal (e ∷ es) = let rest = until_terminal es in if ends_run e then e ∷ [] else e ∷ rest

-- What the filter passes.
abbrev pub passed : Option (List String) → List StoredEvent → List StoredEvent
passed filter es = select (λ e. matches_filter e.type filter) es

-- What is due: a terminal event in the backlog ends the stream behind the backlog.
abbrev pub due_events : List StoredEvent → List StoredEvent → List StoredEvent
due_events events live = if any ends_run events then events else events ++ until_terminal live

-- The reads from that cursor give these chunks, none of them empty.
abbrev pub Serves : Outside → List (List StoredEvent) → Cursor → Type 0
Serves w [] cursor = Unit
Serves w (chunk ∷ chunks) cursor =
    ((call : ℕ) → w.xread call cursor 200 ≡ some chunk)
    × (is_empty chunk ≡ false)
    × Serves w chunks (next_cursor cursor chunk)

-- The connection is up, and the client has that filter.
pub record Up (filter : Option (List String)) (c : Conn) : Type 0 where
  pub is_open : c.closed ≡ false
  pub goes_on : c.finished ≡ false
  pub no_resync : c.resync ≡ false
  pub filters : c.filter ≡ filter

pub select-append :
    (p : StoredEvent → Bool) (xs ys : List StoredEvent)
    → select p (xs ++ ys) ≡ select p xs ++ select p ys
select-append p [] ys = refl
select-append p (x ∷ xs) ys = elim (Bool-cases (p x)) [
  | inl e ↦ rw e (ap (λ l. x ∷ l) (select-append p xs ys))
  | inr e ↦ rw e (select-append p xs ys)
]

-- Where no event of the first is terminal, the second follows.
pub until_terminal-append :
    (xs ys : List StoredEvent)
    → until_terminal (xs ++ ys)
      ≡ (if any ends_run xs then until_terminal xs else xs ++ until_terminal ys)
until_terminal-append [] ys = refl
until_terminal-append (x ∷ xs) ys = elim (Bool-cases (ends_run x)) [
  | inl e ↦ rw e refl
  | inr e ↦
      let ih = until_terminal-append xs ys in
      elim (Bool-cases (any ends_run xs)) [
        | inl t ↦
            rw (e, t)
              (ap (λ l. x ∷ l)
                (ih ∙ ap (λ b. if b then until_terminal xs else xs ++ until_terminal ys) t))
        | inr t ↦
            rw (e, t)
              (ap (λ l. x ∷ l)
                (ih ∙ ap (λ b. if b then until_terminal xs else xs ++ until_terminal ys) t))
      ]
]

pub or-left : (a b : Bool) → (a || b) ≡ false → a ≡ false
or-left true b h = h
or-left false b h = refl

pub or-right : (a b : Bool) → (a || b) ≡ false → b ≡ false
or-right true b h = absurd (cc)
or-right false b h = h

pub or-second : (a b : Bool) → b ≡ true → (a || b) ≡ true
or-second true b h = refl
or-second false b h = h
