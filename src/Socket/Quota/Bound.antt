-- ===== src/Socket/Quota/Bound.antt =====
-- How many connections of a run stream at once.
use autonomous_agentic_platf.Prelude.{
  ℕ, suc, ◌+◌, ◌≤◌, ◌≡◌, refl, sym, ap, ◌∙◌, inl, inr, Bool, true, false, not, List, [], ◌∷◌, arith,
  ltb, ◌==◌, if◌then◌else◌, Bool-cases, length, all, select, count_if, count_if-append,
  count_if-le-length,
}
use autonomous_agentic_platf.Socket.Quota.{
  Command, Member, Phase, accounting_raises, admit, cardinality, claiming, closing, command,
  commands, end_stream, is_expiry, is_failure, is_streaming, key_expires, leaves,
  max_connections_per_run, over, refused, sadd, sadd_raises, scard, set_phase, settle, srem,
  streaming, streaming_phase, streams, uncounted,
}

count_if-select :
    (q p : Member → Bool) (members : List Member)
    → count_if q (select p members) ≤ count_if q members
count_if-select q p [] = omega arith
count_if-select q p (m ∷ members) =
    let ih = count_if-select q p members in
    elim (Bool-cases (p m)) [
      | inl e ↦
          rw e (elim (Bool-cases (q m)) [ inl s ↦ rw s (omega arith) | inr s ↦ rw s (omega arith) ])
      | inr e ↦
          rw e (elim (Bool-cases (q m)) [ inl s ↦ rw s (omega arith) | inr s ↦ rw s (omega arith) ])
    ]

length-set_phase :
    (conn_id : ℕ) (next : Phase → Phase) (members : List Member)
    → length (set_phase conn_id next members) ≡ length members
unfolding set_phase
length-set_phase conn_id next [] = refl
length-set_phase conn_id next (m ∷ members) = elim (Bool-cases (m.conn_id == conn_id)) [
  | inl e ↦ rw e refl
  | inr e ↦ rw e (ap (λ n. suc n) (length-set_phase conn_id next members))
]

uncounted-set_phase :
    (conn_id : ℕ) (next : Phase → Phase) (members : List Member)
    → uncounted (set_phase conn_id next members) ≡ uncounted members
unfolding set_phase
uncounted-set_phase conn_id next [] = refl
uncounted-set_phase conn_id next (m ∷ members) = elim (Bool-cases (m.conn_id == conn_id)) [
  | inl e ↦ rw e refl
  | inr e ↦
      rw e (ap (λ n. if not m.counted then suc n else n) (uncounted-set_phase conn_id next members))
]

-- One connection enters streaming at most.
streams-set_phase :
    (conn_id : ℕ) (next : Phase → Phase) (members : List Member)
    → streams (set_phase conn_id next members) ≤ streams members + 1
unfolding set_phase
streams-set_phase conn_id next [] = omega arith
streams-set_phase conn_id next (m ∷ members) =
    let ih = streams-set_phase conn_id next members in
    elim (Bool-cases (m.conn_id == conn_id)) [
      | inl e ↦ rw e (elim (Bool-cases (streaming_phase (next m.phase))) [
        | inl s ↦ rw s (elim (Bool-cases (is_streaming m)) [
          | inl t ↦ rw t (omega arith)
          | inr t ↦ rw t (omega arith)
        ])
        | inr s ↦ rw s (elim (Bool-cases (is_streaming m)) [
          | inl t ↦ rw t (omega arith)
          | inr t ↦ rw t (omega arith)
        ])
      ])
      | inr e ↦ rw e (elim (Bool-cases (is_streaming m)) [
        | inl s ↦ rw s (omega arith)
        | inr s ↦ rw s (omega arith)
      ])
    ]

-- A phase that no connection enters streaming by does not add a stream.
streams-set_phase_kept :
    (conn_id : ℕ) (next : Phase → Phase) (members : List Member)
    → ((p : Phase) → streaming_phase (next p) ≡ true → streaming_phase p ≡ true)
    → streams (set_phase conn_id next members) ≤ streams members
unfolding set_phase
streams-set_phase_kept conn_id next [] h = omega arith
streams-set_phase_kept conn_id next (m ∷ members) h =
    let ih = streams-set_phase_kept conn_id next members h in
    elim (Bool-cases (m.conn_id == conn_id)) [
      | inr e ↦ rw e (elim (Bool-cases (is_streaming m)) [
        | inl s ↦ rw s (omega arith)
        | inr s ↦ rw s (omega arith)
      ])
      | inl e ↦ elim (Bool-cases (streaming_phase (next m.phase))) [
        | inl s ↦ rw (e, s, h m.phase s) (omega arith)
        | inr s ↦ elim (Bool-cases (is_streaming m)) [
          | inl t ↦ rw (e, s, t) (omega arith)
          | inr t ↦ rw (e, s, t) (omega arith)
        ]
      ]
    ]

-- The set and the rest.
cardinality-uncounted :
    (members : List Member) → cardinality members + uncounted members ≡ length members
cardinality-uncounted [] = refl
cardinality-uncounted (m ∷ members) =
    let ih = cardinality-uncounted members in
    elim (Bool-cases m.counted) [ inl e ↦ rw e (omega arith) | inr e ↦ rw e (omega arith) ]

-- Above the limit the test admits nobody.
settle-full :
    (n : ℕ) (p : Phase)
    → ltb max_connections_per_run n ≡ true
    → streaming_phase (settle n p) ≡ true
    → streaming_phase p ≡ true
unfolding settle
settle-full n claiming full s =
    sym (ap (λ b. streaming_phase (if b then refused else streaming)) full) ∙ s
settle-full n refused full s = s
settle-full n streaming full s = refl
settle-full n closing full s = s

over-streaming : (p : Phase) → streaming_phase (over p) ≡ true → streaming_phase p ≡ true
unfolding over
over-streaming claiming s = s
over-streaming refused s = s
over-streaming streaming s = refl
over-streaming closing s = s

-- What holds behind that many failures of the accounting.
abbrev Within : ℕ → List Member → Type 0
Within failures members =
    (streams members ≤ max_connections_per_run + failures) × (uncounted members ≤ failures)

command-Within :
    (c : Command) (failures : ℕ) (members : List Member)
    → is_expiry c ≡ false
    → Within failures members
    → Within (failures + count_if is_failure (c ∷ [])) (command c members)
unfolding command
command-Within (sadd conn_id) failures members lasts (h, u) = (omega arith, omega arith)
command-Within (scard conn_id) failures members lasts (h, u) =
    let next = settle (cardinality members) in
    let all = count_if-le-length is_streaming (set_phase conn_id next members) in
    let size = length-set_phase conn_id next members in
    let parts = cardinality-uncounted members in
    let same = uncounted-set_phase conn_id next members in
    elim (Bool-cases (ltb max_connections_per_run (cardinality members))) [
      | inl full ↦
          let less =
            streams-set_phase_kept conn_id next members
              (λ p. settle-full (cardinality members) p full) in
          (omega arith, omega arith)
      | inr room ↦
          let fits : cardinality members ≤ max_connections_per_run = ground arith in
          (omega arith, omega arith)
    ]
command-Within (end_stream conn_id) failures members lasts (h, u) =
    let less = streams-set_phase_kept conn_id over members over-streaming in
    let same = uncounted-set_phase conn_id over members in (omega arith, omega arith)
command-Within (srem conn_id) failures members lasts (h, u) =
    let less = count_if-select is_streaming (λ m. not (leaves conn_id m)) members in
    let fewer = count_if-select (λ m. not m.counted) (λ m. not (leaves conn_id m)) members in
    (omega arith, omega arith)
command-Within (sadd_raises conn_id) failures members lasts (h, u) = (omega arith, omega arith)
command-Within (accounting_raises conn_id) failures members lasts (h, u) =
    let less = streams-set_phase conn_id admit members in
    let same = uncounted-set_phase conn_id admit members in (omega arith, omega arith)
command-Within key_expires failures members lasts h = absurd (cc)

commands-Within :
    (cs : List Command) (failures : ℕ) (members : List Member)
    → all (λ c. not (is_expiry c)) cs ≡ true
    → Within failures members
    → Within (failures + count_if is_failure cs) (commands cs members)
unfolding commands
commands-Within [] failures members lasts (h, u) = (omega arith, omega arith)
commands-Within (c ∷ cs) failures members lasts h = elim (Bool-cases (is_expiry c)) [
  | inl e ↦ absurd (ground arith)
  | inr e ↦
      let now = command-Within c failures members e h in
      let later : all (λ c. not (is_expiry c)) cs ≡ true = ground arith in
      let (streaming_then, uncounted_then) =
        commands-Within cs (failures + count_if is_failure (c ∷ [])) (command c members) later
          now in
      let both : count_if is_failure (c ∷ cs)
          ≡ count_if is_failure (c ∷ []) + count_if is_failure cs =
        count_if-append is_failure (c ∷ []) cs in
      (omega arith, omega arith)
]

-- In whatever order the commands of the connections of a run come, and whichever of them raise,
-- at most 8 connections stream, and one more for each command of a claim that raises and so lets
-- its connection in, if at most 8 stream before, the set in Redis has all of them, and it does
-- not expire on the way.
pub commands-le :
    (cs : List Command) (members : List Member)
    → streams members ≤ max_connections_per_run
    → uncounted members ≡ 0
    → all (λ c. not (is_expiry c)) cs ≡ true
    → streams (commands cs members) ≤ max_connections_per_run + count_if is_failure cs
commands-le cs members h counted_all lasts =
    let (streaming_then, uncounted_then) =
      commands-Within cs 0 members lasts (omega arith, omega arith) in
    omega arith
