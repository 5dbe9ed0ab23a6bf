-- ===== src/Events/Entries/Roundtrip.antt =====
-- `decode_entry` on what `append_event` wrote.
use autonomous_agentic_platf.Prelude.{
  String, ◌≡◌, refl, inl, inr, true, false, some, eq_iff, str_eq, Bool-cases, lookup, ℤ, pos,
}
use autonomous_agentic_platf.Events.Entries.{Codec, append_event, decode_entry, int_field}

-- What the code relies on for that number and that payload: what is written is not empty, and reads
-- as what it was.
pub record Readable (codec : Codec) (seq : ℤ) (payload : codec.Json) : Type 0 where
  pub read_one : codec.read "1" ≡ some (pos 1)
  pub read_show : codec.read (codec.show seq) ≡ some seq
  pub show_filled : str_eq (codec.show seq) "" ≡ false
  pub loads_dumps : codec.loads (codec.dumps payload) ≡ some payload
  pub dumps_filled : str_eq (codec.dumps payload) "" ≡ false

-- decode_entry reads from the fields that append_event wrote the event that was written, with
-- version 1, if its type is not empty and its payload an object, provided that str and int, and
-- dumps and loads, undo each other on its number and its payload and write no empty text.
pub decode_entry-append_event :
    (codec : Codec) (entry_id type ts : String) (seq : ℤ) (payload : codec.Json)
    → Readable codec seq payload
    → str_eq type "" ≡ false
    → codec.is_object payload ≡ true
    → decode_entry codec entry_id (append_event codec seq type ts payload)
      ≡ some
          (record { v = pos 1; seq = seq; type = type; ts = ts; payload = payload; id = entry_id })
unfolding decode_entry append_event int_field lookup
decode_entry-append_event codec entry_id type ts seq payload laws named is_object =
    elim (Bool-cases (str_eq ts "")) [
      | inl blank ↦
          rw
            (
              laws.read_one,
              laws.show_filled,
              laws.read_show,
              named,
              (eq_iff ts "").0 blank,
              laws.dumps_filled,
              laws.loads_dumps,
              is_object,
            )
            refl
      | inr given ↦
          rw
            (
              laws.read_one, laws.show_filled, laws.read_show, named, given, laws.dumps_filled,
              laws.loads_dumps, is_object,
            )
            refl
    ]
