-- ===== src/Events/Entries.antt =====
-- `append_event` and `decode_entry` of backend/app/core/redis.py: an event as the flat fields of an
-- entry of the stream, and back. JSON and the decimal notation of integers are Python's.
pub mod Roundtrip
use autonomous_agentic_platf.Prelude.{
  ℕ, zero, suc, ◌+◌, ◌-◌, ◌*◌, ◌≤◌, ◌<◌, min, max, String, ◌≡◌, refl, sym, ap, ◌∙◌, ◌≢◌, ◌↔◌, ◌⊎◌,
  inl, inr, Bool, true, false, not, ◌&&◌, ◌||◌, Option, none, some, List, [], ◌∷◌, ◌++◌, map,
  reverse, arith, eq_iff, str_eq, ltb, leb, ◌==◌, if◌then◌else◌, ltb→lt, lt→ltb, leb→le, le→leb,
  Bool-cases, Option-cases, or_else, is_some, is_none, length, is_empty, all, any, select, find?,
  count_if, length-append, count_if-append, count_if-le-length, All, All-append, All-reverse,
  All-imp, length-reverse, contains, lookup, insert, merge, ℤ, pos, negsuc, Floats, joined,
  joined-append, append_assoc, append-nil, remove, keys, lookup-insert_any, lookup-remove,
  lookup-keys,
}

-- `json.dumps` of a payload, `json.loads`, none where it raises, and what `decode_entry` builds;
-- `str` and `int` of integers.
pub record Codec : Type 1 where
  pub Json : Type 0
  pub dumps : Json → String
  pub loads : String → Option Json
  pub is_object : Json → Bool
  pub empty_object : Json
  pub value_object : Json → Json
  pub show : ℤ → String
  pub read : String → Option ℤ

pub record Envelope (codec : Codec) : Type 0 where
  pub v : ℤ
  pub seq : ℤ
  pub type : String
  pub ts : String
  pub payload : codec.Json
  pub id : String

-- `fields.get(name) or default`
abbrev pub field_or : String → String → List (String × String) → String
field_or name default fields = elim (lookup name fields) [
  | none ↦ default
  | some text ↦ if str_eq text "" then default else text
]

-- The fields that `append_event` adds.
abbrev pub entry_fields : String → String → String → String → List (String × String)
entry_fields seq type ts payload_json =
    ("v", "1") ∷ ("seq", seq) ∷ ("type", type) ∷ ("ts", ts) ∷ ("payload", payload_json) ∷ []

module _ (codec : Codec) where
  unfoldable pub append_event : ℤ → String → String → codec.Json → List (String × String)
  append_event seq type ts payload = entry_fields (codec.show seq) type ts (codec.dumps payload)

  abbrev pub as_object : Option codec.Json → codec.Json
  as_object none = codec.empty_object
  as_object (some payload) = if codec.is_object payload then payload else codec.value_object payload

  -- `fields.get(name)` as an integer, and the default where it is absent or empty; none where
  -- `int` raises.
  unfoldable pub int_field : String → ℤ → List (String × String) → Option ℤ
  unfolding lookup
  int_field name default fields = elim (lookup name fields) [
    | none ↦ some default
    | some text ↦ if str_eq text "" then some default else codec.read text
  ]

  -- `decode_entry`, none where it raises.
  unfoldable pub decode_entry : String → List (String × String) → Option (Envelope codec)
  unfolding int_field lookup
  decode_entry entry_id fields = elim (int_field "v" (pos 1) fields) [
    | none ↦ none
    | some v ↦ some (record {
      v = v;
      seq = or_else (int_field "seq" (pos 0) fields) (pos 0);
      type = field_or "type" "error" fields;
      ts = field_or "ts" "" fields;
      payload = as_object (codec.loads (field_or "payload" "{}" fields));
      id = entry_id;
    })
  ]
