-- ===== src/Gate/Modules.antt =====
-- The names that the gate knows.
use autonomous_agentic_platf.Prelude.{
  String, Bool, ◌||◌, none, some, List, [], ◌∷◌, or_else, is_some,
}
use text.Mathlib.Text.{find? as text_find, get?}

abbrev pub allowed_os_attrs : List String
allowed_os_attrs = "path" ∷ "environ" ∷ "getenv" ∷ "makedirs" ∷ "listdir" ∷ "sep" ∷ []

abbrev pub network_modules : List String
network_modules =
    "socket" ∷ "http" ∷ "urllib" ∷ "requests" ∷ "httpx" ∷ "ftplib" ∷ "telnetlib" ∷ "smtplib"
    ∷ "aiohttp" ∷ []

abbrev pub forbidden_modules : List String
forbidden_modules =
    "subprocess" ∷ "ctypes" ∷ "mmap" ∷ "pty" ∷ "resource" ∷ "signal" ∷ "multiprocessing" ∷ []

abbrev pub writable_prefixes : List String
writable_prefixes = "/artifacts" ∷ "/workspace" ∷ "/tmp" ∷ []

-- `part in whole`
abbrev pub includes : String → String → Bool
includes whole part = is_some (text_find whole part)

-- `WRITE_MODE.search(mode)`: a character of `wax+`.
unfoldable pub writes : String → Bool
writes mode = includes mode "w" || includes mode "a" || includes mode "x" || includes mode "+"

-- `dotted.split(".", 1)[0]`
unfoldable pub root_of : String → String
root_of dotted = elim (text_find dotted ".") [
  | none ↦ dotted
  | some at_dot ↦ or_else (get? dotted 0 at_dot) dotted
]
