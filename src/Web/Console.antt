-- ===== src/Web/Console.antt =====
-- project3/console.cpp: the query, the escaping of what a shell writes, and `session`, which shows a
-- shell's output and answers each prompt with the next command of the test case.
pub mod Query
pub mod Transcript
use network_programming_demo.Prelude.{
  ℕ, zero, suc, ◌+◌, ◌-◌, List, [], ◌∷◌, ◌++◌, Option, none, some, Bool, true, false, ◌||◌, ltb,
  if◌then◌else◌, length, take, drop,
}
use network_programming_demo.Text.Bytes.{Bytes, codes, equal}
use network_programming_demo.Text.Find.{find}
use network_programming_demo.Text.Decimal.{to_string}

-- `to_string(int(c))` for a char, which is signed.
unfoldable pub char_text : ℕ → Bytes
unfolding to_string
char_text c = if ltb c 128 then to_string c else b'-' ∷ to_string (256 - c)

unfoldable pub escape : Bytes → Bytes
unfolding char_text
escape [] = []
escape (c ∷ content) = codes "&#" ++ (char_text c ++ b';' ∷ escape content)

-- The script that `output_shell` prints, and that of `output_command`.
unfoldable pub output_shell : Bytes → Bytes → Bytes
output_shell session content =
    codes "<script>document.getElementById('"
    ++ session
    ++ codes "').innerHTML += '"
    ++ escape content
    ++ codes "';</script>\n"

unfoldable pub output_command : Bytes → Bytes → Bytes
output_command session content =
    codes "<script>document.getElementById('"
    ++ session
    ++ codes "').innerHTML += '<b>"
    ++ escape content
    ++ codes "</b>';</script>\n"

-- `reading` says that an `async_read_some` is in flight. `out` is what has been printed, `sent` what has
-- been written to the shell; `async_write` is taken to write what it is given, before the next one.
pub record Session : Type 0 where
  pub session_id : Bytes
  pub cmd_str : List Bytes
  pub reading : Bool
  pub out : Bytes
  pub sent : Bytes

-- `_str.find("%") != string::npos`
unfoldable pub has_prompt : Bytes → Bool
unfolding find
has_prompt str = elim (find b'%' str) [ none ↦ false | some _ ↦ true ]

abbrev pub next_command : List Bytes → Bytes
next_command [] = b'\n' ∷ []
next_command (c ∷ cs) = c ++ b'\n' ∷ []

unfoldable pub do_write : Session → Session
unfolding output_command
do_write s = record s {
  cmd_str = drop 1 s.cmd_str;
  out = s.out ++ output_command s.session_id (next_command s.cmd_str);
  sent = s.sent ++ next_command s.cmd_str;
}

abbrev pub do_read : Session → Session
do_read s = record s { reading = true }

-- The read completes: with bytes, with the end of the stream, or with another error and its message.
pub data Event : Type 0 where
  block : Bytes → Event
  eof : Bytes → Event
  failed : Bytes → Event

abbrev shown : Bytes → Session → Session
shown str s = record s { out = s.out ++ output_shell s.session_id str }

on_read : Event → Session → Session
unfolding output_shell do_write has_prompt
on_read (block str) s = do_read (if has_prompt str then do_write (shown str s) else shown str s)
on_read (eof str) s = shown str s
on_read (failed message) s = record s {
  out = s.out ++ (codes "Error: " ++ (message ++ b'\n' ∷ []));
}

-- The handler runs for a read that is in flight.
unfoldable pub step : Event → Session → Option Session
unfolding on_read
step e s = if s.reading then some (on_read e (record s { reading = false })) else none

-- `start`, with the lines of the test case.
unfoldable pub start : Bytes → List Bytes → Session
start session_id cmds =
    do_read
      (record { session_id = session_id; cmd_str = cmds; reading = false; out = []; sent = [] })

-- The query: `queries[key] = value` puts a pair in front, and the first one with a key counts.
unfoldable lookup : Bytes → List (Bytes × Bytes) → Bytes
unfolding equal
lookup key [] = []
lookup key ((k, v) ∷ queries) = if equal k key then v else lookup key queries

-- A field without "=" is both key and value.
unfoldable pub field : Bytes → Bytes × Bytes
unfolding find
field sub = elim (find b'=' sub) [
  | none ↦ (sub, sub)
  | some posi ↦ (take posi sub, drop (posi + 1) sub)
]

-- The loop of `parser` on fuel, with the queries so far.
unfoldable pub parser_fuel : ℕ → Bytes → List (Bytes × Bytes) → List (Bytes × Bytes)
unfolding find field
parser_fuel zero str queries = queries
parser_fuel (suc f) str queries = elim (find b'&' str) [
  | none ↦ field str ∷ queries
  | some pos ↦ parser_fuel f (drop (pos + 1) str) (field (take pos str) ∷ queries)
]

-- A round for each byte and one more.
unfoldable pub parser : Bytes → List (Bytes × Bytes)
unfolding parser_fuel
parser str = parser_fuel (suc (length str)) str []

-- `server_info`.
pub record ServerInfo : Type 0 where
  pub id : Bytes
  pub host : Bytes
  pub port : Bytes
  pub file : Bytes

abbrev key : ℕ → ℕ → Bytes
key letter i = letter ∷ to_string i

-- The round of `main` for the i-th shell: none is started where host, port or file is missing.
unfoldable server_at : List (Bytes × Bytes) → ℕ → List ServerInfo
unfolding lookup equal to_string
server_at queries i =
    let host = lookup (key b'h' i) queries in
    let port = lookup (key b'p' i) queries in
    let file = lookup (key b'f' i) queries in
    if equal host [] || equal port [] || equal file []
    then []
    else record { id = key b's' i; host = host; port = port; file = file } ∷ []

-- `for (int i = 0; i < 5; i++)`
unfoldable pub servers : Bytes → List ServerInfo
unfolding server_at parser
servers query_string =
    let q = parser query_string in
    server_at q 0 ++ (server_at q 1 ++ (server_at q 2 ++ (server_at q 3 ++ server_at q 4)))
