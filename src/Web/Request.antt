-- ===== src/Web/Request.antt =====
-- project3/http_server.cpp, `session`: `slicer`, `parser`, and the program that answers.
pub mod Laws
use network_programming_demo.Prelude.{
  ℕ, suc, ◌+◌, ◌-◌, List, [], ◌∷◌, ◌++◌, Option, none, some, ◌>>=◌, Bool, true, false, ◌==◌, ◌&&◌,
  ◌||◌, leb, if◌then◌else◌, length, take, drop,
}
use network_programming_demo.Text.Bytes.{Bytes, codes, equal, is_alnum}

-- The first text is in front of the second.
unfoldable pub is_prefix : Bytes → Bytes → Bool
is_prefix [] s = true
is_prefix (d ∷ del) [] = false
is_prefix (d ∷ del) (c ∷ s) = c == d && is_prefix del s

-- `_str.find(del)`; `none` stands for npos.
unfoldable pub find_text : Bytes → Bytes → Option ℕ
unfolding is_prefix
find_text del [] = if is_prefix del [] then some 0 else none
find_text del (c ∷ s) =
    if is_prefix del (c ∷ s)
    then some 0
    else (elim (find_text del s) [ none ↦ none | some i ↦ some (suc i) ])

-- `s.substr(pos)`; `none` is std::out_of_range.
abbrev pub substr_from : ℕ → Bytes → Option Bytes
substr_from pos s = if leb pos (length s) then some (drop pos s) else none

-- The part before the delimiter, and what is left of `_str`. Without the delimiter `pos` is -1, so the
-- part is the whole text, and what is left starts at `del.length() - 1`.
unfoldable pub slicer : Bytes → Bytes → Option (Bytes × Bytes)
unfolding find_text
slicer s del = elim (find_text del s) [
  | some pos ↦ (do left ← substr_from (pos + length del) s; some (take pos s, left))
  | none ↦ (do left ← substr_from (length del - 1) s; some (s, left))
]

-- `while (_str[pos] == ' ') pos++;` from a text's end on the byte is NUL.
unfoldable pub skip_blanks : Bytes → Bytes
skip_blanks [] = []
skip_blanks (c ∷ s) = if c == b' ' then skip_blanks s else c ∷ s

abbrev pub is_host : ℕ → Bool
is_host c = is_alnum c || c == b'.' || c == b':'

unfoldable pub host_front : Bytes → Bytes
host_front [] = []
host_front (c ∷ s) = let t = host_front s in if is_host c then c ∷ t else []

-- The host: behind "Host:", or behind the first four bytes of a request that has none. `none` is a
-- start past the end.
unfoldable pub http_host : Bytes → Option Bytes
unfolding find_text skip_blanks host_front
http_host s = elim (find_text (codes "Host:") s) [
  | some pos ↦ (do behind ← substr_from (pos + 5) s; some (host_front (skip_blanks behind)))
  | none ↦ (do behind ← substr_from 4 s; some (host_front (skip_blanks behind)))
]

-- The keys of `env_` that `parser` sets, and `source`.
pub record Request : Type 0 where
  pub request_method : Bytes
  pub request_uri : Bytes
  pub query_string : Bytes
  pub server_protocol : Bytes
  pub http_host : Bytes
  pub source : Bytes

-- `reqURI.erase(reqURI.begin())`; `none` is an erase at the end of an empty text.
abbrev erase_begin : Bytes → Option Bytes
erase_begin [] = none
erase_begin (c ∷ s) = some s

-- `none` is the exception of a substr, or a use of an iterator at the end.
unfoldable pub parser : Bytes → Option Request
unfolding slicer http_host
parser str = do
  (line, headers) ← slicer str (codes "\r\n")
  (method, line1) ← slicer line (codes " ")
  (target, line2) ← slicer line1 (codes " ")
  uri ← erase_begin target
  (source, query) ← slicer uri (codes "?")
  host ← http_host headers
  some (record {
    request_method = method;
    request_uri = uri;
    query_string = query;
    server_protocol = line2;
    http_host = host;
    source = source;
  })

-- The addresses that the constructor of the session puts into `env_`.
pub record Endpoints : Type 0 where
  pub remote_addr : Bytes
  pub remote_port : Bytes
  pub server_addr : Bytes
  pub server_port : Bytes

-- `setEnvironment`: names and values in the order of the calls of setenv.
unfoldable pub set_environment : Request → Endpoints → List (Bytes × Bytes)
set_environment r e =
    (codes "REQUEST_METHOD", r.request_method)
    ∷ (codes "REQUEST_URI", r.request_uri)
    ∷ (codes "QUERY_STRING", r.query_string)
    ∷ (codes "SERVER_PROTOCOL", r.server_protocol)
    ∷ (codes "HTTP_HOST", r.http_host)
    ∷ (codes "SERVER_ADDR", e.server_addr)
    ∷ (codes "SERVER_PORT", e.server_port)
    ∷ (codes "REMOTE_ADDR", e.remote_addr)
    ∷ (codes "REMOTE_PORT", e.remote_port)
    ∷ []

-- The status line, which is handed to async_send in an array of `do_write`'s own frame, and the command that the handler of its send gives to `system`, if the send has
-- succeeded.
unfoldable pub status_line : Bytes
status_line = codes "HTTP/1.1 200 OK\r\n"

unfoldable pub command : Bytes → Bytes
unfolding equal
command source =
    if equal source (codes "panel.cgi") || equal source (codes "printenv.cgi")
    then codes "python3 " ++ source
    else if equal source (codes "console.cgi")
    then codes "./console.cgi"
    else codes "./" ++ source

-- A request that has been read: the environment, what is handed to async_send, and the command. What goes
-- out is not said here, as the array is gone when the send starts.
unfoldable pub serve : Bytes → Endpoints → Option (List (Bytes × Bytes) × (Bytes × Bytes))
serve str e = do r ← parser str; some (set_environment r e, (status_line, command r.source))
