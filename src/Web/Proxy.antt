-- ===== src/Web/Proxy.antt =====
-- project4/console.cpp, `npshell`: the request to the SOCKS server and the reply to it. `slicer` is the
-- function of socks_server.cpp once more.
use network_programming_demo.Prelude.{
  ℕ, zero, suc, ◌/◌, ◌%◌, ◌<◌, List, [], ◌∷◌, ◌++◌, Option, none, some, ◌>>=◌, ◌==◌, if◌then◌else◌,
  get_elem?, ◌≡◌, refl, arith,
}
use network_programming_demo.Text.Bytes.{Bytes}
use network_programming_demo.Text.Find.{Lacks}
use network_programming_demo.Text.Decimal.{
  to_string, stoi, stoi-to_string, to_string-IsDigits, IsDigits,
}
use network_programming_demo.Socks.Request.{SocksInfo, socks4_parser, dotted, read_text}
use network_programming_demo.Socks.Firewall.{slicer}
use network_programming_demo.Socks.Firewall.Octets.{slicer-append, slicer-Lacks}
use network_programming_demo.Socks.Session.Laws.{Request, parsed, socks4_parser-encode}
use network_programming_demo.Web.Console.{Session, start}

-- The loop over the four parts of the address, over the rounds left; `none` is the exception of stoi.
-- A part goes into a char.
unfoldable octets : ℕ → Bytes → Option Bytes
octets zero ip = some []
octets (suc n) ip = do
  let (part, left) = slicer ip b'.'
  number ← stoi part
  more ← octets n left
  some (number % 256 ∷ more)

-- The eight bytes that are written, for the port and the address of the resolved endpoint.
unfoldable pub do_request : ℕ → Bytes → Option Bytes
unfolding octets
do_request port ip = do address ← octets 4 ip; some (4 ∷ 1 ∷ port / 256 ∷ port % 256 ∷ address)

-- The reply in `data_`: the session starts with the lines of the test case, or the socket is closed.
unfoldable pub do_open_test_case : Bytes → Bytes → List Bytes → Option Session
unfolding start
do_open_test_case reply session_id cmds = do
  status ← get_elem? reply 1
  if status == 90 then some (start session_id cmds) else none

digits-Lacks : (s : Bytes) → IsDigits s → Lacks b'.' s
digits-Lacks [] h = tt
digits-Lacks (c ∷ s) h = (ground arith, digits-Lacks s h.1)

number-Lacks : (n : ℕ) → Lacks b'.' (to_string n)
number-Lacks n = digits-Lacks (to_string n) (to_string-IsDigits n)

octets-dotted :
    (a b c d : ℕ) → octets 4 (dotted a b c d) ≡ some (a % 256 ∷ b % 256 ∷ c % 256 ∷ d % 256 ∷ [])
unfolding octets
octets-dotted a b c d = rw (
  slicer-append b'.' (to_string a) (to_string b ++ b'.' ∷ (to_string c ++ b'.' ∷ to_string d))
      (number-Lacks a),
  slicer-append b'.' (to_string b) (to_string c ++ b'.' ∷ to_string d) (number-Lacks b),
  slicer-append b'.' (to_string c) (to_string d) (number-Lacks c),
  slicer-Lacks b'.' (to_string d) (number-Lacks d),
  stoi-to_string a,
  stoi-to_string b,
  stoi-to_string c,
  stoi-to_string d,
)

-- A SOCKS4 request for CONNECT with no user and no domain.
abbrev pub connect : ℕ → ℕ → ℕ → ℕ → ℕ → Request
connect port a b c d = record {
  vn = 4;
  command = 1;
  port = port;
  a = a;
  b = b;
  c = c;
  d = d;
  user = [];
  domain = [];
}

cut_short :
    (resolve : Bytes → Bytes → Option Bytes) (p q a b c d : ℕ) (info : SocksInfo)
    → socks4_parser resolve (4 ∷ 1 ∷ p ∷ q ∷ a ∷ b ∷ c ∷ d ∷ []) info ≡ none
unfolding socks4_parser read_text
cut_short resolve p q a b c d info = refl

-- What the console asks of the SOCKS server is understood by the server as a CONNECT to the address
-- and port, if two NULs lie behind it in the server's buffer. The console itself sends none: of its
-- eight bytes alone the server reads past the end.
pub do_request-parsed :
    (resolve : Bytes → Bytes → Option Bytes) (port a b c d : ℕ) (info : SocksInfo)
    (address junk : Bytes)
    → a < 256
    → b < 256
    → c < 256
    → d < 256
    → resolve (dotted a b c d) (to_string port) ≡ some address
    → (request : Bytes) × (do_request port (dotted a b c d) ≡ some request)
      × (socks4_parser resolve (request ++ 0 ∷ 0 ∷ junk) info
          ≡ some (parsed info (connect port a b c d) address))
      × (socks4_parser resolve request info ≡ none)
unfolding do_request
do_request-parsed resolve port a b c d info address junk ha hb hc hd e =
    let request : Bytes = 4 ∷ 1 ∷ port / 256 ∷ port % 256 ∷ a ∷ b ∷ c ∷ d ∷ [] in
    (
      request,
      ground (arith, octets-dotted a b c d),
      socks4_parser-encode resolve (connect port a b c d) junk info address tt tt e,
      cut_short resolve (port / 256) (port % 256) a b c d info,
    )
