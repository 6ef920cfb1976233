-- ===== src/Tests/Web.antt =====
-- project3 and the console of project4 on concrete requests, queries and shells.
use network_programming_demo.Prelude.{
  ℕ, List, [], ◌∷◌, ◌++◌, map, Option, none, some, true, ◌≡◌, refl, arith, get_elem?, take,
  replicate,
}
use network_programming_demo.Text.Bytes.{Bytes, codes}
use network_programming_demo.Text.Decimal.{stoi}
use network_programming_demo.Socks.Firewall.{slicer}
use network_programming_demo.Socks.Request.{SocksInfo, socks4_parser, dotted}
use network_programming_demo.Socks.Session.Laws.{parsed}
use network_programming_demo.Web.Request.{parser, Endpoints, serve, set_environment, status_line}
use network_programming_demo.Web.Request.Laws.{
  Parts, IsParts, message, read, parser-message, serve-message,
}
use network_programming_demo.Web.Console.{Session, start}
use network_programming_demo.Web.Console
use network_programming_demo.Web.Console.Transcript.{read_all, screen, typed, read_all-typed}
use network_programming_demo.Web.Proxy.{do_request, connect, do_request-parsed}
use network_programming_demo.Web.Screen.{block, answered, read_into}
use network_programming_demo.Web.Client.{
  Setup, Client, Event, resolved, connected, replied, shell, talking, ended, fresh, run,
}
use network_programming_demo.Web.Client.Laws.{run-typed}

-- "GET /show.cgi?h0=nplinux1 HTTP/1.1", for the host "localhost-2:7000"
abbrev get : Parts
get = record {
  method = codes "GET";
  path = codes "show.cgi";
  query = some (codes "h0=nplinux1");
  protocol = codes "HTTP/1.1";
  host = codes "localhost";
  stop = b'-';
  more = codes "2:7000\r\n\r\n";
}

get-IsParts : IsParts get
get-IsParts = record {
  line = ground arith;
  method = ground arith;
  target = ground arith;
  path = ground arith;
  host = ground arith;
  stop = λ e. ground arith;
  no_blank = omega arith;
}

parser-message_example : parser (message get) ≡ some (read get)
parser-message_example = parser-message get get-IsParts

abbrev ends : Endpoints
ends = record {
  remote_addr = codes "10.0.0.1";
  remote_port = codes "1001";
  server_addr = codes "10.0.0.2";
  server_port = codes "7000";
}

serve-message_example :
    serve (message get) ends
    ≡ some (set_environment (read get) ends, (status_line, codes "./" ++ codes "show.cgi"))
serve-message_example =
    serve-message get ends get-IsParts (ground arith) (ground arith) (ground arith)

abbrev blocks : List Bytes
blocks = codes "welcome\n% " ∷ codes "a.txt " ∷ codes "b.txt\n% " ∷ []

read_all-typed_example :
    read_all blocks (start (codes "s0") (codes "ls" ∷ codes "exit" ∷ []))
    ≡ some (record (start (codes "s0") (codes "ls" ∷ codes "exit" ∷ [])) {
      cmd_str = [];
      reading = true;
      out = screen (codes "s0") blocks (codes "ls" ∷ codes "exit" ∷ []);
      sent = codes "ls\nexit\n";
    })
unfolding start Console.has_prompt
read_all-typed_example =
    read_all-typed blocks (start (codes "s0") (codes "ls" ∷ codes "exit" ∷ [])) refl

abbrev nobody : SocksInfo
nobody = record {
  src_ip = [];
  src_port = [];
  cd = [];
  dst_port = [];
  dst_ip = [];
  user_id = [];
  domain_name = [];
}

-- A resolver that leaves addresses as they are.
abbrev numeric : Bytes → Bytes → Option Bytes
numeric host port = some host

do_request-parsed_example :
    (request : Bytes) × (do_request 8080 (dotted 140 113 1 6) ≡ some request)
    × (socks4_parser numeric (request ++ 0 ∷ 0 ∷ codes "x") nobody
        ≡ some (parsed nobody (connect 8080 140 113 1 6) (dotted 140 113 1 6)))
    × (socks4_parser numeric request nobody ≡ none)
do_request-parsed_example =
    do_request-parsed numeric 8080 140 113 1 6 nobody (dotted 140 113 1 6) (codes "x") (omega arith)
      (omega arith) (omega arith) (omega arith) refl

one_server :
    Console.servers (codes "h0=nplinux1&p0=1234&f0=t1.txt&h1=&p1=&f1=")
    ≡ record {
      id = codes "s0";
      host = codes "nplinux1";
      port = codes "1234";
      file = codes "t1.txt";
    }
      ∷ []
unfolding Console.servers
one_server = refl

-- A console for one shell, whose array holds NULs.
abbrev one_shell : Setup
one_shell = record {
  session_id = codes "s0";
  lines = codes "ls" ∷ [];
  endpoint = some (1234, codes "10.0.0.1");
}

abbrev array : Bytes
array = replicate 12 0

abbrev request : Bytes
request = 4 ∷ 1 ∷ 4 ∷ 210 ∷ 10 ∷ 0 ∷ 0 ∷ 1 ∷ []

abbrev grant : Bytes
grant = 0 ∷ 90 ∷ replicate 6 0

abbrev exchange : List Event
exchange = resolved true ∷ connected none ∷ replied (some grant) ∷ shell (block (codes "% ")) ∷ []

abbrev after_prompt : Session
after_prompt = record (answered (codes "% ") (start (codes "s0") (codes "ls" ∷ []))) {
  reading = true;
}

abbrev talks : Client
talks = record {
  phase = talking after_prompt;
  data_ = read_into (codes "% ") (read_into grant array);
  request = request;
  out = [];
}

-- The proxy refuses.
refuses :
    run one_shell
      (resolved true ∷ connected none ∷ replied (some (0 ∷ 91 ∷ replicate 6 0)) ∷ [])
      (fresh array)
    ≡ some (record (fresh array) {
      phase = ended;
      data_ = read_into (0 ∷ 91 ∷ replicate 6 0) array;
      request = request;
    })
unfolding run stoi slicer
refuses = refl

-- A shell does not write before the reply.
early : run one_shell (resolved true ∷ shell (block (codes "% ")) ∷ []) (fresh array) ≡ none
unfolding run
early = refl

exchange_runs : run one_shell exchange (fresh array) ≡ some talks
unfolding run start Console.has_prompt stoi slicer
exchange_runs = refl

run-typed_example :
    (bytes : Bytes) × (rest : List network_programming_demo.Web.Screen.Event) × (n : ℕ) × (exchange
      ≡ resolved true ∷ connected none ∷ replied (some bytes) ∷ map shell rest)
    × (get_elem? (read_into (take 8 bytes) array) 1 ≡ some 90)
    × (after_prompt.sent ≡ typed n (codes "ls" ∷ []))
run-typed_example = run-typed one_shell exchange array talks after_prompt exchange_runs refl
