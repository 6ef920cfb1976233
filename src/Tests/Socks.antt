-- ===== src/Tests/Socks.antt =====
-- project4/socks_server.cpp at concrete requests, configurations and events.
use network_programming_demo.Prelude.{
  List, [], ◌∷◌, Option, some, true, false, map, ◌≡◌, refl, ◌↔◌, arith, ◌&&◌,
}
use network_programming_demo.Text.Bytes.{Bytes, codes}
use network_programming_demo.Text.Lines.{unlines}
use network_programming_demo.Socks.Request.{SocksInfo}
use network_programming_demo.Socks.Firewall.{match_ip, firewall, octet_matches}
use network_programming_demo.Socks.Firewall.Octets.{match_ip-quad}
use network_programming_demo.Socks.Firewall.Rules.{Rule, rule_line, SomeGrants, firewall-SomeGrants}
use network_programming_demo.Socks.Session.{serve}
use network_programming_demo.Socks.Session.Laws.{Request, encode, parsed, answer, serve-encode}

abbrev info : Bytes → SocksInfo
info ip = record {
  src_ip = [];
  src_port = [];
  cd = codes "1";
  dst_port = codes "80";
  dst_ip = ip;
  user_id = [];
  domain_name = [];
}

firewall_unit : Unit {0}
unfolding firewall match_ip
firewall_unit = tt

last_octet : match_ip (info (codes "140.113.1.6")) (codes "140.113.1.5") ≡ true
unfolding firewall_unit
last_octet = refl

third_octet : match_ip (info (codes "140.113.1.6")) (codes "140.113.2.*") ≡ false
unfolding firewall_unit
third_octet = refl

star_alone : match_ip (info (codes "140.113.1.6")) (codes "*") ≡ false
unfolding firewall_unit
star_alone = refl

abbrev conf : Bytes
conf = codes "permit b *.*.*.*\npermit c 140.113.*.*\n"

conf_allows :
    (firewall (info (codes "140.113.1.6")) conf ≡ true)
    × (firewall (info (codes "140.114.1.6")) conf ≡ false)
unfolding firewall_unit
conf_allows = (refl, refl)

match_ip-quad_example : match_ip (info (codes "140.113.1.6")) (codes "140.*.1.5") ≡ (
    octet_matches (codes "140") (codes "140")
    && octet_matches (codes "113") (codes "*")
    && octet_matches (codes "1") (codes "1"))
match_ip-quad_example =
    match_ip-quad (info (codes "140.113.1.6")) (codes "140") (codes "113") (codes "1") (codes "6")
      (codes "140") (codes "*") (codes "1") (codes "5") refl (omega arith) (omega arith, refl)
      (omega arith, refl) (omega arith, refl) (omega arith) (omega arith, refl) (omega arith, refl)
      (omega arith, refl)

abbrev rules : List Rule
rules =
    record { word = codes "permit"; method = codes "b"; ip = codes "*.*.*.*" }
    ∷ record { word = codes "permit"; method = codes "c"; ip = codes "140.113.*.*" }
    ∷ []

firewall-SomeGrants_example :
    (firewall (info (codes "140.113.1.6")) (unlines (map rule_line rules)) ≡ true)
    ↔ SomeGrants (info (codes "140.113.1.6")) rules
firewall-SomeGrants_example = firewall-SomeGrants (info (codes "140.113.1.6")) rules (omega arith)

-- A resolver that knows numeric hosts only, and one domain.
abbrev resolver : Bytes → Bytes → Option Bytes
resolver host port = some (codes "140.113.1.6")

abbrev request : Request
request = record {
  vn = 4;
  command = 1;
  port = 8080;
  a = 140;
  b = 113;
  c = 1;
  d = 6;
  user = codes "me";
  domain = [];
}

serve-encode_example :
    serve resolver (encode request []) (info []) conf
    ≡ some (
        answer
          (parsed (info []) request (codes "140.113.1.6"))
          1
          8080
          (firewall (parsed (info []) request (codes "140.113.1.6")) conf))
serve-encode_example =
    serve-encode resolver request [] (info []) (codes "140.113.1.6") conf (omega arith) tt
      (omega arith) refl
