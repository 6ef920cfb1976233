-- ===== src/Socks/Session/Laws.antt =====
-- The session from the request's bytes to the reply and the relay that is started.
use network_programming_demo.Prelude.{
  ℕ, ◌+◌, ◌*◌, ◌/◌, ◌%◌, ◌^◌, ◌<◌, [], ◌∷◌, ◌++◌, Option, some, Bool, true, false, ◌==◌,
  if◌then◌else◌, ◌≡◌, refl, ◌⊎◌, inl, inr, arith, Bool-cases,
}
use network_programming_demo.Text.Bytes.{Bytes, codes}
use network_programming_demo.Text.Find.{Lacks}
use network_programming_demo.Text.Decimal.{to_string, stoi-to_string, to_string_injective}
use network_programming_demo.Socks.Request.{SocksInfo, read_text, dotted, is_empty, socks4_parser}
use network_programming_demo.Socks.Firewall.{firewall}
use network_programming_demo.Socks.Firewall.Rules.{firewall-cd}
use network_programming_demo.Socks.Session.{
  Action, reject, bridge, bind, reply_info, cd_head, do_work, serve,
}

read_text-append : (s rest : Bytes) → Lacks 0 s → read_text (s ++ 0 ∷ rest) ≡ some (s, rest)
unfolding read_text
read_text-append [] rest h = refl
read_text-append (c ∷ s) rest h = ground (arith, read_text-append s rest h.1)

-- The fields of a SOCKS4 or SOCKS4A request.
pub record Request : Type 0 where
  pub vn : ℕ
  pub command : ℕ
  pub port : ℕ
  pub a : ℕ
  pub b : ℕ
  pub c : ℕ
  pub d : ℕ
  pub user : Bytes
  pub domain : Bytes

-- The request as RFC-style bytes, with what the buffer holds behind it.
abbrev pub encode : Request → Bytes → Bytes
encode r junk =
    r.vn
    ∷ r.command
    ∷ r.port / 256
    ∷ r.port % 256
    ∷ r.a
    ∷ r.b
    ∷ r.c
    ∷ r.d
    ∷ (r.user ++ 0 ∷ (r.domain ++ 0 ∷ junk))

abbrev pub host : Request → Bytes
host r = if is_empty r.domain then dotted r.a r.b r.c r.d else r.domain

abbrev pub parsed : SocksInfo → Request → Bytes → SocksInfo
parsed info r address = record info {
  cd = to_string r.command;
  dst_port = to_string r.port;
  dst_ip = address;
  user_id = r.user;
  domain_name = r.domain;
}

port_bytes : (p : ℕ) → p / 256 * 256 + p % 256 ≡ p
port_bytes p = omega arith

-- The two commands that pass the firewall, as numbers.
command_cases : (n : ℕ) → (to_string n ≡ codes "1") ⊎ (to_string n ≡ codes "2") → (n ≡ 1) ⊎ (n ≡ 2)
unfolding to_string
command_cases n (inl e) = inl (to_string_injective n 1 e)
command_cases n (inr e) = inr (to_string_injective n 2 e)

cd_head_one : cd_head (to_string 1) ≡ b'1'
unfolding to_string
cd_head_one = refl

cd_head_two : cd_head (to_string 2) ≡ b'2'
unfolding to_string
cd_head_two = refl

-- The answer to a request with this command, port and address, by the firewall's word.
abbrev pub answer : SocksInfo → ℕ → ℕ → Bool → Bytes × Action
answer info command port allowed =
    if allowed
    then (
      reply_info info true,
      (if command == 1
          then bridge info.dst_ip info.dst_port
              (0 ∷ 90 ∷ port / 256 ∷ port % 256 ∷ 0 ∷ 0 ∷ 0 ∷ 0 ∷ [])
          else bind (0 ∷ 90 ∷ port / 256 ∷ port % 256 ∷ 0 ∷ 0 ∷ 0 ∷ 0 ∷ [])),
    )
    else (reply_info info false, reject (4 ∷ 91 ∷ port / 256 ∷ port % 256 ∷ 0 ∷ 0 ∷ 0 ∷ 0 ∷ []))

do_work-answer :
    (info : SocksInfo) (command port : ℕ) (socks_conf : Bytes)
    → info.cd ≡ to_string command
    → info.dst_port ≡ to_string port
    → port < 2 ^ 16
    → do_work info socks_conf ≡ some (answer info command port (firewall info socks_conf))
unfolding do_work
do_work-answer info command port socks_conf c e h = elim (Bool-cases (firewall info socks_conf)) [
  | inr denied ↦ ground (arith, stoi-to_string port)
  | inl allowed ↦
      let known = firewall-cd info socks_conf allowed in
      ground (
        arith,
        stoi-to_string port,
        command_cases command (rw c at known),
        cd_head_one,
        cd_head_two,
      )
]

module _ (resolve : Bytes → Bytes → Option Bytes) where
  -- The parser reads back every field of an encoded request, whatever stands behind it in the
  -- buffer, and takes the address from the resolver: asked for the domain name where there is one,
  -- for the four numbers otherwise.
  pub socks4_parser-encode :
      (r : Request) (junk : Bytes) (info : SocksInfo) (address : Bytes)
      → Lacks 0 r.user
      → Lacks 0 r.domain
      → resolve (host r) (to_string r.port) ≡ some address
      → socks4_parser resolve (encode r junk) info ≡ some (parsed info r address)
  unfolding socks4_parser
  socks4_parser-encode r junk info address hu hd e = ground (
    arith,
    port_bytes r.port,
    read_text-append r.user (r.domain ++ 0 ∷ junk) hu,
    read_text-append r.domain junk hd,
  )

  -- A well-formed request whose address resolves makes the session start one of three things, by the
  -- firewall's word and the command, and write the matching log text. Where the firewall does not allow
  -- it, a reply of 4 and 91 is handed to async_send, with the socket to be closed behind it. Where it
  -- does, command 1 starts a bridge to the address and command 2 a bind, each of which is given a reply of
  -- 0 and 90 to send when it comes to that. The port in the reply is the request's.
  pub serve-encode :
      (r : Request) (junk : Bytes) (info : SocksInfo) (address socks_conf : Bytes)
      → Lacks 0 r.user
      → Lacks 0 r.domain
      → r.port < 2 ^ 16
      → resolve (host r) (to_string r.port) ≡ some address
      → let p = parsed info r address in
        serve resolve (encode r junk) info socks_conf
        ≡ some (answer p r.command r.port (firewall p socks_conf))
  unfolding serve
  serve-encode r junk info address socks_conf hu hd hp e =
      rw (socks4_parser-encode r junk info address hu hd e)
        (do_work-answer (parsed info r address) r.command r.port socks_conf refl refl hp)
