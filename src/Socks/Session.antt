-- ===== src/Socks/Session.antt =====
-- project4/socks_server.cpp, `session`: `do_read` with the request, `do_work` and `reply_info`.
pub mod Laws
use Prim.Native.String.{String}
use network_programming_demo.Prelude.{
  ℕ, ◌/◌, ◌%◌, ◌^◌, [], ◌∷◌, ◌++◌, Option, some, ◌>>=◌, Bool, true, false, ◌==◌, if◌then◌else◌,
}
use network_programming_demo.Text.Bytes.{Bytes, codes, equal}
use network_programming_demo.Text.Decimal.{stoi}
use network_programming_demo.Socks.Request.{SocksInfo, socks4_parser}
use network_programming_demo.Socks.Firewall.{firewall}

-- What the session starts once the reply is made.
pub data Action : Type 0 where
  -- hand the bytes to async_send, to close the socket when they are sent. They stand in an array of
  -- `do_work`'s own frame, which is gone when the send starts: what goes out is not said here.
  reject : Bytes → Action
  -- start a `socks_bridge` with address, port and the reply that it sends once it is connected
  bridge : Bytes → Bytes → Bytes → Action
  -- start a `socks_bind` with the reply
  bind : Bytes → Action
  -- nothing is sent: the socket goes with the session
  drop_socket : Action

abbrev labelled : String → Bytes → Bytes
labelled label value = codes label ++ (value ++ b'\n' ∷ [])

-- The lines of `reply_info`.
unfoldable pub reply_info : SocksInfo → Bool → Bytes
unfolding equal
reply_info info result =
    labelled "<S_IP>: " info.src_ip
    ++ labelled "<S_PORT>: " info.src_port
    ++ labelled "<D_IP>: " info.dst_ip
    ++ labelled "<D_PORT>: " info.dst_port
    ++ labelled "<Command>: " (if equal info.cd (codes "2") then codes "BIND" else codes "CONNECT")
    ++ labelled "<Reply>: " (if result then codes "Accept" else codes "Reject")
    ++ codes "\n"

-- `socksrpy` for a status and a port of type u_short.
unfoldable socks_reply : ℕ → ℕ → ℕ → Bytes
socks_reply vn status port = vn ∷ status ∷ port / 256 ∷ port % 256 ∷ 0 ∷ 0 ∷ 0 ∷ 0 ∷ []

abbrev cd_head : Bytes → ℕ
cd_head [] = 0
cd_head (c ∷ _) = c

-- The text that goes to the log, and the action; `none` is the exception of `stoi`.
unfoldable pub do_work : SocksInfo → Bytes → Option (Bytes × Action)
unfolding socks_reply
do_work info socks_conf = do
  number ← stoi info.dst_port
  let port = number % 2 ^ 16
  some (
      if firewall info socks_conf
      then (
        reply_info info true,
        (if cd_head info.cd == b'1'
            then bridge info.dst_ip info.dst_port (socks_reply 0 90 port)
            else if cd_head info.cd == b'2'
            then bind (socks_reply 0 90 port)
            else drop_socket),
      )
      else (reply_info info false, reject (socks_reply 4 91 port)))

-- The handler of the session's one read.
module _ (resolve : Bytes → Bytes → Option Bytes) where
  unfoldable pub serve : Bytes → SocksInfo → Bytes → Option (Bytes × Action)
  serve buffer info socks_conf = do
    parsed ← socks4_parser resolve buffer info
    do_work parsed socks_conf
