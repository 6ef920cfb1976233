-- ===== src/Web/Client.antt =====
-- project4/console.cpp, `npshell` from `start` on: the proxy is looked up and connected to, asked for the
-- shell, and then the shell is talked to. Each callback is an event; `none` is an event that nothing waits
-- for, or an exception that leaves `run`. `write` is taken to write all of its bytes.
pub mod Laws
use network_programming_demo.Prelude.{
  ℕ, List, [], ◌∷◌, ◌++◌, Option, none, some, ◌>>=◌, Bool, true, false, if◌then◌else◌, take,
}
use network_programming_demo.Text.Bytes.{Bytes, codes}
use network_programming_demo.Web.Console.{Session}
use network_programming_demo.Web.Proxy.{do_request, do_open_test_case}
use network_programming_demo.Web.Screen.{Screen, read_into}

-- What `server_info` says, with the lines of its file, and what `resolver_.resolve(query_)` gives: a port
-- and an address, or an exception.
pub record Setup : Type 0 where
  pub session_id : Bytes
  pub lines : List Bytes
  pub endpoint : Option (ℕ × Bytes)

-- What an `npshell` waits for.
pub data Phase : Type 0 where
  resolving connecting asking ended : Phase
  talking : Session → Phase

-- `request` is what the proxy was sent, `out` what was printed before the session.
pub record Client : Type 0 where
  pub phase : Phase
  pub data_ : Bytes
  pub request : Bytes
  pub out : Bytes

-- The callbacks: of `async_resolve`, of `async_connect` with the message of an error, of the read of the
-- reply, and of `do_read`.
pub data Event : Type 0 where
  resolved : Bool → Event
  connected : Option Bytes → Event
  replied : Option Bytes → Event
  shell : network_programming_demo.Web.Screen.Event → Event

abbrev pub opened : Option Session → Phase
opened none = ended
opened (some s) = talking s

-- The handler of a read from the shell.
unfoldable pub showing :
    Session → network_programming_demo.Web.Screen.Event → Client → Option Client
unfolding network_programming_demo.Web.Screen.step
showing s e c = do
  v ← network_programming_demo.Web.Screen.step e (record { data_ = c.data_; session = s })
  some (record c { phase = talking v.session; data_ = v.data_ })

unfoldable pub advance : Setup → Phase → Event → Client → Option Client
unfolding do_request do_open_test_case showing
advance u resolving (resolved true) c = some (record c { phase = connecting })
advance u resolving (resolved false) c = some (record c { phase = ended })
advance u connecting (connected none) c = do
  (port, ip) ← u.endpoint
  request ← do_request port ip
  some (record c { phase = asking; request = request })
advance u connecting (connected (some message)) c =
    some (record c { phase = ended; out = c.out ++ (codes "Error: " ++ (message ++ b'\n' ∷ [])) })
advance u asking (replied (some bytes)) c =
    let data_ = read_into (take 8 bytes) c.data_ in
    some (record c { phase = opened (do_open_test_case data_ u.session_id u.lines); data_ = data_ })
advance u asking (replied none) c = some (record c { phase = ended })
advance u (talking s) (shell e) c = if s.reading then showing s e c else none
advance u _ _ c = none

-- `start`, with what the array held before.
abbrev pub fresh : Bytes → Client
fresh data_ = record { phase = resolving; data_ = data_; request = []; out = [] }

unfoldable pub run : Setup → List Event → Client → Option Client
unfolding advance
run u [] c = some c
run u (e ∷ es) c = advance u c.phase e c >>= run u es
