-- ===== src/Socks/Firewall.antt =====
-- project4/socks_server.cpp, `session`: `slicer`, `match_IP` and `firewall` over socks.conf.
pub mod Octets
pub mod Rules
use network_programming_demo.Prelude.{
  ℕ, zero, suc, ◌+◌, List, [], ◌∷◌, Option, none, some, Bool, false, ◌&&◌, ◌||◌, ◌==◌,
  if◌then◌else◌, take, drop, length,
}
use network_programming_demo.Text.Bytes.{Bytes, codes, equal}
use network_programming_demo.Text.Find.{find}
use network_programming_demo.Text.Lines.{lines}
use network_programming_demo.Socks.Request.{SocksInfo, is_empty}

-- The part before the delimiter, and what is left of `_str`. Every call's `del` is one byte, so
-- `substr(pos + 1)` starts within the text; without the delimiter `_str` becomes empty.
unfoldable pub slicer : Bytes → ℕ → Bytes × Bytes
unfolding find
slicer s del = elim (find del s) [ none ↦ (s, []) | some pos ↦ (take pos s, drop (pos + 1) s) ]

unfoldable pub octet_matches : Bytes → Bytes → Bool
unfolding equal
octet_matches cmp_a cmp_b = equal cmp_a cmp_b || equal cmp_b (codes "*")

-- The loop of `match_IP` from `i`; the last two arguments are `_str` and `allow_IP`. `none` says that
-- the fuel ran out.
unfoldable pub match_loop : ℕ → ℕ → Bytes → Bytes → Bytes → Bytes → Option ℕ
unfolding octet_matches slicer
match_loop zero i cmp_a cmp_b str allow = none
match_loop (suc fuel) i cmp_a cmp_b str allow =
    let (a, str') = slicer str b'.' in
    let (b, allow') = slicer allow b'.' in
    let again = match_loop fuel (i + 1) a b str' allow' in
    if octet_matches cmp_a cmp_b
    then (if is_empty str' || is_empty allow' then some (i + 1) else again)
    else some i

abbrev pub is_4 : Option ℕ → Bool
is_4 none = false
is_4 (some i) = i == 4

unfoldable pub match_rounds : SocksInfo → Bytes → Option ℕ
unfolding match_loop slicer
match_rounds info allow_ip =
    let (a, str) = slicer info.dst_ip b'.' in
    let (b, allow) = slicer allow_ip b'.' in match_loop (suc (length allow)) 1 a b str allow

unfoldable pub match_ip : SocksInfo → Bytes → Bool
unfolding match_rounds
match_ip info allow_ip = is_4 (match_rounds info allow_ip)

unfoldable pub method_allows : Bytes → Bytes → Bool
unfolding equal
method_allows allow_method cd =
    equal allow_method (codes "c") && equal cd (codes "1")
    || equal allow_method (codes "b") && equal cd (codes "2")

-- The test of one line of socks.conf.
unfoldable pub line_allows : SocksInfo → Bytes → Bool
line_allows info config =
    let (_, config1) = slicer config b' ' in
    let (allow_method, config2) = slicer config1 b' ' in
    let (allow_ip, _) = slicer config2 b' ' in
    method_allows allow_method info.cd && match_ip info allow_ip

any_line_allows : SocksInfo → List Bytes → Bool
any_line_allows info [] = false
any_line_allows info (config ∷ rest) = line_allows info config || any_line_allows info rest

-- The argument is what socks.conf holds; a file that cannot be opened holds nothing.
unfoldable pub firewall : SocksInfo → Bytes → Bool
unfolding any_line_allows lines line_allows slicer method_allows match_ip
firewall info socks_conf = any_line_allows info (lines socks_conf)
