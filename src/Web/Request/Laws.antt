-- ===== src/Web/Request/Laws.antt =====
-- `parser` on requests as a browser sends them.
use network_programming_demo.Prelude.{
  ℕ, suc, ◌+◌, [], ◌∷◌, ◌++◌, Option, none, some, true, false, length, drop, ◌≡◌, refl, ◌≢◌, arith,
  ap, ◌∙◌, All, ◌≤◌, ◌⊎◌, ◌↔◌, append-nil, length-append, take-append, drop-append,
}
use network_programming_demo.Text.Bytes.{Bytes, codes, equal_iff}
use network_programming_demo.Text.Find.{Lacks}
use network_programming_demo.Web.Request.{
  is_prefix, find_text, substr_from, slicer, skip_blanks, is_host, host_front, http_host, Request,
  parser, Endpoints, set_environment, status_line, command, serve,
}

is_prefix-append : (del t : Bytes) → is_prefix del (del ++ t) ≡ true
unfolding is_prefix
is_prefix-append [] t = refl
is_prefix-append (d ∷ del) t = ground (arith, is_prefix-append del t)

find_text-append :
    (d : ℕ) (del s t : Bytes)
    → Lacks d s
    → find_text (d ∷ del) (s ++ (d ∷ del ++ t)) ≡ some (length s)
unfolding find_text is_prefix
find_text-append d del [] t h = ground (arith, is_prefix-append (d ∷ del) t)
find_text-append d del (c ∷ s) t h = ground (arith, find_text-append d del s t h.1)

find_text-Lacks : (d : ℕ) (del s : Bytes) → Lacks d s → find_text (d ∷ del) s ≡ none
unfolding find_text is_prefix
find_text-Lacks d del [] h = refl
find_text-Lacks d del (c ∷ s) h = ground (arith, find_text-Lacks d del s h.1)

drop_both : (s del t : Bytes) → drop (length s + length del) (s ++ (del ++ t)) ≡ t
drop_both [] del t = ground (arith, drop-append del t)
drop_both (c ∷ s) del t =
    let e : suc (length s) + length del ≡ suc (length s + length del) = omega arith in
    ap (λ n. drop n (c ∷ (s ++ (del ++ t)))) e ∙ drop_both s del t

substr_both : (s del t : Bytes) → substr_from (length s + length del) (s ++ (del ++ t)) ≡ some t
substr_both s del t =
    ground (arith, drop_both s del t, length-append s (del ++ t), length-append del t)

slicer-append :
    (d : ℕ) (del s t : Bytes) → Lacks d s → slicer (s ++ (d ∷ del ++ t)) (d ∷ del) ≡ some (s, t)
unfolding slicer
slicer-append d del s t h =
    ground
      (arith, find_text-append d del s t h, substr_both s (d ∷ del) t, take-append s (d ∷ del ++ t))

-- Without the delimiter the part and what is left are both the whole text.
slicer-Lacks : (d : ℕ) (s : Bytes) → Lacks d s → slicer s (d ∷ []) ≡ some (s, s)
unfolding slicer
slicer-Lacks d s h = ground (arith, find_text-Lacks d [] s h)

-- The bytes of a host name with a port: a digit, a letter, "." or ":".
abbrev pub IsHostByte : ℕ → Type 0
IsHostByte c =
    ((b'0' ≤ c) × (c ≤ b'9'))
    ⊎ ((b'A' ≤ c) × (c ≤ b'Z'))
    ⊎ ((b'a' ≤ c) × (c ≤ b'z'))
    ⊎ (c ≡ b'.')
    ⊎ (c ≡ b':')

is_host-IsHostByte : (c : ℕ) → (is_host c ≡ true) ↔ IsHostByte c
is_host-IsHostByte c = ground arith

stops : (c : ℕ) → (IsHostByte c → ⊥) → is_host c ≡ false
stops c h = ground (arith, is_host-IsHostByte c)

hosts : (h : Bytes) → All IsHostByte h → All (λ b. is_host b ≡ true) h
hosts [] a = tt
hosts (c ∷ h) a = ((is_host-IsHostByte c).1 a.0, hosts h a.1)

host_front-append :
    (h : Bytes) (c : ℕ) (t : Bytes)
    → All (λ b. is_host b ≡ true) h
    → is_host c ≡ false
    → host_front (h ++ c ∷ t) ≡ h
unfolding host_front
host_front-append [] c t a e = ground arith
host_front-append (b ∷ h) c t a e = ground (arith, host_front-append h c t a.1 e)

skip_blanks-host :
    (h : Bytes) (d : ℕ) (t : Bytes)
    → All (λ b. is_host b ≡ true) h
    → d ≢ b' '
    → skip_blanks (b' ' ∷ h ++ d ∷ t) ≡ h ++ d ∷ t
unfolding skip_blanks
skip_blanks-host [] d t a n = ground arith
skip_blanks-host (b ∷ h) d t a n = ground (arith, a.0)

abbrev pub query_part : Option Bytes → Bytes
query_part none = []
query_part (some query) = b'?' ∷ query

-- What `parser` takes for the query: the path itself where there is none.
abbrev query_read : Bytes → Option Bytes → Bytes
query_read path none = path
query_read path (some query) = query

-- "METHOD /path?query PROTOCOL", and "Host: " as the first header, with a host, a byte behind it, which is
-- "\r" if nothing else follows, and what is behind that.
pub record Parts : Type 0 where
  pub method : Bytes
  pub path : Bytes
  pub query : Option Bytes
  pub protocol : Bytes
  pub host : Bytes
  pub stop : ℕ
  pub more : Bytes

abbrev pub target : Parts → Bytes
target p = p.path ++ query_part p.query

abbrev pub request_line : Parts → Bytes
request_line p = p.method ++ (b' ' ∷ ((b'/' ∷ target p) ++ (b' ' ∷ p.protocol)))

abbrev pub message : Parts → Bytes
message p =
    request_line p ++ (b'\r' ∷ b'\n' ∷ (codes "Host:" ++ (b' ' ∷ (p.host ++ p.stop ∷ p.more))))

pub record IsParts (p : Parts) : Type 0 where
  pub line : Lacks b'\r' (request_line p)
  pub method : Lacks b' ' p.method
  pub target : Lacks b' ' (target p)
  pub path : Lacks b'?' p.path
  pub host : All IsHostByte p.host
  pub stop : IsHostByte p.stop → ⊥
  pub no_blank : p.stop ≢ b' '

abbrev pub read : Parts → Request
read p = record {
  request_method = p.method;
  request_uri = target p;
  query_string = query_read p.path p.query;
  server_protocol = p.protocol;
  http_host = p.host;
  source = p.path;
}

slicer-target :
    (path : Bytes) (query : Option Bytes)
    → Lacks b'?' path
    → slicer (path ++ query_part query) (b'?' ∷ []) ≡ some (path, query_read path query)
slicer-target path none h = rw append-nil (slicer-Lacks b'?' path h)
slicer-target path (some q) h = slicer-append b'?' [] path q h

http_host-message :
    (p : Parts)
    → IsParts p
    → http_host (codes "Host:" ++ (b' ' ∷ (p.host ++ p.stop ∷ p.more))) ≡ some p.host
unfolding http_host
http_host-message p v = ground (
  arith,
  find_text-append b'H' (codes "ost:") [] (b' ' ∷ (p.host ++ p.stop ∷ p.more)) tt,
  substr_both [] (codes "Host:") (b' ' ∷ (p.host ++ p.stop ∷ p.more)),
  skip_blanks-host p.host p.stop p.more (hosts p.host v.host) v.no_blank,
  host_front-append p.host p.stop p.more (hosts p.host v.host) (stops p.stop v.stop),
)

-- The parser gives the parts of a request with "Host:" as its first header back, with two exceptions: a
-- request without "?" gets its path as its query, and of the host only the part up to the first byte is
-- given back that is no letter, no digit, no "." and no ":".
pub parser-message : (p : Parts) → IsParts p → parser (message p) ≡ some (read p)
unfolding parser
parser-message p v = rw (
  slicer-append b'\r' (b'\n' ∷ []) (request_line p)
      (codes "Host:" ++ (b' ' ∷ (p.host ++ p.stop ∷ p.more))) v.line,
  slicer-append b' ' [] p.method ((b'/' ∷ target p) ++ (b' ' ∷ p.protocol)) v.method,
  slicer-append b' ' [] (b'/' ∷ target p) p.protocol (omega arith, v.target),
  slicer-target p.path p.query v.path,
  http_host-message p v,
)

-- Such a request, if its path is no CGI program of the server's own, makes the server hand "./" and
-- the path to the shell as they stand, after it has set the environment to the parts of the request
-- and the addresses and has handed the status line to async_send. The shell reads whatever the path
-- holds.
pub serve-message :
    (p : Parts) (e : Endpoints)
    → IsParts p
    → p.path ≢ codes "panel.cgi"
    → p.path ≢ codes "printenv.cgi"
    → p.path ≢ codes "console.cgi"
    → serve (message p) e ≡ some (set_environment (read p) e, (status_line, codes "./" ++ p.path))
unfolding serve command
serve-message p e v a b c = rw (parser-message p v) (
    ground (
      arith,
      equal_iff p.path (codes "panel.cgi"),
      equal_iff p.path (codes "printenv.cgi"),
      equal_iff p.path (codes "console.cgi"),
    ))
