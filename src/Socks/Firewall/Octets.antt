-- ===== src/Socks/Firewall/Octets.antt =====
-- `match_IP` against a direct description, and the rounds of its loop.
use network_programming_demo.Prelude.{
  ℕ, zero, suc, ◌+◌, ◌<◌, ◌≤◌, [], ◌∷◌, ◌++◌, Option, none, some, false, ◌&&◌, ◌==◌, if◌then◌else◌,
  length, ◌≡◌, refl, ◌⊎◌, inl, inr, arith, length-append, take-append,
}
use network_programming_demo.Text.Bytes.{Bytes}
use network_programming_demo.Text.Find.{find, Lacks, find-append, find-Lacks, drop_past}
use network_programming_demo.Socks.Request.{SocksInfo, is_empty}
use network_programming_demo.Socks.Firewall.{
  slicer, octet_matches, match_loop, match_rounds, match_ip, is_4,
}

pub slicer-append : (d : ℕ) (s t : Bytes) → Lacks d s → slicer (s ++ d ∷ t) d ≡ (s, t)
unfolding slicer
slicer-append d s t h =
    rw (find-append d s t h, slicer) (ground (arith, take-append s (d ∷ t), drop_past d s t))

pub slicer-Lacks : (d : ℕ) (s : Bytes) → Lacks d s → slicer s d ≡ (s, [])
unfolding slicer
slicer-Lacks d s h = rw (find-Lacks d s h, slicer)

-- Four parts joined by dots.
abbrev quad : Bytes → Bytes → Bytes → Bytes → Bytes
quad a b c d = a ++ b'.' ∷ (b ++ b'.' ∷ (c ++ b'.' ∷ d))

is_empty-append : (s t : Bytes) (c : ℕ) → is_empty (s ++ c ∷ t) ≡ false
is_empty-append [] t c = refl
is_empty-append (x ∷ s) t c = refl

-- A text that has its part and is followed by more.
abbrev IsPart : Bytes → Type 0
IsPart s = Lacks b'.' s × (is_empty s ≡ false)

match_loop_3 :
    (k : ℕ) (o1 o2 o3 o4 p1 p2 p3 p4 : Bytes)
    → IsPart o2
    → IsPart o3
    → IsPart o4
    → IsPart p2
    → IsPart p3
    → IsPart p4
    → is_4 (
        match_loop
          (suc (suc (suc k)))
          1
          o1
          p1
          (o2 ++ b'.' ∷ (o3 ++ b'.' ∷ o4))
          (p2 ++ b'.' ∷ (p3 ++ b'.' ∷ p4)))
      ≡ (octet_matches o1 p1 && octet_matches o2 p2 && octet_matches o3 p3)
unfolding match_loop
match_loop_3 k o1 o2 o3 o4 p1 p2 p3 p4 h2 h3 h4 g2 g3 g4 = ground (
  arith,
  slicer-append b'.' o2 (o3 ++ b'.' ∷ o4) h2.0,
  slicer-append b'.' o3 o4 h3.0,
  slicer-Lacks b'.' o4 h4.0,
  slicer-append b'.' p2 (p3 ++ b'.' ∷ p4) g2.0,
  slicer-append b'.' p3 p4 g3.0,
  slicer-Lacks b'.' p4 g4.0,
  is_empty-append o3 o4 b'.',
  is_empty-append p3 p4 b'.',
)

length-quad_tail :
    (p2 p3 p4 : Bytes)
    → length (p2 ++ b'.' ∷ (p3 ++ b'.' ∷ p4)) ≡ suc (suc (length p2 + (length p3 + length p4)))
length-quad_tail p2 p3 p4 =
    omega (arith, length-append p2 (b'.' ∷ (p3 ++ b'.' ∷ p4)), length-append p3 (b'.' ∷ p4))

-- A rule of four parts is met by an address of four parts exactly when the first three parts agree,
-- each by equality or by "*" in the rule. The fourth parts have no influence.
pub match_ip-quad :
    (info : SocksInfo) (o1 o2 o3 o4 p1 p2 p3 p4 : Bytes)
    → info.dst_ip ≡ quad o1 o2 o3 o4
    → Lacks b'.' o1
    → IsPart o2
    → IsPart o3
    → IsPart o4
    → Lacks b'.' p1
    → IsPart p2
    → IsPart p3
    → IsPart p4
    → match_ip info (quad p1 p2 p3 p4)
      ≡ (octet_matches o1 p1 && octet_matches o2 p2 && octet_matches o3 p3)
unfolding match_ip
match_ip-quad info o1 o2 o3 o4 p1 p2 p3 p4 e h1 h2 h3 h4 g1 g2 g3 g4 =
    rw (e, slicer-append b'.' o1 _ h1, slicer-append b'.' p1 _ g1, length-quad_tail p2 p3 p4)
      (match_loop_3 _ o1 o2 o3 o4 p1 p2 p3 p4 h2 h3 h4 g2 g3 g4)

abbrev pub count : ℕ → Bytes → ℕ
count d [] = 0
count d (c ∷ s) = (if c == d then 1 else 0) + count d s

slicer-count :
    (d : ℕ) (s : Bytes)
    → (count d (slicer s d).1 + 1 ≡ count d s) ⊎ (((slicer s d).1 ≡ []) × (count d s ≡ 0))
unfolding slicer find
slicer-count d [] = inr (refl, refl)
slicer-count d (c ∷ s) = ground (arith, slicer-count d s)

slicer_shrinks : (d : ℕ) (s : Bytes) → ((slicer s d).1 ≡ []) ⊎ (length (slicer s d).1 < length s)
unfolding slicer find
slicer_shrinks d [] = inl refl
slicer_shrinks d (c ∷ s) = ground (arith, slicer_shrinks d s)

match_ip_lem :
    (info : SocksInfo) (allow_ip : Bytes)
    → match_ip info allow_ip ≡ is_4 (match_rounds info allow_ip)
unfolding match_ip
match_ip_lem info allow_ip = refl

-- The loop ended, at a count within the bound.
abbrev EndsBy : ℕ → Option ℕ → Type 0
EndsBy n none = ⊥
EndsBy n (some r) = r ≤ n

match_loop-EndsBy :
    (fuel i : ℕ) (a b str allow : Bytes)
    → length allow < fuel
    → EndsBy (i + count b'.' allow + 1) (match_loop fuel i a b str allow)
unfolding match_loop
match_loop-EndsBy zero i a b str allow h = elim h [ ]
match_loop-EndsBy (suc fuel) i a b str allow h = ground (
  arith,
  slicer_shrinks b'.' allow,
  slicer-count b'.' allow,
  match_loop-EndsBy fuel (i + 1) (slicer str b'.').0 (slicer allow b'.').0 (slicer str b'.').1
      (slicer allow b'.').1,
)

match_rounds-tail :
    (info : SocksInfo) (allow_ip : Bytes)
    → EndsBy (count b'.' (slicer allow_ip b'.').1 + 2) (match_rounds info allow_ip)
unfolding match_rounds
match_rounds-tail info allow_ip = ground (
  arith,
  match_loop-EndsBy (suc (length (slicer allow_ip b'.').1)) 1 (slicer info.dst_ip b'.').0
      (slicer allow_ip b'.').0 (slicer info.dst_ip b'.').1 (slicer allow_ip b'.').1,
)

-- The loop of `match_IP` ends for every address and rule, with a count of rounds bounded by the dots
-- of the rule: the fuel suffices.
match_rounds-EndsBy :
    (info : SocksInfo) (allow_ip : Bytes)
    → EndsBy (count b'.' allow_ip + 2) (match_rounds info allow_ip)
match_rounds-EndsBy info allow_ip =
    ground (arith, match_rounds-tail info allow_ip, slicer-count b'.' allow_ip)

-- A rule with fewer than three dots, "*" among them, allows no address.
match_ip_short :
    (info : SocksInfo) (allow_ip : Bytes) → count b'.' allow_ip < 3 → match_ip info allow_ip ≡ false
match_ip_short info allow_ip h =
    let e = match_ip_lem info allow_ip in
    ground (arith, match_rounds-tail info allow_ip, slicer-count b'.' allow_ip)
