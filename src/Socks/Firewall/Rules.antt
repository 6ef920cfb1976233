-- ===== src/Socks/Firewall/Rules.antt =====
-- `firewall` over a configuration of rules, one to a line.
use network_programming_demo.Prelude.{
  List, [], ◌∷◌, ◌++◌, true, ◌&&◌, map, ◌≡◌, refl, ◌≢◌, ◌⊎◌, ◌↔◌, arith, All, All-append,
}
use network_programming_demo.Text.Bytes.{Bytes, codes, equal_iff}
use network_programming_demo.Text.Find.{Lacks}
use network_programming_demo.Text.Lines.{lines, unlines, lines-unlines}
use network_programming_demo.Socks.Request.{SocksInfo}
use network_programming_demo.Socks.Firewall.{
  slicer, match_ip, method_allows, line_allows, any_line_allows, firewall,
}
use network_programming_demo.Socks.Firewall.Octets.{slicer-append, slicer-Lacks}

-- A line "permit c 140.113.*.*".
pub record Rule : Type 0 where
  pub word : Bytes
  pub method : Bytes
  pub ip : Bytes

abbrev pub rule_line : Rule → Bytes
rule_line r = r.word ++ b' ' ∷ (r.method ++ b' ' ∷ r.ip)

abbrev IsField : Bytes → Type 0
IsField s = Lacks b' ' s × Lacks b'\n' s

abbrev pub IsRule : Rule → Type 0
IsRule r = IsField r.word × IsField r.method × IsField r.ip

-- The rule is for the request's command, and its pattern meets the address.
abbrev Grants : SocksInfo → Rule → Type 0
Grants info r =
    (((r.method ≡ codes "c") × (info.cd ≡ codes "1"))
      ⊎ ((r.method ≡ codes "b") × (info.cd ≡ codes "2")))
    × (match_ip info r.ip ≡ true)

abbrev pub SomeGrants : SocksInfo → List Rule → Type 0
SomeGrants info [] = ⊥
SomeGrants info (r ∷ rs) = Grants info r ⊎ SomeGrants info rs

method_allows_iff :
    (m cd : Bytes)
    → (method_allows m cd ≡ true)
      ↔ (((m ≡ codes "c") × (cd ≡ codes "1")) ⊎ ((m ≡ codes "b") × (cd ≡ codes "2")))
unfolding method_allows
method_allows_iff m cd = ground (
  arith,
  equal_iff m (codes "c"),
  equal_iff m (codes "b"),
  equal_iff cd (codes "1"),
  equal_iff cd (codes "2"),
)

line_allows-rule_line :
    (info : SocksInfo) (r : Rule)
    → IsRule r
    → line_allows info (rule_line r) ≡ (method_allows r.method info.cd && match_ip info r.ip)
unfolding line_allows
line_allows-rule_line info r ((w, _), (m, _), (i, _)) = rw (
  slicer-append b' ' r.word (r.method ++ b' ' ∷ r.ip) w,
  slicer-append b' ' r.method r.ip m,
  slicer-Lacks b' ' r.ip i,
)

line_allows_rule :
    (info : SocksInfo) (r : Rule)
    → IsRule r
    → (line_allows info (rule_line r) ≡ true) ↔ Grants info r
line_allows_rule info r h =
    ground (arith, line_allows-rule_line info r h, method_allows_iff r.method info.cd)

rule_line-Lacks : (r : Rule) → IsRule r → Lacks b'\n' (rule_line r)
rule_line-Lacks r (w, m, i) =
    All-append (λ c. c ≢ b'\n') r.word _ w.1
      (ground arith, All-append (λ c. c ≢ b'\n') r.method _ m.1 (ground arith, i.1))

rule_lines-Lacks : (rs : List Rule) → All IsRule rs → All (Lacks b'\n') (map rule_line rs)
rule_lines-Lacks [] h = tt
rule_lines-Lacks (r ∷ rs) h = (rule_line-Lacks r h.0, rule_lines-Lacks rs h.1)

firewall_lem :
    (info : SocksInfo) (socks_conf : Bytes)
    → firewall info socks_conf ≡ any_line_allows info (lines socks_conf)
unfolding firewall
firewall_lem info socks_conf = refl

any_line_allows_rules :
    (info : SocksInfo) (rs : List Rule)
    → All IsRule rs
    → (any_line_allows info (map rule_line rs) ≡ true) ↔ SomeGrants info rs
unfolding any_line_allows
any_line_allows_rules info [] h = ground arith
any_line_allows_rules info (r ∷ rs) h =
    ground (arith, line_allows_rule info r h.0, any_line_allows_rules info rs h.1)

-- A configuration written as one rule to a line lets a request through exactly when some rule is for
-- its command ("c" for 1, "b" for 2) and has a pattern that meets its address, whatever the order of
-- the rules. The first word of a rule has no influence.
pub firewall-SomeGrants :
    (info : SocksInfo) (rs : List Rule)
    → All IsRule rs
    → (firewall info (unlines (map rule_line rs)) ≡ true) ↔ SomeGrants info rs
firewall-SomeGrants info rs h =
    rw (firewall_lem info, lines-unlines (map rule_line rs) (rule_lines-Lacks rs h))
      (any_line_allows_rules info rs h)

line_allows-cd :
    (info : SocksInfo) (line : Bytes)
    → line_allows info line ≡ true
    → (info.cd ≡ codes "1") ⊎ (info.cd ≡ codes "2")
unfolding line_allows
line_allows-cd info line h =
    ground (arith, method_allows_iff (slicer (slicer line b' ').1 b' ').0 info.cd)

any_line_allows-cd :
    (info : SocksInfo) (ls : List Bytes)
    → any_line_allows info ls ≡ true
    → (info.cd ≡ codes "1") ⊎ (info.cd ≡ codes "2")
unfolding any_line_allows
any_line_allows-cd info [] h = cc
any_line_allows-cd info (l ∷ ls) h =
    ground (arith, line_allows-cd info l, any_line_allows-cd info ls)

-- Whatever the file holds, only CONNECT and BIND pass.
pub firewall-cd :
    (info : SocksInfo) (socks_conf : Bytes)
    → firewall info socks_conf ≡ true
    → (info.cd ≡ codes "1") ⊎ (info.cd ≡ codes "2")
firewall-cd info socks_conf = rw firewall_lem (any_line_allows-cd info (lines socks_conf))
