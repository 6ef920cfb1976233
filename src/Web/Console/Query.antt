-- ===== src/Web/Console/Query.antt =====
-- The query of a console: fields joined by "&", each a key and a value.
use network_programming_demo.Prelude.{
  ℕ, zero, suc, ◌<◌, List, [], ◌∷◌, ◌++◌, length, ◌≡◌, arith, All, All-append, length-append,
  take-append, ◌≢◌,
}
use network_programming_demo.Text.Bytes.{Bytes}
use network_programming_demo.Text.Find.{Lacks, find-append, find-Lacks, drop_past}
use network_programming_demo.Web.Console.{field, parser_fuel, parser}

abbrev pub pair : Bytes × Bytes → Bytes
pair (key, value) = key ++ b'=' ∷ value

abbrev pub query : Bytes × Bytes → List (Bytes × Bytes) → Bytes
query q [] = pair q
query q (p ∷ qs) = pair q ++ b'&' ∷ query p qs

abbrev pub IsPair : Bytes × Bytes → Type 0
IsPair (key, value) = Lacks b'=' key × Lacks b'&' key × Lacks b'&' value

field-pair : (q : Bytes × Bytes) → IsPair q → field (pair q) ≡ q
unfolding field
field-pair (key, value) h = ground (
  arith,
  find-append b'=' key value h.0,
  take-append key (b'=' ∷ value),
  drop_past b'=' key value,
)

pair-Lacks : (q : Bytes × Bytes) → IsPair q → Lacks b'&' (pair q)
pair-Lacks (key, value) h = All-append (λ c. c ≢ b'&') key (b'=' ∷ value) h.1 (omega arith, h.2)

-- The pairs with the last one in front.
abbrev backwards : List (Bytes × Bytes) → List (Bytes × Bytes) → List (Bytes × Bytes)
backwards [] found = found
backwards (q ∷ qs) found = backwards qs (q ∷ found)

parser_fuel-query :
    (f : ℕ) (q : Bytes × Bytes) (qs found : List (Bytes × Bytes))
    → IsPair q
    → All IsPair qs
    → length (query q qs) < f
    → parser_fuel f (query q qs) found ≡ backwards (q ∷ qs) found
unfolding parser_fuel
parser_fuel-query zero q qs found h k l = absurd (omega arith)
parser_fuel-query (suc f) q [] found h k l =
    rw (parser_fuel, find-Lacks b'&' (pair q) (pair-Lacks q h), field-pair q h)
parser_fuel-query (suc f) q (p ∷ qs) found h k l =
    let cut = find-append b'&' (pair q) (query p qs) (pair-Lacks q h) in
    let front = take-append (pair q) (b'&' ∷ query p qs) in
    let behind = drop_past b'&' (pair q) (query p qs) in
    let shorter = length-append (pair q) (b'&' ∷ query p qs) in
    rw (parser_fuel, cut, front, behind, field-pair q h)
      (parser_fuel-query f p qs (q ∷ found) k.0 k.1 (omega (arith, shorter)))

-- The parser reads a query back, pair by pair; where a key comes twice the later pair counts.
parser-query :
    (q : Bytes × Bytes) (qs : List (Bytes × Bytes))
    → IsPair q
    → All IsPair qs
    → parser (query q qs) ≡ backwards (q ∷ qs) []
unfolding parser
parser-query q qs h k = parser_fuel-query (suc (length (query q qs))) q qs [] h k (omega arith)
