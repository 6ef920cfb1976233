-- ===== src/Tools/RemoveTag.antt =====
-- project1/bin/removetag.cpp and project1/bin/removetag0.cpp, from standard input to standard output.
pub mod Laws
use network_programming_demo.Prelude.{
  ℕ, Bool, true, false, not, ◌&&◌, ◌||◌, [], ◌∷◌, ◌++◌, ◌==◌, if◌then◌else◌,
}
use network_programming_demo.Text.Bytes.{Bytes, codes, is_alpha}

-- The loop of removetag.cpp: what it puts out from here.
unfoldable pub strip : Bool → Bytes → Bytes
strip in_tag [] = []
strip in_tag (c ∷ s) = elim (c == b'<') [
  | true ↦ strip true s
  | false ↦ elim (c == b'>') [
    | true ↦ strip false s
    | false ↦ let rest = strip in_tag s in if in_tag then rest else c ∷ rest
  ]
]

unfoldable pub removetag : Bytes → Bytes
unfolding strip
removetag s = strip false s

-- The variables of removetag0.cpp, with what it has written to its two outputs.
pub record Scan : Type 0 where
  pub in_tag : Bool
  pub is_illegal : Bool
  pub tag_name : Bytes
  pub out : Bytes
  pub errors : Bytes

abbrev pub complaint : Bytes → Bytes
complaint name = codes "Error: illegal tag \"" ++ (name ++ codes "\"\n")

-- One round of its loop.
unfoldable pub scan : Scan → ℕ → Scan
scan s c =
    if c == b'<'
    then record s { in_tag = true }
    else if c == b'>'
    then record s { in_tag = false }
    else if s.in_tag
    then record s {
      tag_name = s.tag_name ++ c ∷ [];
      is_illegal = s.is_illegal || not (is_alpha c) && not (c == b'/');
    }
    else record s {
      errors = s.errors ++ (if s.is_illegal then complaint s.tag_name else []);
      is_illegal = false;
      out = s.out ++ c ∷ [];
    }

unfoldable pub scan_all : Scan → Bytes → Scan
unfolding scan
scan_all s [] = s
scan_all s (c ∷ cs) = scan_all (scan s c) cs

abbrev pub initial : Scan
initial = record { in_tag = false; is_illegal = false; tag_name = []; out = []; errors = [] }

unfoldable pub removetag0 : Bytes → Scan
unfolding scan_all
removetag0 s = scan_all initial s
