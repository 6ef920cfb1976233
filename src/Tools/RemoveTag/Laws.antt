-- ===== src/Tools/RemoveTag/Laws.antt =====
-- What the two filters keep, and what removetag0.cpp reports.
use network_programming_demo.Prelude.{
  ℕ, Bool, true, false, not, ◌&&◌, ◌||◌, [], ◌∷◌, ◌++◌, ◌==◌, if◌then◌else◌, ◌≡◌, refl, ◌≢◌, sym,
  ap, ◌∙◌, arith, All, append_assoc, append-nil,
}
use network_programming_demo.Text.Bytes.{Bytes, is_alpha}
use network_programming_demo.Tools.RemoveTag.{
  strip, removetag, Scan, complaint, scan, scan_all, initial, removetag0,
}

abbrev pub NoBracket : ℕ → Type 0
NoBracket c = (c ≢ b'<') × (c ≢ b'>')

strip-NoBracket : (in_tag : Bool) (s : Bytes) → All NoBracket (strip in_tag s)
unfolding strip
strip-NoBracket in_tag [] = tt
strip-NoBracket in_tag (c ∷ s) =
    ground (arith, strip-NoBracket true s, strip-NoBracket false s, strip-NoBracket in_tag s)

strip_of_NoBracket : (s : Bytes) → All NoBracket s → strip false s ≡ s
unfolding strip
strip_of_NoBracket [] h = refl
strip_of_NoBracket (c ∷ s) h = ground (arith, strip_of_NoBracket s h.1)

-- removetag leaves no bracket, and a second pass changes nothing.
removetag_idempotent :
    (s : Bytes) → All NoBracket (removetag s) × (removetag (removetag s) ≡ removetag s)
unfolding removetag
removetag_idempotent s =
    (strip-NoBracket false s, strip_of_NoBracket (strip false s) (strip-NoBracket false s))

strip_inside :
    (tag rest : Bytes)
    → All (λ c. c ≢ b'>') tag
    → strip true (tag ++ b'>' ∷ rest) ≡ strip false rest
unfolding strip
strip_inside [] rest h = refl
strip_inside (c ∷ tag) rest h = ground (arith, strip_inside tag rest h.1)

strip_before :
    (pre rest : Bytes) → All NoBracket pre → strip false (pre ++ rest) ≡ pre ++ strip false rest
unfolding strip
strip_before [] rest h = refl
strip_before (c ∷ pre) rest h = ground (arith, strip_before pre rest h.1)

-- A tag is dropped with all that it holds, up to the first ">"; the text before it stays.
removetag_tag :
    (pre tag rest : Bytes)
    → All NoBracket pre
    → All (λ c. c ≢ b'>') tag
    → removetag (pre ++ b'<' ∷ (tag ++ b'>' ∷ rest)) ≡ pre ++ removetag rest
unfolding removetag
removetag_tag pre tag rest h k =
    strip_before pre _ h ∙ ap (◌++◌ pre) (unfold strip in strip_inside tag rest k)

scan_all-out : (st : Scan) (s : Bytes) → (scan_all st s).out ≡ st.out ++ strip st.in_tag s
unfolding scan_all scan strip
scan_all-out st [] = sym (append-nil st.out)
scan_all-out st (c ∷ s) =
    ground (arith, scan_all-out (scan st c) s, append_assoc st.out (c ∷ []) (strip false s))

-- removetag0 puts out the same as removetag.
removetag0-out : (s : Bytes) → (removetag0 s).out ≡ removetag s
unfolding removetag0 removetag
removetag0-out s = scan_all-out initial s

abbrev is_legal : ℕ → Bool
is_legal c = is_alpha c || c == b'/'

abbrev pub all_legal : Bytes → Bool
all_legal [] = true
all_legal (c ∷ s) = is_legal c && all_legal s

scan_all-tag :
    (st : Scan) (tag rest : Bytes)
    → st.in_tag ≡ true
    → All NoBracket tag
    → scan_all st (tag ++ b'>' ∷ rest)
      ≡ scan_all
          (record st {
            in_tag = false;
            tag_name = st.tag_name ++ tag;
            is_illegal = st.is_illegal || not (all_legal tag);
          })
          rest
unfolding scan_all scan
scan_all-tag st [] rest e h = ground (arith, append-nil st.tag_name)
scan_all-tag st (c ∷ tag) rest e h =
    ground (arith, scan_all-tag (scan st c) tag rest, append_assoc st.tag_name (c ∷ []) tag)

scan_all-append : (st : Scan) (s t : Bytes) → scan_all st (s ++ t) ≡ scan_all (scan_all st s) t
unfolding scan_all
scan_all-append st [] t = refl
scan_all-append st (c ∷ s) t = scan_all-append (scan st c) s t

-- A tag that is followed by a byte of text is reported exactly when one of its bytes is neither a
-- letter nor "/", or an illegal tag before it is not reported yet; and what is reported as its name
-- are the names of all tags read so far, joined.
scan_all-errors :
    (st : Scan) (tag : Bytes) (c : ℕ)
    → st.in_tag ≡ false
    → All NoBracket tag
    → NoBracket c
    → (scan_all st (b'<' ∷ (tag ++ b'>' ∷ c ∷ []))).errors
      ≡ st.errors
        ++ (if st.is_illegal || not (all_legal tag) then complaint (st.tag_name ++ tag) else [])
unfolding scan_all scan
scan_all-errors st tag c e h k =
    ground (arith, scan_all-tag (record st { in_tag = true }) tag (c ∷ []) refl h)
