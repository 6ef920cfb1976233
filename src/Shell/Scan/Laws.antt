-- ===== src/Shell/Scan/Laws.antt =====
-- Lines cut into commands: the loop ends, and what the set of `sscanf` keeps of a command.
use network_programming_demo.Prelude.{
  append-nil, ℕ, zero, suc, ◌+◌, ◌≤◌, ◌<◌, [], ◌∷◌, ◌++◌, none, some, Bool, true, false, length,
  List, Option, ◌>>=◌, ◌≡◌, refl, sym, ◌≢◌, inl, inr, arith, ap, ◌∙◌, All, Option-cases,
}
use network_programming_demo.Prelude.Int.{pos}
use network_programming_demo.Text.Bytes.{Bytes, is_alpha}
use network_programming_demo.Text.Decimal.{
  to_string, to_string-IsDigits, to_string-ne-nil, IsDigits, digits_value, digits_value-to_string,
  skip_space,
}
use network_programming_demo.Shell.Scan.{
  Scanned, is_instruction, is_mark, is_mark_or_file, is_not_newline, span, scan_set, some_text,
  scan_int, scan_number, scan_pipe, scan, rest, commands_fuel,
}

length-span :
    (test : ℕ → Bool) (s : Bytes) → length (span test s).0 + length (span test s).1 ≡ length s
unfolding span
length-span test [] = omega arith
length-span test (c ∷ s) = ground (arith, length-span test s)

some_text_cases :
    (x : Bytes × Bytes) (t r : Bytes) → some_text x ≡ some (t, r) → (x ≡ (t, r)) × (0 < length t)
some_text_cases ([], r') t r h = cc
some_text_cases (c ∷ t', r') t r h =
    let e : (c ∷ t', r') ≡ (t, r) = cc (h) in
    (e, omega (arith, ap (λ (x : Bytes × Bytes). length x.0) e))

length-scan_set :
    (test : ℕ → Bool) (s t r : Bytes)
    → scan_set test s ≡ some (t, r)
    → (length t + length r ≡ length s) × (0 < length t)
unfolding scan_set
length-scan_set test s t r h =
    let (e, n) = some_text_cases (span test s) t r h in
    let f : length t + length r ≡ length s =
      ap (λ (x : Bytes × Bytes). length x.0 + length x.1) (sym e) ∙ length-span test s in
    (f, n)

length-skip_space : (s : Bytes) → length (skip_space s) ≤ length s
unfolding skip_space
length-skip_space [] = omega arith
length-skip_space (c ∷ s) = ground (arith, length-skip_space s)

scan_pipe-length : (c : ℕ) (line : Bytes) → length (scan_pipe (c ∷ line)).buf < length (c ∷ line)
unfolding scan_pipe
scan_pipe-length c line = elim (Option-cases (scan_set is_instruction (c ∷ line))) [
  | inl e ↦ rw (scan_pipe, e) (omega arith)
  | inr ((t, r), e) ↦ elim (Option-cases (scan_set is_mark_or_file r)) [
    | inl f ↦ rw (scan_pipe, e, f) (omega arith)
    | inr ((t', r'), f) ↦ elim (Option-cases (scan_set is_not_newline (skip_space r'))) [
      | inl g ↦ rw (scan_pipe, e, f, g) (omega arith)
      | inr ((t'', r''), g) ↦
          rw (scan_pipe, e, f, g)
            (omega (
              arith,
              (length-scan_set is_instruction (c ∷ line) t r e).0,
              (length-scan_set is_instruction (c ∷ line) t r e).1,
              (length-scan_set is_mark_or_file r t' r' f).0,
              (length-scan_set is_not_newline (skip_space r') t'' r'' g).0,
              length-skip_space r',
            ))
    ]
  ]
]

scan_number-buf : (line : Bytes) (s : Scanned) → scan_number line ≡ some s → s.buf ≡ []
unfolding scan_number
scan_number-buf line s h = ground arith

scan-length :
    (c : ℕ) (line : Bytes) (s : Scanned)
    → scan (c ∷ line) ≡ some s
    → length (rest s) < length (c ∷ line)
unfolding scan rest
scan-length c line s h = elim (Option-cases (scan_number (c ∷ line))) [
  | inl e ↦ ground (arith, scan_pipe-length c line)
  | inr (s', e) ↦ ground (arith, scan_number-buf (c ∷ line) s' e)
]

-- What the loop reads, given what it reads of the rest.
reads : Scanned → Option (List Scanned) → Option (List Scanned)
reads s read = do cs ← read; some (s ∷ cs)

ends_empty : (f : ℕ) → 0 < f → commands_fuel f [] ≡ some (some [])
unfolding commands_fuel
ends_empty zero h = absurd (omega arith)
ends_empty (suc f) h = refl

ends_fault :
    (c : ℕ) (line : Bytes) (f : ℕ)
    → scan (c ∷ line) ≡ none
    → 0 < f
    → commands_fuel f (c ∷ line) ≡ some none
unfolding commands_fuel
ends_fault c line zero e h = absurd (omega arith)
ends_fault c line (suc f) e h = rw (commands_fuel, e) refl

ends_more :
    (c : ℕ) (line : Bytes) (s : Scanned) (read : Option (List Scanned)) (f : ℕ)
    → scan (c ∷ line) ≡ some s
    → ((g : ℕ) → length (rest s) < g → commands_fuel g (rest s) ≡ some read)
    → length (c ∷ line) < f
    → commands_fuel f (c ∷ line) ≡ some (reads s read)
unfolding commands_fuel reads
ends_more c line s read zero e h k = absurd (omega arith)
ends_more c line s read (suc f) e h k =
    let shorter : length (rest s) < length (c ∷ line) = scan-length c line s e in
    rw (commands_fuel, e, h f (omega arith)) refl

-- By a bound on the line's length.
commands_fuel-ends :
    (bound : ℕ) (line : Bytes)
    → length line < bound
    → (read : Option (List Scanned)) × ((f : ℕ)
        → length line < f
        → commands_fuel f line ≡ some read)
commands_fuel-ends zero line h = absurd (omega arith)
commands_fuel-ends (suc bound) [] h = (some [], ends_empty)
commands_fuel-ends (suc bound) (c ∷ line) h = elim (Option-cases (scan (c ∷ line))) [
  | inl e ↦ (none, λ f k. ends_fault c line f e (omega arith))
  | inr (s, e) ↦
      let shorter : length (rest s) < length (c ∷ line) = scan-length c line s e in
      let (read, ends) = commands_fuel-ends bound (rest s) (omega arith) in
      (reads s read, λ f. ends_more c line s read f e ends)
]

-- The loop of `main` over a line ends, with the commands or with a fault: a number of rounds over the
-- line's length is always enough, and more rounds give the same.
pub commands-ends :
    (line : Bytes)
    → (read : Option (List Scanned)) × ((f : ℕ)
        → length line < f
        → commands_fuel f line ≡ some read)
commands-ends line = commands_fuel-ends (suc (length line)) line (omega arith)

span-stop :
    (test : ℕ → Bool) (t r : Bytes) (d : ℕ)
    → All (λ c. test c ≡ true) t
    → test d ≡ false
    → span test (t ++ d ∷ r) ≡ (t, d ∷ r)
unfolding span
span-stop test [] r d h e = ground arith
span-stop test (c ∷ t) r d h e = ground (arith, span-stop test t r d h.1 e)

span_all : (test : ℕ → Bool) (t : Bytes) → All (λ c. test c ≡ true) t → span test t ≡ (t, [])
unfolding span
span_all test [] h = refl
span_all test (c ∷ t) h = ground (arith, span_all test t h.1)

scan_set-stop :
    (test : ℕ → Bool) (c : ℕ) (t r : Bytes) (d : ℕ)
    → All (λ b. test b ≡ true) (c ∷ t)
    → test d ≡ false
    → scan_set test (c ∷ t ++ d ∷ r) ≡ some (c ∷ t, d ∷ r)
unfolding scan_set
scan_set-stop test c t r d h e = rw (span-stop test (c ∷ t) r d h e)

-- A command as it can be written in front of a mark: at least one byte, each from the set.
abbrev IsInstruction : Bytes → Type 0
IsInstruction s = All (λ c. is_instruction c ≡ true) s × (s ≢ [])

-- A command is cut off at the first byte that is neither from the set nor a mark, such as "/" or "_":
-- what follows is dropped without a message, and the front is run.
scan_cuts :
    (s r : Bytes) (d : ℕ)
    → IsInstruction s
    → is_instruction d ≡ false
    → is_mark_or_file d ≡ false
    → scan (s ++ d ∷ r)
      ≡ some (record { n = 1; instruction = s; symbol_meth = []; num_pipe = pos 0; buf = [] })
unfolding scan scan_number scan_pipe
scan_cuts [] r d h e f = absurd (h.1 refl)
scan_cuts (c ∷ s) r d h e f =
    let front = scan_set-stop is_instruction c s r d h.0 e in
    let no_mark : scan_set is_mark (d ∷ r) ≡ none = unfold scan_set span in ground arith in
    let no_mark_or_file : scan_set is_mark_or_file (d ∷ r) ≡ none =
      unfold scan_set span in ground arith in
    ground (arith, front, no_mark, no_mark_or_file)

-- A number is read up to the end of its digits.
scan_int-IsDigits : (s : Bytes) → IsDigits s → s ≢ [] → scan_int s ≡ some (pos (digits_value 0 s))
unfolding scan_int skip_space
scan_int-IsDigits [] h ne = absurd (ne refl)
scan_int-IsDigits (c ∷ s) h ne = ground arith

scan_int-to_string : (n : ℕ) → scan_int (to_string n) ≡ some (pos n)
scan_int-to_string n =
    scan_int-IsDigits (to_string n) (to_string-IsDigits n) (to_string-ne-nil n)
    ∙ ap (λ v. some (pos v)) value
  where
    value : digits_value 0 (to_string n) ≡ n
    value = rw append-nil at (digits_value-to_string n []) ∙ unfold digits_value in refl

scan_set-mark :
    (m : ℕ) (t : Bytes)
    → is_mark m ≡ true
    → IsDigits t
    → t ≢ []
    → scan_set is_mark (m ∷ t) ≡ some (m ∷ [], t)
scan_set-mark m [] h d ne = absurd (ne refl)
scan_set-mark m (c ∷ t) h d ne = scan_set-stop is_mark m [] t c (h, tt) (ground arith)

scan_numbered :
    (s : Bytes) (m n : ℕ)
    → IsInstruction s
    → is_mark m ≡ true
    → scan (s ++ m ∷ to_string n)
      ≡ some (record { n = 3; instruction = s; symbol_meth = m ∷ []; num_pipe = pos n; buf = [] })
unfolding scan scan_number
scan_numbered [] m n h e = absurd (h.1 refl)
scan_numbered (x ∷ s) m n h e = ground (
  arith,
  scan_set-stop is_instruction x s (to_string n) m h.0 (ground arith),
  scan_set-mark m (to_string n) e (to_string-IsDigits n) (to_string-ne-nil n),
  scan_int-to_string n,
)

scan_piped :
    (s r : Bytes) (c : ℕ)
    → IsInstruction s
    → is_alpha c ≡ true
    → All (λ b. is_not_newline b ≡ true) (c ∷ r)
    → scan (s ++ b'|' ∷ b' ' ∷ c ∷ r)
      ≡ some (record {
        n = 3;
        instruction = s;
        symbol_meth = b'|' ∷ [];
        num_pipe = pos 0;
        buf = c ∷ r;
      })
unfolding scan scan_number scan_pipe
scan_piped [] r c h e f = absurd (h.1 refl)
scan_piped (x ∷ s) r c h e f =
    let front = scan_set-stop is_instruction x s (b' ' ∷ c ∷ r) b'|' h.0 refl in
    let mark : scan_set is_mark (b'|' ∷ b' ' ∷ c ∷ r) ≡ some (b'|' ∷ [], b' ' ∷ c ∷ r) =
      scan_set-stop is_mark b'|' [] (c ∷ r) b' ' (refl, tt) refl in
    let mark_or_file : scan_set is_mark_or_file (b'|' ∷ b' ' ∷ c ∷ r)
        ≡ some (b'|' ∷ [], b' ' ∷ c ∷ r) =
      scan_set-stop is_mark_or_file b'|' [] (c ∷ r) b' ' (refl, tt) refl in
    let no_number : scan_int (b' ' ∷ c ∷ r) ≡ none = unfold scan_int skip_space in ground arith in
    let blank : skip_space (b' ' ∷ c ∷ r) ≡ c ∷ r = unfold skip_space in ground arith in
    let behind : scan_set is_not_newline (c ∷ r) ≡ some (c ∷ r, []) =
      unfold scan_set in rw (span_all is_not_newline (c ∷ r) f) in
    ground (arith, front, mark, mark_or_file, no_number, blank, behind)

-- `s |n` and `s !n` are read as `s` with the mark and the number n. `s | r`, where the command behind
-- the mark begins with a letter, is read as an ordinary pipe from `s`, and `main` goes on with `r`
-- whole.
scan_marks :
    (s r : Bytes) (m n c : ℕ)
    → IsInstruction s
    → is_mark m ≡ true
    → is_alpha c ≡ true
    → All (λ b. is_not_newline b ≡ true) (c ∷ r)
    → (scan (s ++ m ∷ to_string n)
        ≡ some
            (record { n = 3; instruction = s; symbol_meth = m ∷ []; num_pipe = pos n; buf = [] }))
      × (scan (s ++ b'|' ∷ b' ' ∷ c ∷ r)
          ≡ some (record {
            n = 3;
            instruction = s;
            symbol_meth = b'|' ∷ [];
            num_pipe = pos 0;
            buf = c ∷ r;
          }))
scan_marks s r m n c h e a f = (scan_numbered s m n h e, scan_piped s r c h a f)
