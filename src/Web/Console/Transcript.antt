-- ===== src/Web/Console/Transcript.antt =====
-- What a console session prints and sends.
use network_programming_demo.Prelude.{
  ℕ, zero, suc, ◌-◌, ◌<◌, List, [], ◌∷◌, ◌++◌, Option, some, ◌>>=◌, true, ltb, if◌then◌else◌,
  length, drop, ◌≡◌, refl, ◌≢◌, arith, ◌∙◌, All, All-append, append_assoc, append-nil, Bool-cases,
  inl, inr,
}
use network_programming_demo.Text.Bytes.{Bytes, is_digit}
use network_programming_demo.Text.Decimal.{
  to_string, to_string-IsDigits, IsDigits, digits_value, digits_value-to_string,
}
use network_programming_demo.Web.Console.{
  char_text, escape, output_shell, output_command, Session, has_prompt, next_command, do_write,
  block, step,
}

-- A byte that can stand in a string of a script in a page: no quote, no "\", no "<".
abbrev IsHarmless : ℕ → Type 0
IsHarmless c = (c ≢ b'\'') × (c ≢ b'\\') × (c ≢ b'<')

digits-IsHarmless : (s : Bytes) → IsDigits s → All IsHarmless s
digits-IsHarmless [] h = tt
digits-IsHarmless (c ∷ s) h = (ground arith, digits-IsHarmless s h.1)

char_text-IsHarmless : (c : ℕ) → All IsHarmless (char_text c)
unfolding char_text
char_text-IsHarmless c = elim (Bool-cases (ltb c 128)) [
  | inl e ↦ rw e (digits-IsHarmless (to_string c) (to_string-IsDigits c))
  | inr e ↦
      rw e (ground arith, digits-IsHarmless (to_string (256 - c)) (to_string-IsDigits (256 - c)))
]

escape-IsHarmless : (s : Bytes) → All IsHarmless (escape s)
unfolding escape
escape-IsHarmless [] = tt
escape-IsHarmless (c ∷ s) =
    let tail : All IsHarmless (b';' ∷ escape s) = (ground arith, escape-IsHarmless s) in
    (
      ground arith,
      (
        ground arith,
        All-append IsHarmless (char_text c) (b';' ∷ escape s) (char_text-IsHarmless c) tail,
      ),
    )

-- Character references read back, as a browser does: "&#", a number, ";".
abbrev after_digits : Bytes → Bytes
after_digits [] = []
after_digits (c ∷ s) = if is_digit c then after_digits s else s

abbrev pub unescape : ℕ → Bytes → Bytes
unescape zero s = []
unescape (suc n) [] = []
unescape (suc n) (x ∷ []) = []
unescape (suc n) (x ∷ y ∷ s) = digits_value 0 s ∷ unescape n (after_digits s)

after_digits-append : (s t : Bytes) → IsDigits s → after_digits (s ++ b';' ∷ t) ≡ t
after_digits-append [] t h = ground arith
after_digits-append (c ∷ s) t h = ground (arith, after_digits-append s t h.1)

unescape-escape : (s : Bytes) → All (λ c. c < 128) s → unescape (length s) (escape s) ≡ s
unfolding escape char_text
unescape-escape [] h = refl
unescape-escape (c ∷ s) h =
    let small : ltb c 128 ≡ true = ground arith in
    let stop : digits_value c (b';' ∷ escape s) ≡ c = unfold digits_value in refl in
    rw small (
      ground (
        arith,
        digits_value-to_string c (b';' ∷ escape s),
        after_digits-append (to_string c) (escape s) (to_string-IsDigits c),
        unescape-escape s h.1,
        stop,
      ))

-- What is put into a script for a text `s` cannot end the string it stands in or open a tag, whatever
-- the text; and what is put in for an ASCII text `t` reads back as `t`.
escape_lem :
    (s t : Bytes)
    → All (λ c. c < 128) t
    → All IsHarmless (escape s) × (unescape (length t) (escape t) ≡ t)
escape_lem s t h = (escape-IsHarmless s, unescape-escape t h)

-- The blocks that a shell writes, one read after the other.
abbrev pub read_all : List Bytes → Session → Option Session
read_all [] s = some s
read_all (b ∷ bs) s = step (block b) s >>= read_all bs

abbrev pub prompts : List Bytes → ℕ
prompts [] = 0
prompts (b ∷ bs) = let n = prompts bs in if has_prompt b then suc n else n

-- The first `n` commands, each with a newline; behind the last one there are empty lines.
abbrev pub typed : ℕ → List Bytes → Bytes
typed zero cs = []
typed (suc n) cs = next_command cs ++ typed n (drop 1 cs)

abbrev pub screen : Bytes → List Bytes → List Bytes → Bytes
screen id [] cs = []
screen id (b ∷ bs) cs =
    output_shell id b
    ++ (if has_prompt b
        then output_command id (next_command cs) ++ screen id bs (drop 1 cs)
        else screen id bs cs)

same_session :
    (id : Bytes) (c c' : List Bytes) (o o' t t' : Bytes)
    → c ≡ c'
    → o ≡ o'
    → t ≡ t'
    → ◌≡◌ {A = Option Session}
        (some (record { session_id = id; cmd_str = c; reading = true; out = o; sent = t }))
        (some (record { session_id = id; cmd_str = c'; reading = true; out = o'; sent = t' }))
same_session id c c' o o' t t' e f g = cc

drop-drop : (n : ℕ) (cs : List Bytes) → drop n (drop 1 cs) ≡ drop (suc n) cs
drop-drop zero [] = refl
drop-drop (suc n) [] = refl
drop-drop n (c ∷ cs) = refl

append_three : (a x y z : Bytes) → ((a ++ x) ++ y) ++ z ≡ a ++ (x ++ (y ++ z))
append_three a x y z = append_assoc (a ++ x) y z ∙ append_assoc a x (y ++ z)

-- Whatever a shell writes in whatever blocks, the console shows every block, and sends one command
-- for each block that holds a "%", the commands of the test case in their order with a newline
-- each, and empty lines once they have run out.
pub read_all-typed :
    (bs : List Bytes) (s : Session)
    → s.reading ≡ true
    → read_all bs s
      ≡ some (record s {
        cmd_str = drop (prompts bs) s.cmd_str;
        reading = true;
        out = s.out ++ screen s.session_id bs s.cmd_str;
        sent = s.sent ++ typed (prompts bs) s.cmd_str;
      })
unfolding step do_write
read_all-typed [] s r = ground (arith, append-nil s.out, append-nil s.sent)
read_all-typed (b ∷ bs) s r = elim (Bool-cases (has_prompt b)) [
  | inl e ↦
      rw (e, r)
        (read_all-typed bs
            (do_write (record s { reading = true; out = s.out ++ output_shell s.session_id b }))
            refl
          ∙ same_session s.session_id _ _ _ _ _ _ (drop-drop (prompts bs) s.cmd_str)
              (append_three s.out (output_shell s.session_id b)
                (output_command s.session_id (next_command s.cmd_str))
                (screen s.session_id bs (drop 1 s.cmd_str)))
              (append_assoc s.sent (next_command s.cmd_str)
                (typed (prompts bs) (drop 1 s.cmd_str))))
  | inr e ↦
      rw (e, r)
        (read_all-typed bs (record s { reading = true; out = s.out ++ output_shell s.session_id b })
            refl
          ∙ same_session s.session_id _ _ _ _ _ _ refl
              (append_assoc s.out (output_shell s.session_id b) (screen s.session_id bs s.cmd_str))
              refl)
]
