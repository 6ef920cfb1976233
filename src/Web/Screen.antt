-- ===== src/Web/Screen.antt =====
-- project4/console.cpp: `session` reads into one array and shows it up to its first NUL. The scripts and
-- the answer to a prompt are those of project3/console.cpp. `none` is a text that does not end inside
-- the array.
use network_programming_demo.Prelude.{
  ℕ, zero, suc, ◌≤◌, [], ◌∷◌, ◌++◌, append_assoc, Option, none, some, ◌>>=◌, true, false, ◌==◌,
  if◌then◌else◌, length, drop, replicate, ◌≡◌, refl, sym, ◌∙◌, ap, ◌≢◌, arith, All-append,
}
use network_programming_demo.Text.Bytes.{Bytes, codes}
use network_programming_demo.Text.Find.{Lacks}
use network_programming_demo.Web.Console.{Session, has_prompt, output_shell, do_write}

-- `data_` beside the state of a session of project3.
pub record Screen : Type 0 where
  pub data_ : Bytes
  pub session : Session

-- `async_read_some` puts the bytes at the front of the array.
abbrev pub read_into : Bytes → Bytes → Bytes
read_into bytes data_ = bytes ++ drop (length bytes) data_

-- `string _str(data_)`
unfoldable pub c_string : Bytes → Option Bytes
c_string [] = none
c_string (c ∷ s) = elim (c_string s) [
  | none ↦ if c == 0 then some [] else none
  | some rest ↦ some (if c == 0 then [] else c ∷ rest)
]

-- A read completes with bytes, with the end of the stream, or with another error and its message.
pub data Event : Type 0 where
  block : Bytes → Event
  eof : Event
  failed : Bytes → Event

abbrev shown : Bytes → Session → Session
shown str s = record s { out = s.out ++ output_shell s.session_id str }

abbrev pub answered : Bytes → Session → Session
answered str s = if has_prompt str then do_write (shown str s) else shown str s

-- The handler of `do_read`, for a read that is in flight.
unfoldable pub step : Event → Screen → Option Screen
unfolding c_string output_shell has_prompt do_write
step (block bytes) v = do
  str ← c_string (read_into bytes v.data_)
  some (record {
    data_ = read_into bytes v.data_;
    session = record (answered str v.session) { reading = true };
  })
step eof v = do
  str ← c_string v.data_
  some (record v { session = record (shown str v.session) { reading = false } })
step (failed message) v = some (record v {
  session = record (v.session) {
    reading = false;
    out = v.session.out ++ (codes "Error: " ++ (message ++ b'\n' ∷ []));
  };
})

zeros : (n : ℕ) → c_string (replicate (suc n) 0) ≡ some []
unfolding c_string
zeros zero = refl
zeros (suc n) = ground (arith, zeros n)

c_string-zeros : (s : Bytes) (n : ℕ) → Lacks 0 s → c_string (s ++ replicate (suc n) 0) ≡ some s
unfolding c_string
c_string-zeros [] n h = zeros n
c_string-zeros (c ∷ s) n h = ground (arith, c_string-zeros s n h.1)

drop-append_le : (n : ℕ) (xs ys : Bytes) → n ≤ length xs → drop n (xs ++ ys) ≡ drop n xs ++ ys
drop-append_le zero xs ys l = refl
drop-append_le (suc n) [] ys l = elim l [ ]
drop-append_le (suc n) (x ∷ xs) ys l = drop-append_le n xs ys (omega arith)

drop-Lacks : (n : ℕ) (s : Bytes) → Lacks 0 s → Lacks 0 (drop n s)
drop-Lacks zero s h = h
drop-Lacks (suc n) [] h = tt
drop-Lacks (suc n) (c ∷ s) h = drop-Lacks n s h.1

-- A block that is no longer than the text that stands in the array, with NULs behind it, is shown with
-- the rest of that text behind its own bytes, and the prompt is looked for in both.
pub block_shows_tail :
    (bytes old : Bytes) (n : ℕ) (session : Session)
    → Lacks 0 bytes
    → Lacks 0 old
    → length bytes ≤ length old
    → let v : Screen = record { data_ = old ++ replicate (suc n) 0; session = session } in
      step (block bytes) v
      ≡ some (record {
        data_ = (bytes ++ drop (length bytes) old) ++ replicate (suc n) 0;
        session = record (answered (bytes ++ drop (length bytes) old) session) { reading = true };
      })
unfolding step
block_shows_tail bytes old n session b o l =
    let tail = drop (length bytes) old in
    let array : read_into bytes (old ++ replicate (suc n) 0)
        ≡ (bytes ++ tail) ++ replicate (suc n) 0 =
      ap (λ rest. bytes ++ rest) (drop-append_le (length bytes) old (replicate (suc n) 0) l)
      ∙ sym (append_assoc bytes tail (replicate (suc n) 0)) in
    let text =
      c_string-zeros (bytes ++ tail) n
        (All-append (λ c. c ≢ 0) bytes tail b (drop-Lacks (length bytes) old o)) in
    ground (arith, array, text)
