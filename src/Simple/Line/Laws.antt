-- ===== src/Simple/Line/Laws.antt =====
-- Lines with the mark of a numbered pipe.
use network_programming_demo.Prelude.{
  ℕ, List, [], ◌∷◌, ◌++◌, append_assoc, Option, none, some, Bool, true, false, ◌≡◌, refl, ◌∙◌, ap,
  arith, All, append-nil,
}
use network_programming_demo.Text.Bytes.{Bytes}
use network_programming_demo.Text.Decimal.{atoi}
use network_programming_demo.Text.Find.{Lacks}
use network_programming_demo.Text.Tokens.{tokens-join, join, IsToken}
use network_programming_demo.Simple.Line.{
  split_pipe, split_pipe_error, to_int, up_to, cut_at, starts_blank, numbered, ended, read_names,
  read_line,
}

read_names_last :
    (acc fs : List Bytes) (end : Bytes) → read_names acc (fs ++ end ∷ []) ≡ ended (acc ++ fs) end
unfolding read_names
read_names_last acc [] end = rw append-nil refl
read_names_last acc (f ∷ []) end = refl
read_names_last acc (f ∷ g ∷ gs) end =
    read_names_last (acc ++ f ∷ []) (g ∷ gs) end
    ∙ ap (λ xs. ended xs end) (append_assoc acc (f ∷ []) (g ∷ gs))

up_to-Lacks : (d : ℕ) (s : Bytes) → Lacks d s → up_to d s ≡ s
unfolding up_to
up_to-Lacks d [] h = refl
up_to-Lacks d (c ∷ s) h = ground (arith, up_to-Lacks d s h.1)

up_to-append : (d : ℕ) (s t : Bytes) → Lacks d s → up_to d (s ++ d ∷ t) ≡ s
unfolding up_to
up_to-append d [] t h = ground arith
up_to-append d (c ∷ s) t h = ground (arith, up_to-append d s t h.1)

-- The last name without the mark `!`, and with one between two parts.
split_plain : (s : Bytes) → IsToken b'!' s → split_pipe_error s ≡ (s, none)
unfolding split_pipe_error cut_at
split_plain [] h = absurd (h.1 refl)
split_plain (c ∷ s) h =
    ground (arith, tokens-join b'!' ((c ∷ s) ∷ []) (h, tt), up_to-Lacks b'!' (c ∷ s) h.0)

split_marked :
    (s t : Bytes) → IsToken b'!' s → IsToken b'!' t → split_pipe_error (s ++ b'!' ∷ t) ≡ (s, some t)
unfolding split_pipe_error cut_at
split_marked [] t h k = absurd (h.1 refl)
split_marked (c ∷ s) t h k =
    ground
      (arith, tokens-join b'!' ((c ∷ s) ∷ t ∷ []) (h, (k, tt)), up_to-append b'!' (c ∷ s) t h.0)

ended_plain : (fs : List Bytes) (s : Bytes) → IsToken b'!' s → ended fs s ≡ numbered fs s false
unfolding ended
ended_plain fs s h =
    ap
      (λ (r : Bytes × Option Bytes). elim r.1 [
        | none ↦ numbered fs r.0 false
        | some mark ↦ numbered (fs ++ r.0 ∷ []) mark true
      ])
      (split_plain s h)

ended_marked :
    (fs : List Bytes) (s t : Bytes)
    → IsToken b'!' s
    → IsToken b'!' t
    → ended fs (s ++ b'!' ∷ t) ≡ numbered (fs ++ s ∷ []) t true
unfolding ended
ended_marked fs s t h k =
    ap
      (λ (r : Bytes × Option Bytes). elim r.1 [
        | none ↦ numbered fs r.0 false
        | some mark ↦ numbered (fs ++ r.0 ∷ []) mark true
      ])
      (split_marked s t h k)

All-last {ℓ κ} : {A : Type ℓ} (P : A → Type κ) (xs : List A) (x : A) → All P (xs ++ x ∷ []) → P x
All-last P [] x h = h.0
All-last P (y ∷ xs) x h = All-last P xs x h.1

numbered_some :
    (f : Bytes) (fs : List Bytes) (end : Bytes) (err : Bool)
    → starts_blank end ≡ false
    → numbered (f ∷ fs) end err
      ≡ record { commands = f ∷ fs; n_pipe_err = err; pipe_number = some (to_int (atoi end)) }
unfolding numbered
numbered_some f fs end err b = ground arith

-- Commands joined by bars, with a number behind the last bar: the line's commands, and a numbered pipe
-- for the output of the last.
read_line-bar :
    (f : Bytes) (fs : List Bytes) (number : Bytes)
    → All (IsToken b'|') (f ∷ fs ++ number ∷ [])
    → Lacks b'!' number
    → starts_blank number ≡ false
    → read_line (join b'|' (f ∷ fs ++ number ∷ []))
      ≡ record { commands = f ∷ fs; n_pipe_err = false; pipe_number = some (to_int (atoi number)) }
unfolding read_line split_pipe
read_line-bar f fs number h l b =
    let t : IsToken b'!' number = (l, (All-last (IsToken b'|') (f ∷ fs) number h).1) in
    rw (tokens-join b'|' (f ∷ fs ++ number ∷ []) h, read_names_last [] (f ∷ fs) number)
      (ended_plain (f ∷ fs) number t ∙ numbered_some f fs number false b)

-- A command with a number behind the mark `!`: its standard error goes into the pipe too.
read_line-mark :
    (f number : Bytes)
    → IsToken b'!' f
    → IsToken b'!' number
    → IsToken b'|' (f ++ b'!' ∷ number)
    → starts_blank number ≡ false
    → read_line (f ++ b'!' ∷ number)
      ≡ record { commands = f ∷ []; n_pipe_err = true; pipe_number = some (to_int (atoi number)) }
unfolding read_line split_pipe read_names
read_line-mark f number h k t b =
    rw (tokens-join b'|' ((f ++ b'!' ∷ number) ∷ []) (t, tt))
      (ended_marked [] f number h k ∙ numbered_some f [] number true b)
