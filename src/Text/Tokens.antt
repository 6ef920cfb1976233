-- ===== src/Text/Tokens.antt =====
-- strtok with one delimiter, over a whole text: the tokens that its successive calls return.
use network_programming_demo.Prelude.{
  ℕ, List, [], ◌∷◌, ◌++◌, true, false, ◌==◌, ◌≡◌, refl, ◌≢◌, arith, All, ◌∙◌, ap, append_assoc,
  append-nil, All-append, Bool-cases, inl, inr,
}
use network_programming_demo.Text.Bytes.{Bytes}
use network_programming_demo.Text.Find.{Lacks}

-- A run of delimiters makes no empty token.
close : Bytes → List Bytes → List Bytes
close [] ts = ts
close (c ∷ s) ts = (c ∷ s) ∷ ts

tokens_from : ℕ → Bytes → Bytes → List Bytes
unfolding close
tokens_from d cur [] = close cur []
tokens_from d cur (c ∷ s) = elim (c == d) [
  | true ↦ close cur (tokens_from d [] s)
  | false ↦ tokens_from d (cur ++ c ∷ []) s
]

unfoldable pub tokens : ℕ → Bytes → List Bytes
unfolding tokens_from
tokens d s = tokens_from d [] s

-- A token holds no delimiter and is not empty.
abbrev pub IsToken : ℕ → Bytes → Type 0
IsToken d t = Lacks d t × (t ≢ [])

close-IsToken :
    (d : ℕ) (cur : Bytes) (ts : List Bytes)
    → Lacks d cur
    → All (IsToken d) ts
    → All (IsToken d) (close cur ts)
unfolding close
close-IsToken d [] ts h k = k
close-IsToken d (c ∷ s) ts h k = ((h, λ e. cc), k)

tokens_from-IsToken : (d : ℕ) (cur s : Bytes) → Lacks d cur → All (IsToken d) (tokens_from d cur s)
unfolding tokens_from
tokens_from-IsToken d cur [] h = close-IsToken d cur [] h tt
tokens_from-IsToken d cur (c ∷ s) h = elim (Bool-cases (c == d)) [
  | inl e ↦
      rw (e, tokens_from)
        (close-IsToken d cur (tokens_from d [] s) h (tokens_from-IsToken d [] s tt))
  | inr e ↦
      rw (e, tokens_from)
        (tokens_from-IsToken d (cur ++ c ∷ []) s
          (All-append (λ b. b ≢ d) cur (c ∷ []) h (ground arith, tt)))
]

pub tokens-IsToken : (d : ℕ) (s : Bytes) → All (IsToken d) (tokens d s)
unfolding tokens
tokens-IsToken d s = tokens_from-IsToken d [] s tt

-- The tokens joined by single delimiters.
abbrev pub join : ℕ → List Bytes → Bytes
join d [] = []
join d (t ∷ []) = t
join d (t ∷ ts) = t ++ d ∷ join d ts

tokens_from-Lacks : (d : ℕ) (cur t : Bytes) → Lacks d t → tokens_from d cur t ≡ close (cur ++ t) []
unfolding tokens_from
tokens_from-Lacks d cur [] h = rw append-nil
tokens_from-Lacks d cur (c ∷ t) h =
    ground (arith, tokens_from-Lacks d (cur ++ c ∷ []) t h.1, append_assoc cur (c ∷ []) t)

tokens_from-append :
    (d : ℕ) (cur t rest : Bytes)
    → Lacks d t
    → tokens_from d cur (t ++ d ∷ rest) ≡ close (cur ++ t) (tokens_from d [] rest)
unfolding tokens_from
tokens_from-append d cur [] rest h = ground (arith, append-nil cur)
tokens_from-append d cur (c ∷ t) rest h =
    ground (arith, tokens_from-append d (cur ++ c ∷ []) t rest h.1, append_assoc cur (c ∷ []) t)

close_ne : (t : Bytes) (ts : List Bytes) → t ≢ [] → close t ts ≡ t ∷ ts
unfolding close
close_ne [] ts h = absurd (h refl)
close_ne (c ∷ t) ts h = refl

-- Splitting what was joined gives the tokens back.
pub tokens-join : (d : ℕ) (ts : List Bytes) → All (IsToken d) ts → tokens d (join d ts) ≡ ts
unfolding tokens
tokens-join d [] h = unfold tokens_from close in refl
tokens-join d (t ∷ []) h = tokens_from-Lacks d [] t h.0.0 ∙ close_ne t [] h.0.1
tokens-join d (t ∷ u ∷ ts) h =
    tokens_from-append d [] t (join d (u ∷ ts)) h.0.0
    ∙ close_ne t _ h.0.1
    ∙ ap (◌∷◌ t) (tokens-join d (u ∷ ts) h.1)
