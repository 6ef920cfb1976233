-- ===== src/Web/Client/Laws.antt =====
-- What a console sends to its shell through the proxy, and when.
use network_programming_demo.Prelude.{
  ℕ, suc, List, [], ◌∷◌, ◌++◌, map, append_assoc, append-nil, none, some, >>=-eq-some, Bool, true,
  false, get_elem?, take, drop, ◌≡◌, refl, subst, sym, ◌∙◌, ap, arith, Bool-cases, inl, inr, ◌⊎◌,
  Option-cases, ◌==◌, if◌then◌else◌,
}
use network_programming_demo.Text.Bytes.{Bytes}
use network_programming_demo.Web.Console.{Session, start, do_write, has_prompt, next_command}
use network_programming_demo.Web.Console.Transcript.{typed}
use network_programming_demo.Web.Proxy.{do_request, do_open_test_case}
use network_programming_demo.Web.Screen.{Screen, block, eof, failed, c_string, read_into, answered}
use network_programming_demo.Web.Client.{
  Setup, Client, Event, resolved, connected, replied, shell, connecting, asking, ended, talking,
  advance, showing, fresh, run,
}

-- One handler sends nothing, or the next command.
SendsOne : Session → Session → Type 0
SendsOne s s' =
    ((s'.sent ≡ s.sent) × (s'.cmd_str ≡ s.cmd_str))
    ⊎ ((s'.sent ≡ s.sent ++ next_command s.cmd_str) × (s'.cmd_str ≡ drop 1 s.cmd_str))

answered-SendsOne :
    (str : Bytes) (s : Session) → SendsOne s (record (answered str s) { reading = true })
unfolding SendsOne do_write
answered-SendsOne str s = elim (Bool-cases (has_prompt str)) [
  | inl p ↦ rw p (inr (refl, refl))
  | inr p ↦ rw p (inl (refl, refl))
]

handled :
    (s : Session) {v w : Screen} → some v ≡ some w → SendsOne s v.session → SendsOne s w.session
handled s {v = v} {w = w} e h = subst (SendsOne s) {x = v.session} {y = w.session} (cc) h

step-SendsOne :
    (e : network_programming_demo.Web.Screen.Event) (v w : Screen)
    → network_programming_demo.Web.Screen.step e v ≡ some w
    → SendsOne v.session w.session
unfolding SendsOne network_programming_demo.Web.Screen.step
step-SendsOne (block bytes) v w e =
    let (str, _, f) = >>=-eq-some (c_string (read_into bytes v.data_)) _ e in
    handled v.session f (answered-SendsOne str v.session)
step-SendsOne eof v w e =
    let (str, _, f) = >>=-eq-some (c_string v.data_) _ e in handled v.session f (inl (refl, refl))
step-SendsOne (failed message) v w e = handled v.session e (inl (refl, refl))

showing-SendsOne :
    (s : Session) (x : network_programming_demo.Web.Screen.Event) (c d : Client)
    → showing s x c ≡ some d
    → (s' : Session) × (d.phase ≡ talking s') × SendsOne s s'
unfolding showing
showing-SendsOne s x c d e =
    let v : Screen = record { data_ = c.data_; session = s } in
    let (w, f, g) = >>=-eq-some (network_programming_demo.Web.Screen.step x v) _ e in
    (w.session, cc, step-SendsOne x v w f)

refuted : {r : Client} → none ≡ some r → ⊥
refuted e = ground arith

shell_event :
    (u : Setup) (s : Session) (x : network_programming_demo.Web.Screen.Event) (c d : Client)
    → advance u (talking s) (shell x) c ≡ some d
    → showing s x c ≡ some d
unfolding advance
shell_event u s x c d e = ground arith

-- From a session on, only its own events come, and it sends the next commands.
SendsOnly : List Event → Session → Client → Type 0
SendsOnly es s r =
    (rest : List network_programming_demo.Web.Screen.Event) × (n : ℕ) × (s' : Session) × (es
      ≡ map shell rest)
    × (r.phase ≡ talking s')
    × (s'.sent ≡ s.sent ++ typed n s.cmd_str)

sends_first :
    (x : network_programming_demo.Web.Screen.Event) (es : List Event) (s s1 : Session) (r : Client)
    → SendsOne s s1
    → SendsOnly es s1 r
    → SendsOnly (shell x ∷ es) s r
unfolding SendsOne SendsOnly
sends_first x es s s1 r (inl (a, b)) (rest, n, s', same, talks, sends) =
    (x ∷ rest, n, s', ap (λ es. shell x ∷ es) same, talks, sends ∙ cc)
sends_first x es s s1 r (inr (a, b)) (rest, n, s', same, talks, sends) = (
  x ∷ rest,
  suc n,
  s',
  ap (λ es. shell x ∷ es) same,
  talks,
  rw (a, b) at sends ∙ append_assoc s.sent (next_command s.cmd_str) (typed n (drop 1 s.cmd_str)),
)

run-SendsOnly :
    (u : Setup) (es : List Event) (c : Client) (s : Session) (r : Client)
    → c.phase ≡ talking s
    → run u es c ≡ some r
    → SendsOnly es s r
unfolding SendsOnly run advance
run-SendsOnly u [] c s r p e = ([], 0, s, refl, cc, sym (append-nil s.sent))
run-SendsOnly u (shell x ∷ es) c s r p e =
    let (d, f, g) = >>=-eq-some (advance u (talking s) (shell x) c) (run u es) (rw p at e) in
    let (s1, q, h) = showing-SendsOne s x c d (shell_event u s x c d f) in
    sends_first x es s s1 r h (run-SendsOnly u es d s1 r q g)
run-SendsOnly u (resolved b ∷ es) c s r p e = absurd (refuted (rw p at e))
run-SendsOnly u (connected b ∷ es) c s r p e = absurd (refuted (rw p at e))
run-SendsOnly u (replied b ∷ es) c s r p e = absurd (refuted (rw p at e))

ended_stays :
    (u : Setup) (es : List Event) (c r : Client) (s : Session)
    → c.phase ≡ ended
    → run u es c ≡ some r
    → r.phase ≡ talking s
    → ⊥
unfolding run advance
ended_stays u [] c r s p e t = cc
ended_stays u (x ∷ es) c r s p e t = refuted (rw p at e)

tested :
    (b : Bool) (x y : Session)
    → (if b then some x else none) ≡ some y
    → (b ≡ true) × (y.sent ≡ x.sent) × (y.cmd_str ≡ x.cmd_str)
tested true x y e = (refl, cc, cc)
tested false x y e = absurd (ground arith)

opened_lem :
    (reply id : Bytes) (lines : List Bytes) (s : Session)
    → do_open_test_case reply id lines ≡ some s
    → (get_elem? reply 1 ≡ some 90) × (s.sent ≡ []) × (s.cmd_str ≡ lines)
unfolding do_open_test_case start
opened_lem reply id lines s e =
    let (status, f, g) = >>=-eq-some (get_elem? reply 1) _ e in
    let (b, sent, left) = tested (status == 90) (start id lines) s g in
    (ground (arith, f, b), sent, left)

connected_lem :
    (u : Setup) (c d : Client)
    → advance u connecting (connected none) c ≡ some d
    → (d.phase ≡ asking) × (d.data_ ≡ c.data_)
unfolding advance
connected_lem u c d e =
    let (endpoint, _, f) = >>=-eq-some u.endpoint _ e in
    let (request, _, g) = >>=-eq-some (do_request endpoint.0 endpoint.1) _ f in (cc, cc)

granted_sent :
    (r : Client) (s1 s s' : Session) (n : ℕ) (lines : List Bytes)
    → s1.cmd_str ≡ lines
    → s1.sent ≡ []
    → s'.sent ≡ s1.sent ++ typed n s1.cmd_str
    → r.phase ≡ talking s'
    → r.phase ≡ talking s
    → s.sent ≡ typed n lines
granted_sent r s1 s s' n lines l h k p q =
    let same : s.sent ≡ s'.sent = cc in same ∙ k ∙ (rw (h, l) refl)

-- What has come of the reply on, where a session is in progress.
Granted : Setup → List Event → Bytes → Session → Type 0
Granted u es data_ s =
    (bytes : Bytes) × (rest : List network_programming_demo.Web.Screen.Event) × (n : ℕ) × (es
      ≡ replied (some bytes) ∷ map shell rest)
    × (get_elem? (read_into (take 8 bytes) data_) 1 ≡ some 90)
    × (s.sent ≡ typed n u.lines)

asking-Granted :
    (u : Setup) (es : List Event) (c r : Client) (s : Session)
    → c.phase ≡ asking
    → run u es c ≡ some r
    → r.phase ≡ talking s
    → Granted u es c.data_ s
unfolding run advance Granted SendsOnly
asking-Granted u [] c r s p e t = absurd (cc)
asking-Granted u (resolved b ∷ es) c r s p e t = absurd (refuted (rw p at e))
asking-Granted u (connected b ∷ es) c r s p e t = absurd (refuted (rw p at e))
asking-Granted u (shell b ∷ es) c r s p e t = absurd (refuted (rw p at e))
asking-Granted u (replied none ∷ es) c r s p e t =
    absurd (ended_stays u es (record c { phase = ended }) r s refl (rw p at e) t)
asking-Granted u (replied (some bytes) ∷ es) c r s p e t =
    let data_ = read_into (take 8 bytes) c.data_ in
    elim (Option-cases (do_open_test_case data_ u.session_id u.lines)) [
      | inl refused ↦ absurd (
          ended_stays u es (record c { phase = ended; data_ = data_ }) r s refl
            (rw (p, advance, refused) at e) t)
      | inr (s1, granted) ↦
          let (status, sent, lines) = opened_lem data_ u.session_id u.lines s1 granted in
          let (rest, n, s', same, talks, sends) =
            run-SendsOnly u es (record c { phase = talking s1; data_ = data_ }) s1 r refl
              (rw (p, advance, granted) at e) in
          (
            bytes,
            rest,
            n,
            ap (λ es. replied (some bytes) ∷ es) same,
            status,
            granted_sent r s1 s s' n u.lines lines sent sends talks t,
          )
    ]

connecting-Granted :
    (u : Setup) (es : List Event) (c r : Client) (s : Session)
    → c.phase ≡ connecting
    → run u es c ≡ some r
    → r.phase ≡ talking s
    → (later : List Event) × (es ≡ connected none ∷ later) × Granted u later c.data_ s
unfolding run advance
connecting-Granted u [] c r s p e t = absurd (cc)
connecting-Granted u (resolved b ∷ es) c r s p e t = absurd (refuted (rw p at e))
connecting-Granted u (replied b ∷ es) c r s p e t = absurd (refuted (rw p at e))
connecting-Granted u (shell b ∷ es) c r s p e t = absurd (refuted (rw p at e))
connecting-Granted u (connected (some m) ∷ es) c r s p e t =
    absurd (ended_stays u es (record c { phase = ended; out = _ }) r s refl (rw p at e) t)
connecting-Granted u (connected none ∷ es) c r s p e t =
    let (d, f, g) = >>=-eq-some (advance u connecting (connected none) c) (run u es) (rw p at e) in
    let (q, same) = connected_lem u c d f in
    (es, refl, subst (λ data_. Granted u es data_ s) same (asking-Granted u es d r s q g t))

-- A console that talks to its shell has been through the whole exchange: the proxy was found and connected
-- to, a read of its reply has left 90 in the second byte of the array, be it of the reply or from before,
-- and only then did reads from the shell come. The shell has got nothing but the first lines of the test case in their order, and
-- empty lines behind the last one.
pub run-typed :
    (u : Setup) (es : List Event) (data_ : Bytes) (r : Client) (s : Session)
    → run u es (fresh data_) ≡ some r
    → r.phase ≡ talking s
    → (bytes : Bytes) × (rest : List network_programming_demo.Web.Screen.Event) × (n : ℕ) × (es
        ≡ resolved true ∷ connected none ∷ replied (some bytes) ∷ map shell rest)
      × (get_elem? (read_into (take 8 bytes) data_) 1 ≡ some 90)
      × (s.sent ≡ typed n u.lines)
unfolding run advance Granted
run-typed u [] data_ r s e t = absurd (cc)
run-typed u (resolved true ∷ es) data_ r s e t =
    let (later, same, (bytes, rest, n, same', status, sent)) =
      connecting-Granted u es (record (fresh data_) { phase = connecting }) r s refl e t in
    (
      bytes,
      rest,
      n,
      ap (λ es. resolved true ∷ es) (same ∙ ap (λ es. connected none ∷ es) same'),
      status,
      sent,
    )
run-typed u (resolved false ∷ es) data_ r s e t =
    absurd (ended_stays u es (record (fresh data_) { phase = ended }) r s refl e t)
run-typed u (connected m ∷ es) data_ r s e t = absurd (refuted e)
run-typed u (replied m ∷ es) data_ r s e t = absurd (refuted e)
run-typed u (shell x ∷ es) data_ r s e t = absurd (refuted e)
