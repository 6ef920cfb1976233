-- ===== src/Chat/Env/Laws.antt =====
-- Environments: what `load_env` changes, and how setting a variable makes PATH unreadable.
use network_programming_demo.Prelude.{
  ℕ, zero, suc, ◌+◌, ◌<◌, List, [], ◌∷◌, ◌++◌, Option, none, some, ◌>>=◌, if◌then◌else◌, length,
  get_elem?, ◌≡◌, refl, ◌≢◌, arith, ◌∙◌, inl, inr, Option-cases, get_elem?-set_self, length-set,
}
use network_programming_demo.Text.Bytes.{Bytes, codes, equal, equal_iff}
use network_programming_demo.Text.Tokens.{tokens, tokens-join, IsToken}
use network_programming_demo.Chat.State.{EnvMap, Client, Server, update}
use network_programming_demo.Chat.State.Search.{lt_of_get_elem?}
use network_programming_demo.Chat.State.Table.{IsTable, client_index_of, update-IsTable}
use network_programming_demo.Chat.Env.{
  label, label_from, copy, store, key_and_value, load_env, do_printenv,
}

-- An assignment as it stands in the argument.
abbrev pub assignment : Bytes → Bytes → Bytes
assignment key val = key ++ b'=' ∷ val

tokens-assignment :
    (key val : Bytes)
    → IsToken b'=' key
    → IsToken b'=' val
    → tokens b'=' (assignment key val) ≡ key ∷ val ∷ []
tokens-assignment key val k v = tokens-join b'=' (key ∷ val ∷ []) (k, (v, tt))

module _ (m : Server) (i : ℕ) (c d : Client) (t : IsTable m) (here : get_elem? m.clients i ≡ some c)
    (live : c.fd ≢ 0) where
  -- `load_env` for a user, with the user in the following place.
  pub load_env_lem :
      (env_str key val : Bytes)
      → key_and_value (tokens b'=' env_str) ≡ some (key, val)
      → get_elem? m.clients (i + 1) ≡ some d
      → load_env c.fd env_str m
        ≡ (store c.env d.env.env_num key val >>= λ e. some (update m i (record c { env = e })))
  unfolding load_env
  load_env_lem env_str key val kv next =
      rw (kv, client_index_of m i c.fd c t here refl live, here, next)

-- The arrays of an environment have their size.
pub record IsEnv (e : EnvMap) : Type 0 where
  pub keys : length e.key ≡ 100
  pub values : length e.value ≡ 100

abbrev pub Stores : EnvMap → Option EnvMap → Type 0
Stores e none = Unit
Stores e (some e') = IsEnv e → IsEnv e'

store-Stores : (e : EnvMap) (next : ℕ) (key val : Bytes) → Stores e (store e next key val)
unfolding store copy
store-Stores e next key val = elim (Option-cases (label key e)) [
  | inr (k, h) ↦ rw (h, store) (ground (arith, length-set e.value k val))
  | inl h ↦ rw (h, store) (ground (arith, length-set e.key next key, length-set e.value next val))
]

label_from-lt :
    (key : Bytes) (i n : ℕ) (keys : List Bytes) (j : ℕ)
    → label_from key i n keys ≡ some j
    → j < i + length keys
unfolding label_from
label_from-lt key i zero keys j h = cc
label_from-lt key i (suc n) [] j h = cc
label_from-lt key i (suc n) (k ∷ keys) j h = ground (arith, label_from-lt key (i + 1) n keys j)

-- A short variable is stored, in an environment of the arrays' size and with a place in reach.
pub store_total :
    (e : EnvMap) (next : ℕ) (key val : Bytes)
    → IsEnv e
    → next < 100
    → length key < 100
    → length val < 100
    → (e' : EnvMap) × (store e next key val ≡ some e') × IsEnv e'
store_total e next key val v n hk hv = elim (Option-cases (store e next key val)) [
  | inr (e', h) ↦ (e', h, rw h at (store-Stores e next key val) v)
  | inl h ↦ absurd (fails h)
]
  where
    fails : store e next key val ≢ none
    fails h =
        unfold store copy label in
        elim (Option-cases (label_from key 0 e.env_num e.key)) [
          | inr (k, q) ↦ ground (arith, label_from-lt key 0 e.env_num e.key k q)
          | inl q ↦ ground arith
        ]

abbrev pub Changes : Server → ℕ → Client → Option Server → Type 0
Changes m i c none = Unit
Changes m i c (some m') = (e : EnvMap) × (m' ≡ update m i (record c { env = e })) × IsEnv e

store-Changes :
    (m : Server) (i : ℕ) (c : Client) (o : Option EnvMap)
    → IsEnv c.env
    → Stores c.env o
    → Changes m i c (o >>= λ e. some (update m i (record c { env = e })))
store-Changes m i c none k h = tt
store-Changes m i c (some e) k h = (e, refl, h k)

-- Nothing but the environment of the user is changed, and its arrays keep their size.
pub load_env-Changes :
    (m : Server) (i : ℕ) (c : Client) (env_str : Bytes)
    → IsTable m
    → get_elem? m.clients i ≡ some c
    → c.fd ≢ 0
    → IsEnv c.env
    → Changes m i c (load_env c.fd env_str m)
load_env-Changes m i c env_str t p v k = elim (Option-cases (key_and_value (tokens b'=' env_str))) [
  | inl e ↦ unfold load_env in rw (e, load_env) tt
  | inr ((key, val), e) ↦ elim (Option-cases (get_elem? m.clients (i + 1))) [
    | inl f ↦ unfold load_env in rw (e, client_index_of m i c.fd c t p refl v, p, f) tt
    | inr (d, f) ↦ rw (load_env_lem m i c d t p v env_str key val e f) (
        store-Changes m i c (store c.env d.env.env_num key val) k
          (store-Stores c.env d.env.env_num key val))
  ]
]

store_new :
    (e : EnvMap) (key val k0 v0 : Bytes) (ks vs : List Bytes)
    → label key e ≡ none
    → e.key ≡ k0 ∷ ks
    → e.value ≡ v0 ∷ vs
    → length key < 100
    → length val < 100
    → store e 0 key val
      ≡ some (record { env_num = e.env_num + 1; key = key ∷ ks; value = val ∷ vs })
unfolding store copy
store_new e key val k0 v0 ks vs l k v hk hv = ground arith

do_printenv_first :
    (m : Server) (i : ℕ) (c : Client) (key k0 v0 : Bytes) (ks vs : List Bytes)
    → IsTable m
    → get_elem? m.clients i ≡ some c
    → c.fd ≢ 0
    → 0 < c.env.env_num
    → c.env.key ≡ k0 ∷ ks
    → c.env.value ≡ v0 ∷ vs
    → do_printenv c.fd key m ≡ (if equal k0 key then some v0 else none)
unfolding do_printenv
do_printenv_first m i c key k0 v0 ks vs t p v n k w =
    ground (arith, client_index_of m i c.fd c t p refl v)

-- The bug: while the user in the following place has no variable, `setenv` of a new variable writes
-- over the caller's first one. So after it `printenv` answers for the new variable, and PATH, which
-- every command looks up, is an uninitialised pointer.
pub load_env_loses_path :
    (m : Server) (i : ℕ) (c d : Client) (key val v0 : Bytes) (ks vs : List Bytes)
    → IsTable m
    → get_elem? m.clients i ≡ some c
    → get_elem? m.clients (i + 1) ≡ some d
    → c.fd ≢ 0
    → d.env.env_num ≡ 0
    → c.env.key ≡ codes "PATH" ∷ ks
    → c.env.value ≡ v0 ∷ vs
    → IsToken b'=' key
    → IsToken b'=' val
    → length key < 100
    → length val < 100
    → label key c.env ≡ none
    → key ≢ codes "PATH"
    → (m' : Server) × (load_env c.fd (assignment key val) m ≡ some m')
      × (do_printenv c.fd key m' ≡ some val)
      × (do_printenv c.fd (codes "PATH") m' ≡ none)
load_env_loses_path m i c d key val v0 ks vs t p q v n k w tk tv hk hv l ne =
    let env : EnvMap = record { env_num = c.env.env_num + 1; key = key ∷ ks; value = val ∷ vs } in
    let c' : Client = record c { env = env } in
    let m' = update m i c' in
    let t' = update-IsTable m i c c' t p (inl refl) in
    let at : get_elem? m'.clients i ≡ some c' =
      get_elem?-set_self m.clients i c' (lt_of_get_elem? m.clients i c p) in
    let kv : key_and_value (tokens b'=' (assignment key val)) ≡ some (key, val) =
      rw (tokens-assignment key val tk tv) in
    let first =
      λ (x : Bytes). do_printenv_first m' i c' x key val ks vs t' at v (omega arith) refl refl in
    (
      m',
      load_env_lem m i c d t p v (assignment key val) key val kv q
          ∙ rw (n, store_new c.env key val (codes "PATH") v0 ks vs l k w hk hv),
      first key ∙ rw ((equal_iff key key).1 refl),
      first (codes "PATH") ∙ ground (arith, equal_iff key (codes "PATH")),
    )
