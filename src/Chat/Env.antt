-- ===== src/Chat/Env.antt =====
-- project2/np_single_proc.cpp: `load_env` and `do_printenv`.
pub mod Laws
use network_programming_demo.Prelude.{
  ℕ, zero, suc, ◌+◌, List, [], ◌∷◌, Option, none, some, ◌>>=◌, ◌&&◌, ltb, if◌then◌else◌, length,
  get_elem?, set,
}
use network_programming_demo.Text.Bytes.{Bytes, equal}
use network_programming_demo.Text.Tokens.{tokens}
use network_programming_demo.Chat.State.{EnvMap, Server, client_index, update}

-- The first of the `n` keys from `i` on that equals `key`.
label_from : Bytes → ℕ → ℕ → List Bytes → Option ℕ
unfolding equal
label_from key i zero keys = none
label_from key i (suc n) [] = none
label_from key i (suc n) (k ∷ keys) = if equal k key then some i else label_from key (i + 1) n keys

unfoldable pub label : Bytes → EnvMap → Option ℕ
unfolding label_from
label key e = label_from key 0 e.env_num e.key

-- `strcpy` into an array of 100 bytes at an index of 100.
unfoldable pub copy : List Bytes → ℕ → Bytes → Option (List Bytes)
copy texts i text =
    if ltb i (length texts) && ltb (length text) 100 then some (set texts i text) else none

-- The environment of a user after `key=val`; `next` is `env[clientid].env_num`, the count of the user
-- in the following place, at which the code stores a key that is not there yet.
unfoldable pub store : EnvMap → ℕ → Bytes → Bytes → Option EnvMap
unfolding label copy
store e next key val = elim (label key e) [
  | some i ↦ (do values ← copy e.value i val; some (record e { value = values }))
  | none ↦ (do
    keys ← copy e.key next key
    values ← copy e.value next val
    some (record { env_num = e.env_num + 1; key = keys; value = values }))
]

-- `key` and `val` are the first two tokens at "=".
abbrev pub key_and_value : List Bytes → Option (Bytes × Bytes)
key_and_value (key ∷ val ∷ _) = some (key, val)
key_and_value _ = none

unfoldable pub load_env : ℕ → Bytes → Server → Option Server
load_env fd env_str m = do
  (key, val) ← key_and_value (tokens b'=' env_str)
  i ← client_index fd m
  own ← get_elem? m.clients i
  following ← get_elem? m.clients (i + 1)
  env ← store own.env following.env.env_num key val
  some (update m i (record own { env = env }))

-- The loop returns in its first round, `val` set or not.
abbrev first_value : Bytes → ℕ → List Bytes → List Bytes → Option Bytes
first_value key (suc n) (k ∷ _) (v ∷ _) = if equal k key then some v else none
first_value key _ _ _ = none

unfoldable pub do_printenv : ℕ → Bytes → Server → Option Bytes
unfolding equal
do_printenv fd key m = do
  i ← client_index fd m
  own ← get_elem? m.clients i
  first_value key own.env.env_num own.env.key own.env.value
