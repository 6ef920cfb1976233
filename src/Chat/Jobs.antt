-- ===== src/Chat/Jobs.antt =====
-- project2/np_single_proc.cpp: `client_pipe` and `pos`, the numbered pipes of all users. The size of 2048
-- is that of the list.
pub mod Laws
use network_programming_demo.Prelude.{
  ℕ, zero, suc, ◌+◌, List, [], ◌∷◌, Option, none, some, Bool, true, ◌==◌, ◌&&◌, ltb, if◌then◌else◌,
  replicate, get_elem?, set,
}
use network_programming_demo.Prelude.Int.{ℤ, pos, succ, pred, ◌==ℤ◌}

-- `pipe_info`.
pub record PipeInfo : Type 0 where
  pub input_num : ℕ
  pub input_count : ℤ
  pub output_num : ℕ
  pub fd : ℕ

pub record Jobs : Type 0 where
  pub client_pipe : List PipeInfo
  pub pos : ℕ

-- The zeroed globals.
abbrev pub initial : Jobs
initial = record {
  client_pipe =
      replicate 2048 (record { input_num = 0; input_count = pos 0; output_num = 0; fd = 0 });
  pos = 0;
}

-- `for (i = 0; i < MAX_PIPE_NUM - 1; i++)`: the output of the first entry of the socket with the count.
unfoldable pub find_output : ℕ → ℕ → ℤ → List PipeInfo → Option ℕ
find_output zero fd count es = none
find_output (suc n) fd count [] = none
find_output (suc n) fd count (e ∷ es) =
    let rest = find_output n fd count es in
    if (e.input_count ==ℤ count) && e.fd == fd then some e.output_num else rest

-- `client_pipe[pos].input_count = pipe_number + 1; client_pipe[pos].fd = sockfd;`
unfoldable pub reserve : ℕ → ℤ → Jobs → Jobs
reserve fd count t = elim (get_elem? t.client_pipe t.pos) [
  | none ↦ t
  | some e ↦ record t {
    client_pipe = set t.client_pipe t.pos (record e { input_count = count; fd = fd });
  }
]

-- The target of a line with a number: the write end of a pipe that waits for the same line, or a new
-- entry.
unfoldable pub number_target : ℕ → ℤ → Jobs → Option ℕ × Jobs
unfolding find_output reserve
number_target fd n t = elim (find_output 2047 fd (succ n) t.client_pipe) [
  | some o ↦ (some o, t)
  | none ↦ (none, reserve fd (succ n) t)
]

-- The input that a line takes, its output, and whether it takes one.
pub record Source : Type 0 where
  pub input : ℕ
  pub output : ℕ
  pub enter : Bool

-- `for (j = 0; j < 1000; j++)`: the last entry of the socket that counts 1 is taken, and the socket's
-- entries count down.
unfoldable pub count_down : ℕ → ℕ → Source → List PipeInfo → Source × List PipeInfo
count_down zero fd s es = (s, es)
count_down (suc n) fd s [] = (s, [])
count_down (suc n) fd s (e ∷ es) =
    let taken : Source = record { input = e.input_num; output = e.output_num; enter = true } in
    let s' = if (e.input_count ==ℤ pos 1) && e.fd == fd then taken else s in
    let (found, rest) = count_down n fd s' es in
    let counted = record e { input_count = pred e.input_count } in
    if e.fd == fd then (found, counted ∷ rest) else (found, e ∷ rest)

unfoldable pub store : ℕ → ℕ → Jobs → Jobs
store input output t = record {
  client_pipe = elim (get_elem? t.client_pipe t.pos) [
    | none ↦ t.client_pipe
    | some e ↦ set t.client_pipe t.pos (record e { input_num = input; output_num = output })
  ];
  pos = if ltb 1000 (t.pos + 1) then 0 else t.pos + 1;
}

abbrev pub reserved : ℕ → Option ℤ → Jobs → Option ℕ × Jobs
reserved fd none t = (none, t)
reserved fd (some n) t = number_target fd n t
