-- ===== src/Tests/Shared.antt =====
-- Two users of project2/np_multi_proc.cpp talk and hand over a FIFO.
use network_programming_demo.Prelude.{
  All, ◌≤◌, ◌<◌, List, [], ◌∷◌, ◌++◌, none, some, true, length, get_elem?, set, replicate, ◌≡◌,
  refl, ◌≢◌, ◌↔◌, ◌⊎◌, arith, ◌+◌, ◌*◌, false,
}
use network_programming_demo.Prelude.Int.{pos}
use network_programming_demo.Text.Bytes.{Bytes, codes}
use network_programming_demo.Text.Decimal.{atoi, to_string}
use network_programming_demo.Chat.UserPipe.{has_pipe}
use network_programming_demo.Shared.Mailbox.{Slots}
use network_programming_demo.Shared.Mailbox.Refine.{post, read, run, run_queue, run_refines}
use network_programming_demo.Shared.State.{
  Client, Shm, Effect, printed, unlinked, initial, no_client, no_fifo, sig_usr1, written, broadcast,
  cut,
}
use network_programming_demo.Shared.Users.{
  settle, add_client, yelled, told, left, removed, rm_user, execute_yell, execute_tell,
}
use network_programming_demo.Shared.Users.Bounds.{execute_tell_overflow}
use network_programming_demo.Shared.Delivery.{broadcast_arrives, broadcast_lost}
use network_programming_demo.Shared.Fifo.{
  Os, refused, passed, offer, receive, finish, sig_usr2, fifo_name, received_text,
}
use network_programming_demo.Shared.Fifo.RoundTrip.{fifo_round_trip}
use network_programming_demo.Shared.Fifo.Stale.{stale_fifo_refuses}
use network_programming_demo.Simple.Table.{find_output, initial as initial_table}
use network_programming_demo.Simple.Line.{Line}
use network_programming_demo.Simple.Exec
use network_programming_demo.Shared.Exec.{Act, Process, number_target, job, stages, do_exec}
use network_programming_demo.Shared.Exec.Joined.{WritesTo, joined_line}
use network_programming_demo.Shared.Exec.Laws.{do_exec-IsShm}
use network_programming_demo.Shared.Reach.{arrive, start, next, step}
use network_programming_demo.Shared.Reach.Invariant.{
  IsBox, IsClient, IsShm, IsMsg, set-IsShm, posted-IsClient,
}
use network_programming_demo.Shared.Reach.Laws.{
  Reach-IsShm, initial-IsShm, no_client-IsClient, settle-IsClient, All-replicate,
}

run_refines_example :
    run (replicate 2 []) (post (codes "a") ∷ post (codes "b") ∷ post (codes "c") ∷ read ∷ [])
    ≡ run_queue 2 [] (post (codes "a") ∷ post (codes "b") ∷ post (codes "c") ∷ read ∷ [])
run_refines_example =
    run_refines (post (codes "a") ∷ post (codes "b") ∷ post (codes "c") ∷ read ∷ [])
      (replicate 2 []) (refl, tt) ((λ e. cc), ((λ e. cc), ((λ e. cc), (tt, tt))))

abbrev alice : Client
alice = settle 0 101 (codes "10.0.0.1") 1001 no_client

abbrev bob : Client
bob = settle 1 102 (codes "10.0.0.2") 1002 no_client

abbrev hall : Shm
hall = set (set initial 0 alice) 1 bob

alice_settled : IsClient 0 alice
alice_settled = settle-IsClient 0 101 (codes "10.0.0.1") 1001 no_client (no_client-IsClient 0)

bob_settled : IsClient 1 bob
bob_settled = settle-IsClient 1 102 (codes "10.0.0.2") 1002 no_client (no_client-IsClient 1)

hall-IsShm : IsShm hall
hall-IsShm =
    set-IsShm 1 (set initial 0 alice) bob (set-IsShm 0 initial alice initial-IsShm alice_settled)
      bob_settled

abbrev os : Os
os = record { mkfifo = λ name. true; open_fd = λ name. 7 }

Reach-IsShm_example : IsShm (add_client 101 (codes "10.0.0.1") 1001 initial).0.0
Reach-IsShm_example =
    Reach-IsShm {os = os} (next 0 (arrive 101 (codes "10.0.0.1") 1001) start arrived)
  where
    arrived :
        step os 0 (arrive 101 (codes "10.0.0.1") 1001) initial
        ≡ some (add_client 101 (codes "10.0.0.1") 1001 initial).0.0
    arrived = unfold step in refl

hi-IsMsg : IsMsg (codes "hi")
hi-IsMsg = record { nonempty = λ e. cc; short = omega arith }

broadcast_arrives_example :
    (d' : Client) × (before after : List Bytes) × (get_elem? (broadcast 0 (codes "hi") hall).0 1
      ≡ some d')
    × ((sig_usr1 bob).1 ≡ written (before ++ after))
    × ((sig_usr1 d').1 ≡ written (before ++ codes "hi" ∷ after))
broadcast_arrives_example =
    broadcast_arrives 0 1 (codes "hi") hall bob (replicate 10 []) hall-IsShm hi-IsMsg refl
      (omega arith) (omega arith) refl (omega arith)

abbrev full_box : Slots
full_box = replicate 10 (codes "x")

full_box-IsBox : IsBox full_box
full_box-IsBox = record {
  sized = refl;
  packed = tt;
  fits = All-replicate (λ (s : Bytes). length s ≤ 1024) 10 (codes "x") (omega arith);
}

abbrev deaf : Client
deaf = record bob { msg = set bob.msg 0 full_box }

broadcast_lost_example :
    let (others, effects) = broadcast 0 (codes "hi") (set (set hall 1 deaf) 1 no_client) in
    broadcast 0 (codes "hi") (set hall 1 deaf) ≡ (set others 1 deaf, effects)
broadcast_lost_example =
    broadcast_lost 0 1 (codes "hi") (set hall 1 deaf) deaf full_box
      (set-IsShm 1 hall deaf hall-IsShm
        (posted-IsClient 0 1 bob full_box bob_settled full_box-IsBox))
      hi-IsMsg refl (omega arith) (omega arith) refl refl

fifo_round_trip_example :
    let name = fifo_name 1 2 in
    (es es' : List Effect) × (shm1 shm3 shm4 : Shm) × (d1 d4 : Client) × (offer os 0
        (pos 2)
        (codes "cat >2")
        0
        hall
      ≡ some (passed (shm1, es) 0 7))
    × (get_elem? shm1 1 ≡ some d1)
    × (receive 1 (pos 1) (codes "cat <1") (set shm1 1 (sig_usr2 os d1).0)
        ≡ some (passed (shm3, es') 7 0))
    × (finish 1 0 7 0 shm3 ≡ some (shm4, unlinked name ∷ []))
    × (get_elem? shm4 1 ≡ some d4)
    × (get_elem? d4.fifo 0 ≡ some no_fifo)
fifo_round_trip_example =
    fifo_round_trip os 0 1 alice bob no_fifo (codes "cat >2") (codes "cat <1") hall (omega arith)
      refl refl refl (omega arith) (omega arith) (omega arith) (omega arith) refl refl (omega arith)
      (unfold received_text to_string in omega arith)

abbrev reader : Client
reader = record bob { fifo = set bob.fifo 0 (record { fd = 7; filename = codes "f" }) }

stale_fifo_refuses_example :
    let out = removed 0 alice.fifo (broadcast 0 (cut (left alice.nickname)) (set hall 1 reader)) in
    let shm' = (add_client 103 (codes "10.0.0.3") 1003 out.0).0.0 in
    offer os 0 (pos 2) (codes "cat >2") 0 shm' ≡ some (refused (shm', printed (has_pipe 1 2) ∷ []))
stale_fifo_refuses_example =
    let out = removed 0 alice.fifo (broadcast 0 (cut (left alice.nickname)) (set hall 1 reader)) in
    stale_fifo_refuses os 0 1 7 103 1003 0 (codes "f") (codes "10.0.0.3") (codes "cat >2")
      (set hall 1 reader) reader out
      (record { owner = reader; there = refl; id = refl; nickname = refl; entry = refl })
      (omega arith) (omega arith) (omega arith) (omega arith) gone seated
  where
    gone :
        rm_user 0 (set hall 1 reader)
        ≡ some (removed 0 alice.fifo (broadcast 0 (cut (left alice.nickname)) (set hall 1 reader)))
    gone = unfold rm_user in refl

    seated :
        (add_client 103
          (codes "10.0.0.3")
          1003
          (removed 0 alice.fifo (broadcast 0 (cut (left alice.nickname)) (set hall 1 reader))).0).1
        ≡ some 0
    seated = unfold add_client removed broadcast in refl

execute_tell_overflow_example :
    (execute_tell 0 (codes "tell" ∷ codes "31" ∷ codes "hi" ∷ []) hall ≡ none) ↔ (
      (get_elem? hall 30 ≡ none)
      ⊎ ((d : Client) × (get_elem? hall 30 ≡ some d)
          × (d.id ≢ 0)
          × (1024 < length (told (codes "(no name)") (codes "hi")))))
unfolding atoi
execute_tell_overflow_example =
    execute_tell_overflow 0 hall alice refl (codes "tell") (codes "31") (codes "hi") [] 30 refl

-- A line of alice's process.
abbrev process : Process
process = record { shm = hall; table = initial_table; made = 0 }

abbrev pipes : network_programming_demo.Simple.Exec.Os
pipes = record { pipe_end = λ k. (10 + 2 * k, 11 + 2 * k); malloc = λ k. (0, 0) }

ran_yell : List Act × Process
unfolding do_exec
ran_yell = elim (do_exec pipes os 0 [] (codes "bin:.") (codes "yell hi") process) [
  | none ↦ ([], process)
  | some r ↦ r
]

ran_yell_lem : do_exec pipes os 0 [] (codes "bin:.") (codes "yell hi") process ≡ some ran_yell
unfolding do_exec ran_yell execute_yell yelled finish broadcast
ran_yell_lem = refl

do_exec-IsShm_example : IsShm ran_yell.1.shm
do_exec-IsShm_example =
    do_exec-IsShm pipes os 0 [] (codes "bin:.") (codes "yell hi") process ran_yell hall-IsShm
      ran_yell_lem

-- "ls | cat |1" while an entry waits that is to be read after one more line.
abbrev joining : Line
joining = record {
  commands = codes "ls " ∷ codes " cat " ∷ [];
  n_pipe_err = false;
  pipe_number = some (pos 1);
}

abbrev waiting : Process
waiting = record {
  shm = hall;
  table = record {
    entries = record { input_count = pos 2; input_num = 8; output_num = 9 } ∷ [];
    pos = 0;
  };
  made = 0;
}

abbrev numbers : network_programming_demo.Simple.Exec.Os
numbers = record { pipe_end = λ k. (10 + 2 * k, 11 + 2 * k); malloc = λ k. (0, 0) }

joined_line_example :
    let (target, t) = number_target joining waiting.table in
    All
      (WritesTo 9)
      (stages numbers
        (job (codes "bin:.") joining target 0 0)
        true
        0
        (codes "ls ")
        (codes " cat " ∷ [])
        (record waiting { table = t })).0
joined_line_example =
    joined_line numbers (codes "bin:.") joining (pos 1) 9 0 (codes "ls ") (codes " cat " ∷ [])
      waiting refl (unfold find_output in refl) (omega arith)
