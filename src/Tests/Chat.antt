-- ===== src/Tests/Chat.antt =====
-- Users of project2/np_single_proc.cpp talk, name themselves, pipe, come and go.
use network_programming_demo.Prelude.{List, [], ◌∷◌, none, some, replicate, ◌≡◌, refl, arith}
use network_programming_demo.Prelude.Int.{pos}
use network_programming_demo.Text.Bytes.{Bytes, codes}
use network_programming_demo.Text.Decimal.{atoi}
use network_programming_demo.Chat.State.{
  EnvMap, Server, no_client, initial, sockets, to_all, update,
}
use network_programming_demo.Chat.State.Inbox.{inbox}
use network_programming_demo.Chat.Env.{load_env, do_printenv, store, label}
use network_programming_demo.Chat.Env.Laws.{load_env_loses_path}
use network_programming_demo.Chat.Invariant.{IsServer}
use network_programming_demo.Chat.Login.{login, logout, welcome, seat, left, free_index}
use network_programming_demo.Chat.Login.Laws.{newcomer}
use network_programming_demo.Chat.Login.Arrival.{login_lem}
use network_programming_demo.Chat.Login.Departure.{departed, farewell, logout_lem}
use network_programming_demo.Chat.Talk.{execute_name, execute_tell, named}
use network_programming_demo.Chat.Talk.Delivery.{execute_tell_outside}
use network_programming_demo.Chat.UserPipe.{
  refused, passed, keep_pipe, offer, receive, has_pipe, no_pipe, received_text, set_pipe,
}
use network_programming_demo.Chat.UserPipe.RoundTrip.{pipe_round_trip}
use network_programming_demo.Chat.Reach.{Event, arrive, rename, step, empty, next}
use network_programming_demo.Chat.Reach.Laws.{Reach-IsServer}
use network_programming_demo.Tests.Hall.{alice, bob, hall, hall-IsTable, hall-IsServer, hall_absent}

abbrev name_bobby : List Bytes
name_bobby = codes "name" ∷ codes "bobby" ∷ []

abbrev renamed : Server
renamed = update hall 1 (record bob { nickname = codes "bobby" })

bob_renames :
    execute_name 5 name_bobby hall
    ≡ some (to_all (4 ∷ 5 ∷ []) (named (codes "10.0.0.2") 1002 (codes "bobby")), renamed)
unfolding execute_name network_programming_demo.Chat.Talk.is_taken
    network_programming_demo.Chat.Talk.last_place sockets
bob_renames = refl

execute_tell_outside_example :
    execute_tell 4 (codes "tell" ∷ codes "0" ∷ codes "hi" ∷ []) hall ≡ none
unfolding atoi
execute_tell_outside_example =
    execute_tell_outside hall 0 alice hall-IsTable refl (omega arith) (codes "tell") (codes "0")
      (codes "hi" ∷ []) (λ r e. absurd (ground arith))

load_env_loses_path_example :
    (m' : Server) × (load_env 5 (codes "A=b") hall ≡ some m')
    × (do_printenv 5 (codes "A") m' ≡ some (codes "b"))
    × (do_printenv 5 (codes "PATH") m' ≡ none)
unfolding label
load_env_loses_path_example =
    load_env_loses_path hall 1 bob no_client (codes "A") (codes "b") (codes "bin:.")
      (replicate 99 []) (replicate 99 []) hall-IsTable refl refl (omega arith) refl refl refl
      ((ground arith), (ground arith)) ((ground arith), (ground arith)) (omega arith) (omega arith)
      refl (ground arith)

login_lem_example :
    (e : EnvMap) × (store no_client.env 0 (codes "PATH") (codes "bin:.") ≡ some e)
    × (login 7 (codes "10.0.0.3") 1003 hall
        ≡ some (
          welcome 7 (codes "10.0.0.3") 1003 hall,
          update
              (seat 7 (codes "10.0.0.3") 1003 2 no_client hall)
              2
              (record (newcomer hall 7 (codes "10.0.0.3") 1003 2 no_client) { env = e }),
        ))
    × IsServer (
        update
          (seat 7 (codes "10.0.0.3") 1003 2 no_client hall)
          2
          (record (newcomer hall 7 (codes "10.0.0.3") 1003 2 no_client) { env = e }))
unfolding free_index network_programming_demo.Chat.State.first_where
login_lem_example =
    login_lem hall 7 (codes "10.0.0.3") 1003 2 no_client hall-IsServer refl refl hall_absent
      no_client (omega arith) refl (omega arith)

logout_lem_example :
    (logout 5 hall
      ≡ some (
        farewell hall 1 bob hall-IsServer refl (omega arith) (omega arith),
        departed hall 1 bob hall-IsServer refl (omega arith) (omega arith),
      ))
    × IsServer (departed hall 1 bob hall-IsServer refl (omega arith) (omega arith))
    × (inbox 4 (farewell hall 1 bob hall-IsServer refl (omega arith) (omega arith))
        ≡ left (codes "(no name)") ∷ [])
logout_lem_example =
    logout_lem hall 1 bob hall-IsServer refl (omega arith) (omega arith) 0 alice refl (omega arith)

abbrev piped : Server
piped = set_pipe 1 2 (record { pipe_fd = 9; flag = 1 }) hall

abbrev taken : Server
taken = set_pipe 1 2 (record { pipe_fd = 9; flag = 0 }) piped

pipe_round_trip_example :
    (keep_pipe 4 (pos 2) 9 hall ≡ some piped)
    × (offer 4 (pos 2) (codes "cat <1") piped ≡ some (refused ((4, has_pipe 1 2) ∷ []) piped))
    × (receive 5 (pos 1) (codes "cat <1") piped
        ≡ some (
            passed
              (to_all
                (sockets hall)
                (received_text (codes "(no name)") 2 (codes "alice") 1 (codes "cat <1")))
              taken
              9))
    × (receive 5 (pos 1) (codes "cat <1") taken ≡ some (refused ((5, no_pipe 1 2) ∷ []) taken))
pipe_round_trip_example =
    pipe_round_trip hall 0 1 alice bob hall-IsTable refl refl (omega arith) (omega arith)
      (omega arith) (omega arith) 9 (codes "cat <1") refl

abbrev to : Server → Event → Server
to m e = elim (step e m) [ none ↦ m | some m' ↦ m' ]

abbrev one_user : Server
one_user = to initial (arrive 4 (codes "10.0.0.1") 1001)

abbrev named_user : Server
named_user = to one_user (rename 4 (codes "name" ∷ codes "alice" ∷ []))

Reach-IsServer_example : IsServer named_user
unfolding login execute_name free_index network_programming_demo.Chat.State.first_where load_env
    network_programming_demo.Text.Tokens.tokens network_programming_demo.Chat.State.client_index
    seat store network_programming_demo.Chat.Talk.is_taken
    network_programming_demo.Chat.Talk.last_place
Reach-IsServer_example = Reach-IsServer {m = named_user} (
    next {m = one_user} {m' = named_user} (rename 4 (codes "name" ∷ codes "alice" ∷ []))
      (next {m = initial} {m' = one_user} (arrive 4 (codes "10.0.0.1") 1001) empty refl) refl)
