-- ===== src/Lib.antt =====
-- The Network-Programming-demo repository: a shell with numbered pipes, a chat server, an HTTP server
-- with a web console for shells, a SOCKS4 server, and small text filters.
--
-- Parts, files and sources (paths from the repository's root):
--
--   Prelude, Text      numbers, lists and options; byte texts, searching, decimal numbers, lines as
--                      getline reads them, tokens as strtok cuts them.
--
--   Socks              project4/socks_server.cpp.
--     Socks/Request    socks_info and SOCKS4_parser
--     Socks/Firewall   slicer, match_IP, firewall
--     Socks/Session    session::do_read, do_work, reply_info; the result is the log text and the action:
--                      a rejection, a socks_bridge or a socks_bind with the reply it starts from
--     Socks/Flow       one direction of a relay: its array and its operations in flight
--     Socks/Bridge     socks_bridge: do_resolve, do_connect, do_reply, do_read, do_write
--     Socks/Bind       socks_bind: do_bind, do_accept, do_reply, do_read, do_write
--
--   Chat               project2/np_single_proc.cpp.
--     Chat/State       client_map, env_map, user_pipe_info, and the loops over the table of users
--     Chat/Env         load_env, do_printenv
--     Chat/Login       what main does when a user comes or goes, handle_new_connection(int, sockaddr_in),
--                      broadcast_logout
--     Chat/Talk        execute_who, execute_tell, execute_yell, execute_name
--     Chat/UserPipe    "<n" and ">n": the checks of do_exec, and what parser keeps in the parent
--     Chat/Jobs        client_pipe and pos: the numbered pipes of all users
--     Chat/Command     how do_exec reads a line, its built-in commands, the operands of a child
--     Chat/Exec        do_exec and parser as a whole, handle_new_connection(int)
--     Chat/Invariant   what holds of the server between commands
--     Chat/Reach       main's loop as events: which states the server can come to
--
--   Shared             project2/np_multi_proc.cpp.
--     Shared/State     client, FIFO, the shared array, broadcast, and the handler of SIGUSR1
--     Shared/Mailbox   the ten places for texts from one sender
--     Shared/Users     add_client, rm_user, execute_who, execute_name, execute_yell, execute_tell
--     Shared/Fifo      "<n" and ">n" in do_exec, the handler of SIGUSR2, the end of do_exec
--     Shared/Child     parser, the child of one command
--     Shared/Exec      do_exec as a whole
--     Shared/Delivery  what a broadcast does to each user
--     Shared/Reach     the steps of the processes: which contents the shared memory can come to
--
--   Simple             project2/np_simple.cpp.
--     Simple/Line      split_pipe, split_pipe_error, split_space, split_env, and the front of do_exec
--     Simple/Table     input_count, input_num, output_num and pos
--     Simple/Child     the child of parser: its descriptors, its operands, the programs it tries
--     Simple/Exec      the loop of do_exec and the parent's part of parser; handle_new_connection
--
--   Shell              project1/npshell.cpp.
--     Shell/Scan       the sscanf calls of executeCMD, and the loop of main over a line
--     Shell/Stack      getPipe, makeNewPipe, cleanPipes, and executeCMD: which input and output a
--                      process is started with
--
--   Web                project3, and the console of project4.
--     Web/Request      project3/http_server.cpp, session: slicer, parser, setEnvironment, do_write with
--                      panel, console and other
--     Web/Console      project3/console.cpp: parser, escape, output_shell, output_command, session
--     Web/Proxy        project4/console.cpp: do_request, do_open_test_case; its bytes are read by the
--                      parser of Socks/Request
--     Web/Screen       project4/console.cpp: do_read
--     Web/Client       project4/console.cpp: npshell from start on, do_resolve, do_connect
--
--   Tools              project1/bin: removetag.cpp, removetag0.cpp, number.cpp.
--
--   Tests              runs on concrete inputs and an instance of each theorem.
--
-- How the code is rendered. A session of the SOCKS server is a function from the buffer, the
-- configuration file and a resolver (boost's, a parameter) to an action. A relay is a state with counts
-- of the asynchronous operations in flight; a step is the completion of one of them, by success or by
-- error, and runs its handler. The order of completions is free, so a theorem over Reach is over all
-- interleavings. The chat server is one process: a command is a function from the table of users to the
-- writes it makes, in their order, and the new table; an event is one service of a socket by main, and
-- Reach is over all orders of them. The server with a
-- process for each user is the shared array with steps of single processes, which are not cut: a command
-- returns the new array and the calls that the process makes. A command of npshell is an action and
-- what the shell closes, with descriptors by their numbers, as `pipe` gives them, and the new stack
-- of pipes. What a number stands for by then is left open, but Shell/Stack/Open says which numbers are
-- closed. The writes go through standard output, which is
-- taken to be flushed at each newline, as on a terminal. Sockets are numbers, 0 is a free place. The
-- result none stands for what C++ leaves undefined or throws: an access outside an array, a null
-- operand, an uninitialised pointer, a copy that does not fit, an exception of stoi or of the resolver.
--
-- Fuel: the loop of match_IP is given one round more than the rule has bytes, and a round cuts at least
-- one byte or is the last; the loop of npshell over a line has one round more than the line has bytes,
-- and each rest is shorter than what it was cut from; the query parser has as many, for the same
-- reason; to_string is given one round per unit of the number, more than it has digits.
--
-- Bounds: ports are taken modulo 2 ^ 16 where the code stores them in a u_short; counts of users and
-- variables keep the arrays' sizes of 60 and 100. The number of a numbered pipe
-- in project2 is a long cut to an int; the int that atoi and sscanf return elsewhere is not cut at 32
-- bits.
--
-- Not modelled: sockets, fork, select and exec themselves; the accept loops; what a server prints on its
-- own terminal, except the log text of the SOCKS server; the overflow of the array of 20 bytes in which
-- parser puts a program's path together; the handlers of the signals that end a process; the fixed
-- page that the consoles print; what goes out of an array that is handed to async_send and is gone by
-- then (the reply of a rejected SOCKS request, the status line of http_server).
pub mod Chat
pub mod Prelude
pub mod Shared
pub mod Shell
pub mod Simple
pub mod Socks
pub mod Tests
pub mod Text
pub mod Tools
pub mod Web
