-- ===== src/Chat/UserPipe/RoundTrip.antt =====
-- A pipe between users from the one who stores it to the one who reads it.
use network_programming_demo.Prelude.{
  ℕ, suc, ◌+◌, ◌-◌, ◌<◌, [], ◌∷◌, some, get_elem?, ◌≡◌, refl, subst, ◌≢◌, arith, ap, ◌∙◌,
}
use network_programming_demo.Prelude.Int.{pos}
use network_programming_demo.Text.Bytes.{Bytes}
use network_programming_demo.Chat.State.{Client, UserPipe, Server, sockets, to_all}
use network_programming_demo.Chat.State.Table.{IsTable}
use network_programming_demo.Chat.UserPipe.{
  refused, passed, set_pipe, received_text, no_pipe, has_pipe, receive, offer, keep_pipe,
}
use network_programming_demo.Chat.UserPipe.Laws.{own, partner_user, set_pipe_at, set_pipe-IsTable}

-- `<` by a user, from a user: what it does is read off the pipe between the two.
module _ (m : Server) (i j : ℕ) (c d : Client) (t : IsTable m)
    (from : get_elem? m.clients i ≡ some c) (to : get_elem? m.clients j ≡ some d) (live : c.fd ≢ 0)
    (live' : d.fd ≢ 0) (row : i < 30) (row' : j < 30) (line : Bytes) where
  receive_full :
      (m.user_pipe (i + 1) (j + 1)).flag ≡ 1
      → receive d.fd (pos (suc i)) line m
        ≡ some (
            passed
              (to_all (sockets m) (received_text d.nickname (j + 1) c.nickname (i + 1) line))
              (set_pipe (i + 1) (j + 1) (record (m.user_pipe (i + 1) (j + 1)) { flag = 0 }) m)
              (m.user_pipe (i + 1) (j + 1)).pipe_fd)
  unfolding receive
  receive_full e =
      let one : i + 1 - 1 ≡ i = omega arith in
      let two : j + 1 - 1 ≡ j = omega arith in
      ground (
        arith,
        own m j d t to live' row',
        partner_user m i c from live row,
        ap (get_elem? m.clients) one ∙ from,
        ap (get_elem? m.clients) two ∙ to,
      )

  receive_of :
      (p : UserPipe)
      → m.user_pipe (i + 1) (j + 1) ≡ p
      → p.flag ≡ 1
      → receive d.fd (pos (suc i)) line m
        ≡ some (
            passed
              (to_all (sockets m) (received_text d.nickname (j + 1) c.nickname (i + 1) line))
              (set_pipe (i + 1) (j + 1) (record p { flag = 0 }) m)
              p.pipe_fd)
  receive_of p e =
      subst
        (λ (q : UserPipe).
          q.flag ≡ 1
          → receive d.fd (pos (suc i)) line m
            ≡ some (
                passed
                  (to_all (sockets m) (received_text d.nickname (j + 1) c.nickname (i + 1) line))
                  (set_pipe (i + 1) (j + 1) (record q { flag = 0 }) m) q.pipe_fd))
        e receive_full

  receive_empty :
      (m.user_pipe (i + 1) (j + 1)).flag ≡ 0
      → receive d.fd (pos (suc i)) line m ≡ some (refused ((d.fd, no_pipe (i + 1) (j + 1)) ∷ []) m)
  unfolding receive
  receive_empty e = ground (arith, own m j d t to live' row', partner_user m i c from live row)

module _ (m : Server) (i j : ℕ) (c d : Client) (t : IsTable m)
    (from : get_elem? m.clients i ≡ some c) (to : get_elem? m.clients j ≡ some d) (live : c.fd ≢ 0)
    (live' : d.fd ≢ 0) (row : i < 30) (row' : j < 30) where
  abbrev full : ℕ → UserPipe
  full read_end = record { pipe_fd = read_end; flag = 1 }

  abbrev void : ℕ → UserPipe
  void read_end = record { pipe_fd = read_end; flag = 0 }

  abbrev pub stored : ℕ → Server
  stored read_end = set_pipe (i + 1) (j + 1) (full read_end) m

  abbrev pub emptied : ℕ → Server
  emptied read_end = set_pipe (i + 1) (j + 1) (void read_end) (stored read_end)

  -- A pipe that one user stores for another is handed over once: the receiver's `<` gets the read end
  -- that was stored and all users are told; a second `<` is refused, and changes nothing. While it is
  -- stored, a further `>` to the same user is refused.
  pub pipe_round_trip :
      (read_end : ℕ) (line : Bytes)
      → (m.user_pipe (i + 1) (j + 1)).flag ≡ 0
      → (keep_pipe c.fd (pos (suc j)) read_end m ≡ some (stored read_end))
        × (offer c.fd (pos (suc j)) line (stored read_end)
            ≡ some (refused ((c.fd, has_pipe (i + 1) (j + 1)) ∷ []) (stored read_end)))
        × (receive d.fd (pos (suc i)) line (stored read_end)
            ≡ some (
                passed
                  (to_all (sockets m) (received_text d.nickname (j + 1) c.nickname (i + 1) line))
                  (emptied read_end)
                  read_end))
        × (receive d.fd (pos (suc i)) line (emptied read_end)
            ≡ some (refused ((d.fd, no_pipe (i + 1) (j + 1)) ∷ []) (emptied read_end)))
  unfolding sockets
  pipe_round_trip read_end line z = (keeps, refuses, hands_over, refuses_again)
    where
      keeps : keep_pipe c.fd (pos (suc j)) read_end m ≡ some (stored read_end)
      keeps =
          unfold keep_pipe in
          ground (arith, own m i c t from live row, partner_user m j d to live' row')

      refuses :
          offer c.fd (pos (suc j)) line (stored read_end)
          ≡ some (refused ((c.fd, has_pipe (i + 1) (j + 1)) ∷ []) (stored read_end))
      refuses =
          unfold offer in
          ground (
            arith,
            own (stored read_end) i c
                (set_pipe-IsTable (i + 1) (j + 1) (record { pipe_fd = read_end; flag = 1 }) m t)
                from live row,
            partner_user (stored read_end) j d to live' row',
          )

      hands_over :
          receive d.fd (pos (suc i)) line (stored read_end)
          ≡ some (
              passed
                (to_all (sockets m) (received_text d.nickname (j + 1) c.nickname (i + 1) line))
                (emptied read_end)
                read_end)
      hands_over =
          receive_of (stored read_end) i j c d
            (set_pipe-IsTable (i + 1) (j + 1) (full read_end) m t) from to live live' row row' line
            (full read_end) (set_pipe_at (i + 1) (j + 1) (full read_end) m) refl

      refuses_again :
          receive d.fd (pos (suc i)) line (emptied read_end)
          ≡ some (refused ((d.fd, no_pipe (i + 1) (j + 1)) ∷ []) (emptied read_end))
      refuses_again =
          receive_empty (emptied read_end) i j c d
            (set_pipe-IsTable (i + 1) (j + 1) (void read_end) (stored read_end)
              (set_pipe-IsTable (i + 1) (j + 1) (full read_end) m t))
            from to live live' row row' line
            (ap (λ (p : UserPipe). p.flag)
              (set_pipe_at (i + 1) (j + 1) (void read_end) (stored read_end)))
