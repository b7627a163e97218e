-- ===== src/Server/Reopened.antt =====
-- code/server/server.cpp, `on_write_`: a connection whose time is over while its answer is sent.
use torch_server.Base.{
  ℕ, ◌+◌, ◌-◌, ◌≤◌, ◌≡◌, ap, true, false, some, pos, arith, Returns, returns, ◌^◌, ◌%◌,
}
use torch_server.Buffer.{Count}
use torch_server.Http.Conn.{Conn, bytes_to_write, reset}
use torch_server.Http.Conn as HttpConn
use torch_server.Http.Request.{is_keep_alive}
use torch_server.Http.Response.{unmap_file}
use torch_server.Epoller.{Kernel, del_fd}
use torch_server.Server.{Server, close_conn, client, after_write, rearm, find, store, is_zero}
use torch_server.Server.Users.{
  opens, opens_at, count_open, find-store, count_open-store, count_open_positive,
}
use torch_server.Server.Healthy.{IsHealthy}

module _ {Prob : Type 0} {kernel : Kernel} (last fd : ℕ) (s : Server Prob kernel)
    (v : IsHealthy last s) (c : Conn Prob) (there : find fd s.users ≡ some c) where
  -- The connection after its timer ran.
  abbrev shut : Conn Prob
  shut = record c { is_closed = true; response = unmap_file c.response }

  after_write_opens :
      (ret : Count) (s' : Server Prob kernel)
      → bytes_to_write c ≡ pos 0
      → is_keep_alive c.request ≡ true
      → find fd s'.users ≡ some shut
      → s'.user_cnt ≡ count_open s'.users
      → Returns
          (λ s''. (opens_at (find fd s''.users) ≡ 1) × (s''.user_cnt + 1 ≡ count_open s''.users))
          (after_write ret fd shut s')
  unfolding after_write is_zero rearm reset
  after_write_opens ret s' sent keeps found counted =
      let sent' : bytes_to_write shut ≡ pos 0 = unfold bytes_to_write in sent in
      rw (sent', keeps)
        (returns (
          ground (arith, find-store fd fd (reset shut) s'.users),
          omega (arith, counted, count_open-store fd (reset shut) s'.users, ap opens_at found),
        ))

  -- On a healthy server, for an open connection whose answer `write` has sent as a whole and whose
  -- request keeps it alive: when its timer closes it before `on_write` goes on, what follows in
  -- `on_write` opens the connection again without a user more, so that there is an open connection
  -- that the count of users does not have.
  pub close_conn-after_write :
      (ret : Count)
      → opens c ≡ 1
      → bytes_to_write c ≡ pos 0
      → is_keep_alive c.request ≡ true
      → Returns
          (λ s'.
            (s'.user_cnt + 1 ≡ s.user_cnt)
            × (find fd s'.users ≡ some shut)
            × Returns
                (λ s''.
                  (opens_at (find fd s''.users) ≡ 1) × (s''.user_cnt + 1 ≡ count_open s''.users))
                (after_write ret fd shut s'))
          (close_conn fd s)
  unfolding close_conn client HttpConn.close_conn
  close_conn-after_write ret is_open sent keeps =
      let s' = record s {
        epoller = (del_fd c.fd s.epoller).1;
        users = store fd shut s.users;
        user_cnt = s.user_cnt - 1;
      } in
      let found : find fd s'.users ≡ some shut = ground (arith, find-store fd fd shut s.users) in
      let some_open : 1 ≤ count_open s.users =
        ground (arith, count_open_positive fd s.users, there, is_open) in
      let less : (s.user_cnt + (2 ^ 32 - 1)) % 2 ^ 32 ≡ s.user_cnt - 1 =
        omega (arith, v.counted, v.bounded, some_open) in
      rw (there, was_open, less)
        (returns (
          omega (arith, v.counted, some_open),
          found,
          after_write_opens ret s' sent keeps found (
              omega (
                arith,
                v.counted,
                some_open,
                count_open-store fd shut s.users,
                ap opens_at there,
                is_open,
              )),
        ))
    where
      was_open : c.is_closed ≡ false
      was_open = ground (arith, is_open)
