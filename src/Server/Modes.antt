-- ===== src/Server/Modes.antt =====
-- code/server/server.cpp: what no handler of a connection changes: the event modes and the listening
-- socket.
use torch_server.Base.{
  ℕ, ◌≡◌, refl, ℤ-cases, List, Option-cases, inl, inr, Safely, safe, broken, Safely-bind, Safely-if,
  Safely-after, ◌==◌,
}
use torch_server.Buffer.{Count, failed, count}
use torch_server.Timer.{adjust}
use torch_server.Http.Conn.{Conn, write, is_keep_alive, bytes_to_write}
use torch_server.Epoller.{Kernel}
use torch_server.Server.{
  Server, client, close_conn, extent_time, limit, add_task, deal_read, deal_write, on_write,
  after_write, rearm, is_zero, eagain,
}

module _ {Prob : Type 0} {kernel : Kernel} where
  abbrev pub Modes : Server Prob kernel → Server Prob kernel → Type 0
  Modes s s' = (s'.et ≡ s.et) × (s'.conn_event ≡ s.conn_event) × (s'.listen_fd ≡ s.listen_fd)

  extent_time_modes :
      (now : ℕ) (c : Conn Prob) (s : Server Prob kernel) → Safely (Modes s) (extent_time now c s)
  unfolding extent_time
  extent_time_modes now c s = elim (Option-cases (limit s.timeout_ms)) [
    | inl unlimited ↦ rw (extent_time, unlimited) (safe (refl, refl, refl))
    | inr (timeout, limited) ↦ elim (ℤ-cases c.fd) [
      | inl (n, e) ↦
          rw (extent_time, limited, e)
            (Safely-after (adjust now n timeout s.timer) λ timer. safe (refl, refl, refl))
      | inr (n, e) ↦ rw (extent_time, limited, e) broken
    ]
  ]

  pub deal_read_modes :
      (now fd : ℕ) (s : Server Prob kernel) → Safely (Modes s) (deal_read now fd s)
  unfolding deal_read add_task
  deal_read_modes now fd s =
      Safely-after (client fd s) λ c. Safely-bind (extent_time_modes now c s) λ s' same. safe same

  pub deal_write_modes :
      (now fd : ℕ) (s : Server Prob kernel) → Safely (Modes s) (deal_write now fd s)
  unfolding deal_write add_task
  deal_write_modes now fd s =
      Safely-after (client fd s) λ c. Safely-bind (extent_time_modes now c s) λ s' same. safe same

  close_conn_modes : (fd : ℕ) (s : Server Prob kernel) → Safely (Modes s) (close_conn fd s)
  unfolding close_conn
  close_conn_modes fd s = Safely-after (client fd s) λ c. safe (refl, refl, refl)

  after_write_modes :
      (ret : Count) (fd : ℕ) (c : Conn Prob) (s : Server Prob kernel)
      → Safely (Modes s) (after_write ret fd c s)
  unfolding after_write rearm
  after_write_modes (failed errno) fd c s =
      Safely-if (is_zero (bytes_to_write c))
        (λ _. Safely-if (is_keep_alive c) (λ _. safe (refl, refl, refl)) λ _. close_conn_modes fd _)
        λ _. Safely-if (errno == eagain) (λ _. safe (refl, refl, refl)) λ _. close_conn_modes fd _
  after_write_modes (count n) fd c s =
      Safely-if (is_zero (bytes_to_write c))
        (λ _. Safely-if (is_keep_alive c) (λ _. safe (refl, refl, refl)) λ _. close_conn_modes fd _)
        λ _. close_conn_modes fd _

  pub on_write_modes :
      (counts : List Count) (fd : ℕ) (s : Server Prob kernel)
      → Safely (Modes s) (on_write counts fd s)
  unfolding on_write
  on_write_modes counts fd s =
      Safely-after (client fd s)
        λ c. Safely-after (write s.et counts c) λ (ret, c'). after_write_modes ret fd c' s
