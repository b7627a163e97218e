-- ===== src/Server/Truncated.antt =====
-- code/server/server.cpp, `on_write_` in level-triggered mode: the end of an answer that is lost.
use torch_server.Base.{
  ℕ, ◌+◌, ◌-◌, ◌%◌, ◌^◌, ◌≤◌, ◌<◌, ◌≡◌, refl, ◌∙◌, ap, pos, false, List, ◌∷◌, length, length-drop,
  some, none, arith, ==-false, ltb-false, Returns, returns, Returns-map, Returns-bind, Returns-and,
}
use torch_server.Buffer.{Count, count}
use torch_server.Http.Conn.{Conn, write, bytes_to_write, is_large}
use torch_server.Http.Conn.Write.{IsReady, pending, advance_step, length-pending, bytes_left}
use torch_server.Http.Conn.Identity.{Same, advance-Same}
use torch_server.Epoller.{Kernel, IsLawful, interest}
use torch_server.Server.{Server, on_write, after_write, client, find, is_zero}
use torch_server.Server.Users.{opens, opens_at, find-store}
use torch_server.Server.Healthy.{IsHealthy}
use torch_server.Server.Tasks.{close_back, Same-opens}

module _ {Prob : Type 0} where
  -- One `writev` of level-triggered mode that leaves no more than 10240 bytes.
  write_once :
      (n : ℕ) (later : List Count) (c : Conn Prob)
      → IsReady c
      → 0 < n
      → n ≤ length (pending c)
      → length (pending c) ≤ n + 10_240
      → Returns
          (λ (ret, c').
            (ret ≡ count n) × Same c c' × (bytes_to_write c' ≡ pos (length (pending c) - n)))
          (write false (count n ∷ later) c)
  unfolding write is_large
  write_once n later c v positive fits small =
      let total = length-pending c v in
      rw
        (
          ==-false n 0 (omega arith),
          ==-false ((c.iov_0.len + c.iov_1.len) % 2 ^ 64) 0 (omega (arith, total, v.small)),
        )
        (Returns-bind (Returns-and (advance_step c n v positive fits) (advance-Same n c))
          λ c' ((v', p), same).
            let left : bytes_to_write c' ≡ pos (length (pending c) - n) =
              bytes_left c' v' ∙ ap pos (ap length p ∙ length-drop n (pending c)) in
            rw (left, ltb-false 10_240 (length (pending c) - n) (omega arith))
              (returns (refl, same, left)))

module _ {Prob : Type 0} {kernel : Kernel} (lawful : IsLawful kernel) (last fd : ℕ)
    (s : Server Prob kernel) (v : IsHealthy last s) (c : Conn Prob)
    (there : find fd s.users ≡ some c) where
  -- Over a lawful kernel, on a healthy server in level-triggered mode, for an open connection
  -- whose vectors hold an answer: where `writev` takes the first `n` bytes of the answer, at least
  -- one and not all, and leaves no more than 10240 of them, `on_write` closes the connection. The
  -- rest of the answer is never sent, whatever later calls of `writev` would take.
  pub on_write_truncates :
      (n : ℕ) (later : List Count)
      → s.et ≡ false
      → opens c ≡ 1
      → IsReady c
      → 0 < n
      → n < length (pending c)
      → length (pending c) ≤ n + 10_240
      → Returns
          (λ s'.
            IsHealthy last s'
            × (opens_at (find fd s'.users) ≡ 0)
            × (s'.user_cnt + 1 ≡ s.user_cnt)
            × (interest s'.epoller fd ≡ none))
          (on_write (count n ∷ later) fd s)
  unfolding on_write after_write client is_zero
  on_write_truncates n later level is_open ready positive fits small =
      rw (there, level)
        (Returns-bind (write_once n later c ready positive (omega arith) small)
          λ (ret, c') (e, same, left).
            let (named, opens_same) = Same-opens lawful last fd s v c there c' same in
            rw (e, left, ==-false (length (pending c) - n) 0 (omega arith))
              (Returns-map (close_back lawful last fd s v c there c' named opens_same)
                λ s' (v', shut). (
                  v',
                  shut.closed,
                  ground (arith, shut.left, find-store fd fd c' s.users),
                  shut.unwatched,
                )))
