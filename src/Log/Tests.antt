-- ===== src/Log/Tests.antt =====
-- Two calls of the log, as instances of the theorems on `write`.
use torch_server.Base.{
  ◌≡◌, refl, pos, true, false, codes, [], length, replicate, some, none, fault, out_of_bounds,
  Returns, arith,
}
use torch_server.Http.Response.{to_string, decimal}
use torch_server.Log.{Log, Tm, stamp_of, padded, write}
use torch_server.Log.Lines.{line_of}
use torch_server.Log.Text.{no_nul}
use torch_server.Log.Write.{IsReady, IsPut, write_puts, write_overflows}

abbrev pub noon : Tm
noon = record {
  tm_year = 124;
  tm_mon = 0;
  tm_mday = 2;
  tm_hour = 12;
  tm_min = 0;
  tm_sec = 5;
  tv_usec = 17;
}

-- A log with a buffer of 64 bytes, and without a deque.
abbrev pub small_log : Log
small_log = record {
  path = codes "log";
  suffix = codes ".log";
  line_count = 1;
  today = 2;
  is_open = true;
  buff = record { buffer = replicate 64 0; read_pos = 0; write_pos = 0 };
  level = pos 0;
  is_async = false;
  fp = some (codes "log/a.log");
  put = [];
  deque = none;
}

small_log-IsReady : IsReady small_log
small_log-IsReady = record { valid = omega arith; read_pos = refl; write_pos = refl }

noon_stamp : stamp_of noon ≡ codes "2024-01-02 12:00:05.000017 "
unfolding stamp_of padded to_string decimal
noon_stamp = refl

pub short_stamp : length (stamp_of noon) ≡ 27
short_stamp = rw noon_stamp refl

pub hello_set : no_nul (codes "hello") ≡ true
unfolding no_nul
hello_set = refl

write_puts_example :
    Returns
      (λ log'.
        IsPut (line_of noon (pos 1) (codes "hello")) (codes "log/a.log") small_log log'
        × IsReady log'
        × (log'.line_count ≡ 2)
        × (log'.fp ≡ some (codes "log/a.log"))
        × (length log'.buff.buffer ≡ 64))
      (write true noon (pos 1) (codes "hello") small_log)
write_puts_example =
    write_puts noon (pos 1) (codes "hello") (codes "log/a.log") small_log small_log-IsReady
      (omega (arith, short_stamp)) refl hello_set (omega (arith, short_stamp))

write_overflows_example : write true noon (pos 1) (replicate 40 97) small_log ≡ fault out_of_bounds
write_overflows_example =
    write_overflows noon (pos 1) (replicate 40 97) small_log small_log-IsReady
      (omega (arith, short_stamp)) (omega (arith, short_stamp)) (omega (arith, short_stamp))
      (omega arith) (omega arith)
