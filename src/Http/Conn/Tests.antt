-- ===== src/Http/Conn/Tests.antt =====
-- A run of write, and an instance of its theorem.
use torch_server.Base.{
  pos, ℕ, ◌≡◌, refl, true, false, codes, [], ◌∷◌, drop, some, arith, Returns, inr,
}
use torch_server.Buffer.{failed}
use torch_server.Http.Conn.{Conn, write}
use torch_server.Http.Conn.Write.{IsReady, pending, then_stop, write_sends}
use torch_server.Http.Request.Tests.{fresh, holding}

-- Three bytes of a head and five of a file.
abbrev pub answering : Conn ℕ
answering = record {
  fd = pos 7;
  is_closed = false;
  iov_cnt = 2;
  iov_0 = record { base = 0; len = 3 };
  iov_1 = record { base = 0; len = 5 };
  read_buff = holding [];
  write_buff = holding (codes "abc");
  request = fresh;
  response = record {
    code = some 200;
    is_keep_alive = false;
    path = codes "/a.html";
    src_dir = codes "/r";
    mm_file = some (codes "hello");
    mm_file_stat = record { is_dir = false; others_read = true; size = 5 };
    cls_probs = [];
  };
}

pub answering-IsReady : IsReady answering
answering-IsReady = record {
  valid = omega arith;
  first = inr (refl, refl);
  second = omega arith;
  small = omega arith;
}

-- `EAGAIN` after two bytes of the head, and its last byte with two of the file.
write_sends_example :
    Returns
      (λ (ret, c'). (ret ≡ failed 11) × IsReady c' × (pending c' ≡ drop 5 (codes "abchello")))
      (write true (then_stop (2 ∷ 3 ∷ []) (failed 11)) answering)
write_sends_example =
    write_sends (2 ∷ 3 ∷ []) (failed 11) answering tt answering-IsReady
      (omega arith, omega arith, (omega arith, omega arith, tt))
