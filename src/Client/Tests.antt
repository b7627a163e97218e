-- ===== src/Client/Tests.antt =====
-- An instance of the theorem on the client's request.
use torch_server.Client.Overflow.{AreFull}
use torch_server.Base.{
  pos, ℕ, ◌<◌, ◌≡◌, refl, false, Bytes, List, codes, [], replicate, length, length-replicate, none,
  fault, uncaught, arith,
}
use torch_server.Client.{send_post, get_request}
use torch_server.Client.Crash.{process-send_post}
use torch_server.Http.Conn.{Conn, process}
use torch_server.Http.Lines.{has_char}
use torch_server.Http.Request.Tests.{fresh, holding, one_label}
use torch_server.Http.Request as HttpRequest
use torch_server.Http.Response.{no_stat}
use torch_server.Http.Response.Tests.{one_page, shown}
use torch_server.Http.Verify.Tests.{no_user, two_conns}

abbrev host : Bytes
host = codes "223.3.81.121"

abbrev accepted : Conn ℕ
accepted = record {
  fd = pos 7;
  is_closed = false;
  iov_cnt = 0;
  iov_0 = record { base = 0; len = 0 };
  iov_1 = record { base = 0; len = 0 };
  read_buff = holding (send_post host (codes "YWJj"));
  write_buff = holding [];
  request = HttpRequest.init fresh;
  response = record {
    code = none;
    is_keep_alive = false;
    path = [];
    src_dir = [];
    mm_file = none;
    mm_file_stat = no_stat;
    cls_probs = [];
  };
}

process-send_post_example :
    process no_user one_label one_page shown (codes "/srv/resources") accepted (two_conns, [])
    ≡ fault uncaught
unfolding send_post get_request has_char
process-send_post_example =
    process-send_post no_user one_label one_page shown (codes "/srv/resources") host (codes "YWJj")
      accepted (two_conns, []) fresh refl refl refl refl refl refl (omega arith) refl (omega arith)

-- Seven pieces of ten thousand bytes.
abbrev piece : Bytes
piece = replicate 10_000 97

abbrev seven : List Bytes
seven = replicate 7 piece

seven_full : AreFull seven
seven_full =
    let some_bytes : 0 < length piece = omega (arith, length-replicate {A = ℕ} 10_000 97) in
    (
      some_bytes,
      (some_bytes, (some_bytes, (some_bytes, (some_bytes, (some_bytes, (some_bytes, tt)))))),
    )
