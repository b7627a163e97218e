-- ===== src/Server/PageTests.antt =====
-- A request for a page to a small server, as an instance of the theorem on it.
use torch_server.Base.{
  ℕ, ◌+◌, ◌<◌, ◌≡◌, refl, true, false, codes, [], ◌∷◌, length, some, none, arith, Returns, ◌>>=◌,
  put,
}
use torch_server.Buffer.{failed, delivered, refused}
use torch_server.Http.Verify.Tests.{no_user, two_conns}
use torch_server.Http.Lines.{has_char, parse_path, default_html_tag, is_default_html}
use torch_server.Http.Request.{World, is_keep_alive}
use torch_server.Http.Request.Tests.{one_label, fresh, holding}
use torch_server.Http.Request.Message.{
  Head, IsHead, render, request_line, render_fields, render_field,
}
use torch_server.Http.Response.{
  unmap_file, to_string, decimal, code_status, status_of, content_length, get_file_type,
  last_suffix, find_type, suffix_types,
}
use torch_server.Http.Response.Text.{state_line, header_text}
use torch_server.Http.Response.Make.{is_minus_one}
use torch_server.Http.Response.Tests.{one_page, shown}
use torch_server.Http.Conn.{Conn, bytes_to_write}
use torch_server.Http.Conn.Tests.{answering}
use torch_server.Http.Conn.Write.{then_stop}
use torch_server.Http.Conn.Page.{IsIdle, IsPage, keeps_alive, page_answer}
use torch_server.Epoller.{no_events, with_in, with_out}
use torch_server.Server.{Server, on_write, store, find, after_write, close_conn}
use torch_server.Server.Loop.{Input, on_read, handle_event, is_listen_fd}
use torch_server.Server.Healthy.{IsHealthy}
use torch_server.Server.Users.{opens_at, count_open}
use torch_server.Server.Reopened.{close_conn-after_write}
use torch_server.Server.Tasks.{stored_back}
use torch_server.Server.Turn.{CanModify, IsWatched, After}
use torch_server.Server.Page.{IsPrepared, on_read-on_write}
use torch_server.Server.Tests.{table, table-IsLawful, serving, serving-IsHealthy}

abbrev pub get_page : Head
get_page = record {
  method = codes "GET";
  path = codes "/a.html";
  version = codes "1.1";
  fields = (codes "Connection", codes "keep-alive") ∷ [];
}

pub get_page-IsHead : IsHead get_page
unfolding has_char request_line
get_page-IsHead = record {
  method_word = refl;
  path_word = refl;
  version_word = refl;
  one_line = refl;
  short = omega arith;
  fields = (refl, refl, refl, refl, tt);
}

same_path : parse_path get_page.path ≡ codes "/a.html"
unfolding parse_path default_html_tag is_default_html
same_path = refl

pub hello-IsPage : IsPage one_page (codes "/r") (parse_path get_page.path) (codes "hello")
unfolding is_minus_one parse_path default_html_tag is_default_html
hello-IsPage = record {
  placed = refl;
  named = refl;
  other = refl;
  status = refl;
  opened = refl;
  content = refl;
  plain = refl;
  filled = omega arith;
}

abbrev pub waiting : Conn ℕ
waiting = record answering { read_buff = holding []; write_buff = holding [] }

pub waiting-IsIdle : IsIdle waiting
waiting-IsIdle = record {
  reading = omega arith;
  read_start = refl;
  writing = omega arith;
  write_start = refl;
  state = refl;
  header = refl;
}

abbrev pub edge : Server ℕ table
edge = record serving { users = store 7 waiting serving.users; et = true }

pub edge-IsHealthy : IsHealthy 0 edge
unfolding find
edge-IsHealthy =
    let v =
      stored_back table-IsLawful 0 7 serving serving-IsHealthy answering refl waiting refl refl in
    record {
      counted = v.counted;
      bounded = v.bounded;
      named = v.named;
      watched = v.watched;
      timed = λ timeout q.
          let t = v.timed timeout q in
          record {
            valid = t.valid;
            small = t.small;
            called = t.called;
            known = t.known;
            early = t.early;
            covered = t.covered;
          };
    }

pub edge-IsWatched : IsWatched 7 waiting (with_in no_events) edge
unfolding find store
edge-IsWatched = record { there = refl; is_open = refl; watch = refl }

pub table-CanModify : CanModify table
table-CanModify fd old mask state q = ground arith

abbrev pub here : World no_user one_label
here = (two_conns, [])

pub sizes :
    (length (render get_page []) + 1 < 100)
    × (length (page_answer get_page (codes "hello")) < 200)
    × (3 < length (page_answer get_page (codes "hello")))
unfolding render request_line render_fields render_field state_line header_text content_length
    to_string decimal status_of code_status get_file_type last_suffix find_type suffix_types
    keeps_alive parse_path default_html_tag is_default_html
sizes = (omega arith, omega arith, omega arith)

pub not_listening : is_listen_fd 7 edge.listen_fd ≡ false
unfolding is_listen_fd
not_listening = refl

abbrev pub small_request : length (render get_page []) + 1 < 100
small_request = sizes.0

abbrev at_nine : Input
at_nine = record { accepts = []; now = 9 }

on_read-on_write_example :
    Returns
      (λ (s', world').
        IsPrepared get_page (codes "hello") 0 7 edge s'
        × (world' ≡ here)
        × Returns
            (λ s''. IsHealthy 9 s'' × After (keeps_alive get_page) 7 edge s'')
            (handle_event at_nine 7 (with_out no_events) s'
              >>= on_write
                  (then_stop (length (page_answer get_page (codes "hello")) ∷ []) (failed 11))
                  7))
      (on_read no_user one_label one_page shown
        (codes "/r")
        (delivered (render get_page []) ∷ refused 11 ∷ [])
        7
        (edge, here))
on_read-on_write_example =
    on_read-on_write no_user one_label one_page shown (codes "/r") get_page (codes "hello")
      hello-IsPage get_page-IsHead (omega (arith, small_request)) (omega (arith, sizes.1))
      table-IsLawful table-CanModify 0 7 edge here edge-IsHealthy waiting (with_in no_events)
      edge-IsWatched waiting-IsIdle (omega (arith, small_request)) 11 at_nine
      (length (page_answer get_page (codes "hello")) ∷ []) (failed 11) refl not_listening
      (omega arith) tt (omega (arith, sizes.2), omega arith, tt) (omega arith)

-- A connection that has sent its answer, and is to stay open.
abbrev sent : Conn ℕ
sent = record answering {
  iov_0 = record { base = 3; len = 0 };
  iov_1 = record { base = 5; len = 0 };
  request = record fresh {
    version = codes "1.1";
    header = put (λ k. none) (codes "Connection") (codes "keep-alive");
  };
}

abbrev sending : Server ℕ table
sending = record serving { users = store 7 sent serving.users }

sending-IsHealthy : IsHealthy 0 sending
unfolding find
sending-IsHealthy =
    stored_back table-IsLawful 0 7 serving serving-IsHealthy answering refl sent refl refl

close_conn-after_write_example :
    Returns
      (λ s'.
        (s'.user_cnt + 1 ≡ 1)
        × (find 7 s'.users
            ≡ some (record sent { is_closed = true; response = unmap_file sent.response }))
        × Returns
            (λ s''. (opens_at (find 7 s''.users) ≡ 1) × (s''.user_cnt + 1 ≡ count_open s''.users))
            (after_write
              (failed 11)
              7
              (record sent { is_closed = true; response = unmap_file sent.response })
              s'))
      (close_conn 7 sending)
unfolding find store bytes_to_write is_keep_alive
close_conn-after_write_example =
    close_conn-after_write 0 7 sending sending-IsHealthy sent refl (failed 11) refl refl refl
