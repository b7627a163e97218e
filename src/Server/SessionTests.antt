-- ===== src/Server/SessionTests.antt =====
-- Two requests on one connection of a small server.
use torch_server.Base.{◌≡◌, ◌-◌, refl, true, codes, [], ◌∷◌, length, arith, Returns}
use torch_server.Buffer.{failed}
use torch_server.Http.Verify.Tests.{no_user}
use torch_server.Http.Request.{is_keep_alive}
use torch_server.Http.Request.Tests.{one_label}
use torch_server.Http.Response.Tests.{one_page, shown}
use torch_server.Http.Conn.Page.{keeps_alive, page_answer}
use torch_server.Epoller.{no_events, with_in}
use torch_server.Server.Tests.{table-IsLawful}
use torch_server.Server.Session.{Turn, IsTurn, IsWaiting, serve, answers, serve-answers}
use torch_server.Server.PageTests.{
  get_page, get_page-IsHead, hello-IsPage, waiting, waiting-IsIdle, edge, edge-IsHealthy,
  edge-IsWatched, table-CanModify, here, sizes, small_request, not_listening,
}

abbrev first : Turn
first = record {
  head = get_page;
  mapped = codes "hello";
  arrives = record { accepts = []; now = 9 };
  errno = 11;
  leaves = record { accepts = []; now = 10 };
  ns = length (page_answer get_page (codes "hello")) ∷ [];
  stop = failed 11;
}

abbrev second : Turn
second = record first {
  arrives = record { accepts = []; now = 20 };
  leaves = record { accepts = []; now = 25 };
  ns = 3 ∷ (length (page_answer get_page (codes "hello")) - 3) ∷ [];
}

kept : keeps_alive get_page ≡ true
unfolding is_keep_alive keeps_alive
kept = refl

first-IsTurn : IsTurn one_page (codes "/r") 0 first
first-IsTurn = record {
  page = hello-IsPage;
  valid = get_page-IsHead;
  keeps = kept;
  short = omega (arith, small_request);
  small = omega (arith, sizes.1);
  arriving = omega arith;
  leaving = omega arith;
  stops = tt;
  taken = (omega (arith, sizes.2), omega arith, tt);
  all = omega arith;
}

second-IsTurn : IsTurn one_page (codes "/r") 10 second
second-IsTurn = record {
  page = hello-IsPage;
  valid = get_page-IsHead;
  keeps = kept;
  short = omega (arith, small_request);
  small = omega (arith, sizes.1);
  arriving = omega arith;
  leaving = omega arith;
  stops = tt;
  taken = (omega arith, omega (arith, sizes.2), (omega (arith, sizes.2), omega arith, tt));
  all = omega (arith, sizes.2);
}

edge-IsWaiting : IsWaiting 7 0 edge
edge-IsWaiting = record {
  healthy = edge-IsHealthy;
  conn = waiting;
  mask = with_in no_events;
  watched = edge-IsWatched;
  idle = waiting-IsIdle;
  edge = refl;
  other = not_listening;
}

serve-answers_example :
    Returns
      (λ (sent, s', world').
        (sent ≡ answers (first ∷ second ∷ []))
        × (world' ≡ here)
        × IsWaiting 7 25 s'
        × (s'.user_cnt ≡ 1))
      (serve no_user one_label one_page shown (codes "/r") (first ∷ second ∷ []) 7 (edge, here))
serve-answers_example =
    serve-answers no_user one_label one_page shown (codes "/r") table-IsLawful table-CanModify 7
      (first ∷ second ∷ []) 0 edge here (first-IsTurn, (second-IsTurn, tt)) edge-IsWaiting
