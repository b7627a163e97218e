-- ===== src/Server/RoundTests.antt =====
-- A round of the event loop with two events, as an instance of the theorem on it.
use torch_server.Base.{
  ℕ, ◌≡◌, refl, pos, negsuc, List, [], ◌∷◌, some, ok, arith, Returns, inl, inr, ◌==◌, if◌then◌else◌,
}
use torch_server.Epoller.{EpollEvent, no_events, with_in}
use torch_server.Server.{Server, refused, find, limit}
use torch_server.Server.Loop.{Input, is_listen_fd, next_wait, round}
use torch_server.Server.Healthy.{IsHealthy}
use torch_server.Server.Round.{AreReported, round-IsHealthy}
use torch_server.Server.Tests.{table, table-IsLawful, serving, serving-IsHealthy, caller}

-- Without a time limit, and with two places for events.
abbrev unlimited : Server ℕ table
unlimited = record serving {
  timeout_ms = pos 0;
  epoller = record serving.epoller {
    events = record { fd = 0; events = no_events } ∷ record { fd = 0; events = no_events } ∷ [];
  };
}

unlimited-IsHealthy : IsHealthy 0 unlimited
unfolding limit
unlimited-IsHealthy =
    let v = serving-IsHealthy in
    record {
      counted = v.counted;
      bounded = v.bounded;
      named = v.named;
      watched = v.watched;
      timed = λ timeout q. absurd (ground arith);
    }

no_tick : next_wait (λ k. 5) 5 unlimited ≡ ok (negsuc 0, unlimited)
unfolding next_wait limit
no_tick = refl

-- The connection has a request, and two more come in.
abbrev inputs : ℕ → Input
inputs k = record {
  accepts = if k == 1 then caller 8 10 ∷ caller 9 20 ∷ refused ∷ [] else refused ∷ [];
  now = if k == 0 then 5 else 20;
}

abbrev two_events : List EpollEvent
two_events =
    record { fd = 7; events = with_in no_events }
    ∷ record { fd = 3; events = with_in no_events }
    ∷ []

two_events-AreReported : AreReported inputs 0 0 two_events unlimited
unfolding find is_listen_fd
two_events-AreReported = (
  omega arith,
  tt,
  inr refl,
  (omega arith, tt),
  (
    omega arith,
    (
      omega arith,
      omega arith,
      omega arith,
      omega arith,
      refl,
      (omega arith, omega arith, omega arith, omega arith, refl, tt),
    ),
    inl refl,
    tt,
    tt,
  ),
)

round-IsHealthy_example :
    Returns (IsHealthy 20) (round (λ k. 5) 5 (some two_events) inputs unlimited)
round-IsHealthy_example =
    round-IsHealthy table-IsLawful (λ k. 5) 5 0 (negsuc 0) (some two_events) inputs unlimited
      unlimited unlimited-IsHealthy no_tick two_events-AreReported
