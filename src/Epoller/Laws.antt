-- ===== src/Epoller/Laws.antt =====
-- code/server/epoller.cpp: the interest list after the calls of the wrapper.
use torch_server.Base.{ℕ, ◌≡◌, ◌≢◌, ◌∙◌, pos, none}
use torch_server.Epoller.{
  Events, Kernel, Epoller, IsLawful, CtlOp, no_events, mod_fd, del_fd, ctl, interest,
}

module _ {kernel : Kernel} (lawful : IsLawful kernel) where
  pub interest-del_fd : (fd : ℕ) (e : Epoller kernel) → interest (del_fd (pos fd) e).1 fd ≡ none
  unfolding del_fd ctl
  interest-del_fd fd e = lawful.deleted fd no_events e.state

  pub ctl_others :
      (op : CtlOp) (fd k : ℕ) (mask : Events) (e : Epoller kernel)
      → fd ≢ k
      → interest (ctl op (pos fd) mask e).1 k ≡ interest e k
  unfolding ctl
  ctl_others op fd k mask e other = lawful.others op fd k mask e.state other

  -- `mod_fd` watches no descriptor that was not watched.
  pub interest-mod_fd :
      (fd : ℕ) (mask : Events) (e : Epoller kernel)
      → interest e fd ≡ none
      → interest (mod_fd (pos fd) mask e).1 fd ≡ none
  unfolding mod_fd ctl
  interest-mod_fd fd mask e unwatched =
      lawful.refused CtlOp.epoll_ctl_mod fd mask e.state (lawful.missing fd mask e.state unwatched)
      ∙ unwatched
