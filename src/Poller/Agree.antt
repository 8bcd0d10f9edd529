-- ===== src/Poller/Agree.antt =====
-- The two pollers, behind one interface.
use my_net_lib.Common.{List, none, some, sym, ℕ, ◌∙◌, ◌≡◌}
use my_net_lib.Channel.{new_channel}
use my_net_lib.EpollPoller.{Epoll, EpollPoller, new_poller}
use my_net_lib.EpollPoller.Inv.{IsEpoll}
use my_net_lib.PollPoller.{PollPoller, no_entries}
use my_net_lib.Poller.{
  PollerCall, Watches, no_watches, requests_watch, requests, wanted, history_lem,
}
use my_net_lib.Poller.Interest.{epoll_poller}
use my_net_lib.Poller.Epoll.{epoll_poller-IsPoller}
use my_net_lib.Poller.Entries.{poll_poller}
use my_net_lib.Poller.Poll.{poll_poller-IsPoller}

-- Both pollers got through the calls, and ask the kernel for the events that are wanted.
pub record Agreement (E : Epoll) (fd : ℕ → ℕ) (s : E.State) (cs : List PollerCall) (w : Watches)
    : Type 0 where
  pub over_epoll : EpollPoller E
  pub over_poll : PollPoller
  pub epoll_returns :
      requests (epoll_poller E) cs (new_poller (λ q. new_channel (fd q)) s) ≡ some over_epoll
  pub poll_returns : requests poll_poller cs (no_entries (λ q. new_channel (fd q))) ≡ some over_poll
  pub epoll_asks : (q : ℕ) → (epoll_poller E).asked over_epoll (fd q) ≡ wanted (w q)
  pub same : (q : ℕ) → (epoll_poller E).asked over_epoll (fd q) ≡ poll_poller.asked over_poll (fd q)

-- After the same calls of `UpdateChannel` and `RemoveChannel`, for channels on different file
-- descriptors of which only known ones are removed and none comes back then, neither poller has
-- failed, and epoll and poll are asked for the same events of each file descriptor: those that its
-- channel wants. The kernel's epoll watches nothing at first and does what epoll_ctl(2) says.
pub pollers_agree :
    (E : Epoll) (epoll : IsEpoll E) (fd : ℕ → ℕ) (s : E.State) (cs : List PollerCall) {w : Watches}
    → ((q r : ℕ) → fd q ≡ fd r → q ≡ r)
    → ((i : ℕ) → E.watched s i ≡ none)
    → requests_watch cs no_watches ≡ some w
    → Agreement E fd s cs w
pollers_agree E epoll fd s cs apart nothing h =
    let (e, ee, asks) =
      history_lem fd (epoll_poller E) _ (epoll_poller-IsPoller E epoll fd apart s nothing) cs h in
    let (p, pe, asks') = history_lem fd poll_poller _ (poll_poller-IsPoller fd apart) cs h in
    record {
      over_epoll = e;
      over_poll = p;
      epoll_returns = ee;
      poll_returns = pe;
      epoll_asks = asks;
      same = λ q. asks q ∙ sym (asks' q);
    }
