-- ===== src/Poller/Tests.antt =====
-- Two channels in both pollers.
use my_net_lib.Common.{List, [], arith, none, put, refl, ◌+◌, ◌∷◌}
use my_net_lib.Channel.{read_event, write_event, none_event}
use my_net_lib.EpollPoller.Tests.{kernel, kernel-IsEpoll}
use my_net_lib.Poller.{PollerCall, updates, removes, Watches, no_watches, wants, removed}
use my_net_lib.Poller.Agree.{Agreement, pollers_agree}

-- The first one is closed: it wants nothing, and is removed; the second one writes.
abbrev history : List PollerCall
history =
    updates 0 read_event
    ∷ updates 1 read_event
    ∷ updates 1 write_event
    ∷ updates 0 none_event
    ∷ removes 0
    ∷ []

abbrev one_left : Watches
one_left = put 0 removed (
    put 0 (wants none_event)
      (put 1 (wants write_event) (put 1 (wants read_event) (put 0 (wants read_event) no_watches))))

pollers_agree_example : Agreement kernel (λ q. q + 3) (λ fd. none) history one_left
pollers_agree_example =
    pollers_agree kernel kernel-IsEpoll (λ q. q + 3) (λ fd. none) history (λ q r e. omega arith)
      (λ i. refl) refl
