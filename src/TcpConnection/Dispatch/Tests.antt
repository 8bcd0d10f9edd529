-- ===== src/TcpConnection/Dispatch/Tests.antt =====
-- Events on a connection, at concrete inputs.
use my_net_lib.Common.{List, [], arith, false, length, none, refl, some, true, ◌≡◌}
use my_net_lib.Os.{done, Readv, Write, IsReadv}
use my_net_lib.Buffer.{init}
use my_net_lib.Channel.{set_revents, read_event, Events}
use my_net_lib.TcpConnection.{
  TcpConnection, Effect, Outcome, new_connection, connection_established, shut_down,
}
use my_net_lib.TcpConnection.Inv.{Inv}
use my_net_lib.TcpConnection.Stream.{shut_down-Stepped}
use my_net_lib.TcpConnection.Life.{established-Inv}
use my_net_lib.TcpConnection.Closing.{shut_down-Closes}
use my_net_lib.TcpConnection.Watching.{closings}
use my_net_lib.TcpConnection.Dispatch.{IsCallback, handle_poll_event, Answer}
use my_net_lib.TcpConnection.Dispatch.Once.{closes_once}
use my_net_lib.TcpConnection.Dispatch.Twice.{closes_twice}

-- A peer that has closed, and a kernel that takes all.
abbrev ended : Readv
ended lens = done []

abbrev takes_all : Write
takes_all bytes = done (length bytes)

abbrev opened : Outcome → TcpConnection
unfolding new_connection init
opened none = new_connection 0
opened (some (c, es)) = c

abbrev polled : Events → TcpConnection
polled events =
    let c = opened (connection_established (new_connection 5)) in
    record c { channel = set_revents c.channel events }

polled-Inv : (events : Events) → Inv (polled events)
unfolding connection_established new_connection set_revents opened
polled-Inv events =
    let (inv, nothing) = established-Inv 5 refl in
    record { input = inv.input; output = inv.output; armed = inv.armed; closed = inv.closed }

-- A server that shuts the connection down at the first message.
shut_down-IsCallback : IsCallback (shut_down true)
shut_down-IsCallback c inv o =
    let st = shut_down-Stepped inv in
    record {
      conn = st.conn;
      effects = st.effects;
      returns = st.returns;
      inv = st.inv;
      closes_once = shut_down-Closes c o st.returns;
    }

ended-IsReadv : IsReadv ended
ended-IsReadv lens bytes e = ground arith

closes_once_example :
    Answer (handle_poll_event ended takes_all (shut_down true) (polled read_event))
unfolding connection_established new_connection set_revents opened
closes_once_example =
    closes_once ended takes_all (shut_down true) shut_down-IsCallback ended-IsReadv
      (polled read_event) (polled-Inv read_event) refl (omega arith) (refl, refl, refl, refl) refl

-- POLLHUP with POLLPRI.
abbrev urgent : Events
urgent = record { pollin = false; pollpri = true; pollout = false; pollerr = false; pollhup = true }

closes_twice_example :
    (d : TcpConnection) × (es : List Effect) × (handle_poll_event ended takes_all
        (shut_down true)
        (polled urgent)
      ≡ some (d, es))
    × (closings es ≡ 2)
unfolding connection_established new_connection set_revents opened
closes_twice_example =
    closes_twice ended takes_all (shut_down true) ended-IsReadv (polled urgent) (polled-Inv urgent)
      (omega arith) (refl, refl, refl, refl) refl refl refl refl
