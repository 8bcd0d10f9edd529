-- ===== src/TcpConnection/SendBuffer.antt =====
-- src/tcp_connection.cc: `Send(Buffer*)`.
use my_net_lib.Common.{
  Bool, List, Option, [], ap, false, if◌then◌else◌, refl, some, true, ◌>>=◌, ◌∷◌, ◌≡◌,
}
use my_net_lib.Os.{Write}
use my_net_lib.Buffer.{Buffer, readable_bytes, retrive_all, read_range, retrive_all_as_string}
use my_net_lib.Buffer.Retrive.{read_range-all, retrive_all_as_string-all}
use my_net_lib.Buffer.Valid.{IsValid, contents}
use my_net_lib.TcpConnection.{
  TcpConnection, Effect, queues_send, connected, is_state, Outcome, send, send_in_loop,
}

abbrev Sent : Type 0
Sent = Option (TcpConnection × List Effect × Buffer)

pub send_buffer : Bool → Write → TcpConnection → Buffer → Sent
send_buffer in_loop_thread write c b =
    if is_state c.state connected
    then (if in_loop_thread
        then (read_range b.buffer b.read_index (readable_bytes b) >>= λ bytes.
            send_in_loop write c bytes >>= λ r. some (r.0, r.1, retrive_all b))
        else (retrive_all_as_string b >>= λ s. some (c, queues_send s.0 ∷ [], s.1)))
    else some (c, [], b)

abbrev with_buffer : Buffer → Outcome → Sent
with_buffer b r = r >>= λ r. some (r.0, r.1, b)

-- Case by case.
pick :
    (is_connected in_loop_thread : Bool) (here there : Sent) (sent queued : Outcome)
    (c : TcpConnection) (emptied b : Buffer)
    → here ≡ with_buffer emptied sent
    → there ≡ with_buffer emptied queued
    → (if is_connected then (if in_loop_thread then here else there) else some (c, [], b))
      ≡ with_buffer
          (if is_connected then emptied else b)
          (if is_connected then (if in_loop_thread then sent else queued) else some (c, []))
pick true true here there sent queued c emptied b h t = h
pick true false here there sent queued c emptied b h t = t
pick false in_loop_thread here there sent queued c emptied b h t = refl

-- `Send(Buffer*)` of a valid buffer does what `Send` of the readable bytes does, and empties the
-- buffer; on a connection that is not connected it does nothing and leaves the buffer.
pub send_buffer-send :
    (in_loop_thread : Bool) (write : Write) (c : TcpConnection) (b : Buffer)
    → IsValid b
    → send_buffer in_loop_thread write c b ≡ (
        send in_loop_thread write c (contents b) >>= λ r.
        some (r.0, r.1, if is_state c.state connected then retrive_all b else b))
unfolding send_buffer send
send_buffer-send in_loop_thread write c b v =
    pick (is_state c.state connected) in_loop_thread _ _ (send_in_loop write c (contents b))
      (some (c, queues_send (contents b) ∷ [])) c (retrive_all b) b
      (ap
        (λ r.
          ◌>>=◌ {B = TcpConnection × List Effect × Buffer} r
            (λ bytes. with_buffer (retrive_all b) (send_in_loop write c bytes)))
        (read_range-all b v))
      (ap
        (λ r.
          ◌>>=◌ {B = TcpConnection × List Effect × Buffer} r
            (λ s. some (c, queues_send s.0 ∷ [], s.1)))
        (retrive_all_as_string-all b v))
