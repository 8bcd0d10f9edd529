-- ===== src/Channel/Tests.antt =====
-- Channels at concrete inputs.
use my_net_lib.Common.{[], refl, true, ◌∷◌, ◌≡◌}
use my_net_lib.Channel.{handle_event, read_call, Channel, new_channel, none_event}

-- The peer has closed, and input is left.
abbrev hung_up : Channel
hung_up = record (new_channel 4) {
  revents = record none_event { pollin = true; pollhup = true };
  has_read = true;
  has_write = true;
  has_close = true;
  has_error = true;
}

-- The input is read before the close is seen.
hung_up_reads : handle_event hung_up true ≡ read_call ∷ []
unfolding handle_event
hung_up_reads = refl
