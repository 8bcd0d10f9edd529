-- ===== src/LogStream/Tests.antt =====
-- A line at concrete inputs.
use my_net_lib.Common.{List, [], none, refl, true, ◌∷◌, ◌≡◌}
use my_net_lib.LogStream.{new_buffer, stream, Item, bool_item, cstr_item, string_item}

abbrev line : List Item
line = string_item (65 ∷ 66 ∷ []) ∷ cstr_item none ∷ bool_item true ∷ []

-- The middle of the line does not fit, the rest does.
streams_line : (stream (new_buffer 8) line).bytes ≡ 65 ∷ 66 ∷ 116 ∷ 114 ∷ 117 ∷ 101 ∷ 32 ∷ []
unfolding stream
streams_line = refl
