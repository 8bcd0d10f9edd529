-- ===== src/Logger.antt =====
-- include/logger.h, src/logger.cc: a statement of the log, from the test of its level to the call of
-- the output function. The texts of the thread id and the time are arguments.
pub mod Line
pub mod Kept
mod Tests
use my_net_lib.Common.{Bool, List, Option, [], if◌then◌else◌, leb, none, some, true, ℕ, ◌∷◌}
use my_net_lib.Decimal.{decimal}
use my_net_lib.LogStream.{
  FixedBuffer, small_buffer_size, new_buffer, append_fixed, Item, number_item, cstr_item,
  string_item, char_item, stream,
}

pub data LogLevel : Type 0 where
  trace debug info warn error fatal : LogLevel

abbrev pub level_number : LogLevel → ℕ
level_number trace = 0
level_number debug = 1
level_number info = 2
level_number warn = 3
level_number error = 4
level_number fatal = 5

-- `InitLogLevel`, with the levels whose macros the build defines: the first of the chain counts.
-- `none`: without a macro the function ends without a value.
abbrev pub init_log_level : (defined : LogLevel → Bool) → Option LogLevel
init_log_level defined =
    if defined trace
    then some trace
    else (if defined debug
        then some debug
        else (if defined info
            then some info
            else (if defined warn
                then some warn
                else (if defined error
                    then some error
                    else (if defined fatal then some fatal else none)))))

-- `LogLevelName`: "[TRACE]: ", "[DEBUG]: ", "[INFO]:  ", "[WARN]:  ", "[ERROR]: ", "[FATAL]: "
abbrev pub level_name : LogLevel → List ℕ
level_name trace = b'[' ∷ b'T' ∷ b'R' ∷ b'A' ∷ b'C' ∷ b'E' ∷ b']' ∷ b':' ∷ b' ' ∷ []
level_name debug = b'[' ∷ b'D' ∷ b'E' ∷ b'B' ∷ b'U' ∷ b'G' ∷ b']' ∷ b':' ∷ b' ' ∷ []
level_name info = b'[' ∷ b'I' ∷ b'N' ∷ b'F' ∷ b'O' ∷ b']' ∷ b':' ∷ b' ' ∷ b' ' ∷ []
level_name warn = b'[' ∷ b'W' ∷ b'A' ∷ b'R' ∷ b'N' ∷ b']' ∷ b':' ∷ b' ' ∷ b' ' ∷ []
level_name error = b'[' ∷ b'E' ∷ b'R' ∷ b'R' ∷ b'O' ∷ b'R' ∷ b']' ∷ b':' ∷ b' ' ∷ []
level_name fatal = b'[' ∷ b'F' ∷ b'A' ∷ b'T' ∷ b'A' ∷ b'L' ∷ b']' ∷ b':' ∷ b' ' ∷ []

-- Where a statement stands, and what it finds there: the thread's id and the time as texts, and the
-- bytes behind the arrays of `operator<<(char)`.
pub record Site : Type 0 where
  pub filename : List ℕ
  pub func : List ℕ
  pub tid : List ℕ
  pub time : List ℕ
  pub beyond : List ℕ

abbrev space : Item
space = cstr_item (some (b' ' ∷ []))

-- What `Impl::Impl` streams.
abbrev pub head_items : LogLevel → Site → List Item
head_items level site =
    string_item site.tid
    ∷ space
    ∷ string_item site.time
    ∷ space
    ∷ string_item (level_name level)
    ∷ space
    ∷ []

-- What the constructor of `Logger` for TRACE and DEBUG adds.
abbrev pub func_items : LogLevel → Site → List Item
func_items trace site = cstr_item (some site.func) ∷ char_item b' ' site.beyond ∷ []
func_items debug site = cstr_item (some site.func) ∷ char_item b' ' site.beyond ∷ []
func_items _ site = []

-- What `Impl::Finish` streams: 22 is in the source.
abbrev pub tail_items : Site → List Item
tail_items site =
    cstr_item (some (b' ' ∷ b'-' ∷ b' ' ∷ []))
    ∷ cstr_item (some site.filename)
    ∷ char_item b':' site.beyond
    ∷ number_item (decimal 22)
    ∷ cstr_item (some (10 ∷ []))
    ∷ []

pub data Effect : Type 0 where
  outputs : List ℕ → Effect
  flushes aborts : Effect

-- What the destructor does behind the output.
abbrev pub ending : LogLevel → List Effect
ending fatal = flushes ∷ aborts ∷ []
ending _ = []

unfoldable pub new_logger : LogLevel → Site → FixedBuffer
unfolding stream
new_logger level site =
    stream (stream (new_buffer small_buffer_size) (head_items level site)) (func_items level site)

-- The destructor.
unfoldable pub delete_logger : LogLevel → Site → FixedBuffer → List Effect
unfolding stream
delete_logger level site b = outputs (stream b (tail_items site)).bytes ∷ ending level

-- The macros test the level for TRACE, DEBUG and INFO alone.
abbrev pub is_enabled : (log_level : LogLevel) → LogLevel → Bool
is_enabled log_level trace = leb (level_number log_level) (level_number trace)
is_enabled log_level debug = leb (level_number log_level) (level_number debug)
is_enabled log_level info = leb (level_number log_level) (level_number info)
is_enabled log_level warn = true
is_enabled log_level error = true
is_enabled log_level fatal = true

-- `LOG_… << items`
unfoldable pub log : (log_level : LogLevel) → LogLevel → Site → List Item → List Effect
unfolding new_logger delete_logger
log log_level level site items =
    if is_enabled log_level level
    then delete_logger level site (stream (new_logger level site) items)
    else []
