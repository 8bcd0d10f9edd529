-- ===== src/Logger/Tests.antt =====
-- Statements of the log at concrete inputs.
use my_net_lib.Common.{Bool, List, [], false, none, refl, some, true, ℕ, ◌∷◌, ◌≡◌}
use my_net_lib.Logger.{init_log_level}
use my_net_lib.LogStream.{Item, string_item}
use my_net_lib.Logger.{LogLevel, Site}
use my_net_lib.TimeStamp.{Tm, time_to_string}

-- Thread 7 at 09:00, in a file "a.cc".
abbrev site : Site
site = record {
  filename = 97 ∷ 46 ∷ 99 ∷ 99 ∷ [];
  func = 102 ∷ [];
  tid = 55 ∷ [];
  time = 48 ∷ 57 ∷ 58 ∷ 48 ∷ 48 ∷ [];
  beyond = [];
}

abbrev items : List Item
items = string_item (104 ∷ 105 ∷ []) ∷ []

-- "7 09:00 [FATAL]:  hi - a.cc:22\n"
abbrev fatal_line : List ℕ
fatal_line =
    55 ∷ 32 ∷ 48 ∷ 57 ∷ 58 ∷ 48 ∷ 48 ∷ 32 ∷ 91 ∷ 70 ∷ 65 ∷ 84 ∷ 65 ∷ 76 ∷ 93 ∷ 58 ∷ 32 ∷ 32 ∷ 104
    ∷ 105 ∷ 32 ∷ 45 ∷ 32 ∷ 97 ∷ 46 ∷ 99 ∷ 99 ∷ 58 ∷ 50 ∷ 50 ∷ 10 ∷ []

abbrev morning : Tm
morning = record { tm_year = 126; tm_mon = 10; tm_mday = 26; tm_hour = 9; tm_min = 0; tm_sec = 0 }

abbrev stamped : Site
stamped = record site { time = time_to_string morning }

-- The build defines USE_LOG_WARN alone.
abbrev use_log_warn : LogLevel → Bool
use_log_warn LogLevel.warn = true
use_log_warn _ = false

initial_level : init_log_level use_log_warn ≡ some LogLevel.warn
initial_level = refl

no_level : init_log_level (λ l. false) ≡ none
no_level = refl
