-- ===== src/Logger/Kept.antt =====
-- A logger whose output function is `AsyncLogging::Append`, as the servers of the examples set it.
use my_net_lib.Common.{List, [], length, ℕ, ◌++◌, ◌<◌, ◌^◌, ◌∷◌, ◌≡◌, ◌≤◌, ◌⊎◌}
use my_net_lib.LogStream.{Item, texts, small_buffer_size}
use my_net_lib.AsyncLogging.{AsyncLogging, append}
use my_net_lib.AsyncLogging.Front.{LogInv, content}
use my_net_lib.Decimal.{decimal}
use my_net_lib.TimeStamp.{Tm, time_to_string}
use my_net_lib.TimeStamp.Text.{IsTm}
use my_net_lib.Logger.{LogLevel, Site, Effect, outputs, flushes, aborts, ending, log}
use my_net_lib.Logger.Line.{head_text, line_text, line_items, fitting}

-- `MyOutput` of the examples, for the calls of the output function; the flush and the abort do not
-- reach the asynchronous log.
unfoldable pub run_effects : List Effect → AsyncLogging → AsyncLogging
unfolding append
run_effects [] l = l
run_effects (outputs msg ∷ es) l = run_effects es (append msg l)
run_effects (flushes ∷ es) l = run_effects es l
run_effects (aborts ∷ es) l = run_effects es l

-- What an enabled statement does to the log `l`.
pub record LineKept (log_level level : LogLevel) (site : Site) (items : List Item)
    (l : AsyncLogging) : Type 0 where
  pub line : List ℕ
  pub puts_out : log log_level level site items ≡ outputs line ∷ ending level
  -- What finds room of the items, in order; all of them if they fit.
  pub of_items : line ≡ texts (fitting 0 (line_items level site items))
  pub whole :
      (line ≡ line_text level site items)
      ⊎ (small_buffer_size ≤ length (line_text level site items))
  pub more : List ℕ
  pub begins : line ≡ head_text level site ++ more
  -- The asynchronous log takes the line as it is.
  pub inv : LogInv (run_effects (log log_level level site items) l)
  pub in_memory : content (run_effects (log log_level level site items) l) ≡ content l ++ line

-- A statement of a thread with the number `tid`, at the time `now`.
pub record IsStamped (site : Site) (tid : ℕ) (now : Tm) : Type 0 where
  pub tid_text : site.tid ≡ decimal tid
  pub time_text : site.time ≡ time_to_string now
  pub tid_small : tid < 2 ^ 31
  pub now_ok : IsTm now
