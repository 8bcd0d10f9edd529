-- ===== src/AsyncLogging/Tests.antt =====
-- Logging at concrete inputs.
use my_net_lib.Common.{
  List, Option, [], arith, false, inr, length, none, refl, some, ℕ, ◌++◌, ◌∷◌, ◌≡◌,
}
use my_net_lib.LogFile.{
  LogFile, new_log_file, append_unlocked, append_line, append_file, append_loop,
}
use my_net_lib.LogFile.Files.{Files, wrote}
use my_net_lib.AsyncLogging.OnDisk.{
  Logged, opens_log, takes_batch, ends_pass, none_left, and_then, IsLogged, on_disk,
}
use my_net_lib.LogStream.{big_buffer_size, new_buffer, append_fixed}
use my_net_lib.AsyncLogging.{new_logging, append, Batch, collect, write_out, finish}
use my_net_lib.AsyncLogging.System.{
  writes, System, appends, collects, finishes, finished, back_step, act,
}
use my_net_lib.AsyncLogging.Recycle.{blank, finish_lem}
use my_net_lib.AsyncLogging.Stopping.{
  Service, new_service, Step, logs, starts, tests, collects_now, finishes_now, stops, joins,
  take_step, thread_step, ServiceReach, made, takes, lost_at_stop,
}
use my_net_lib.AsyncLogging.Inv.{Reach, start, next, written_in_order, pass_ends}

-- One message, collected after the timeout, and another while it is written.
abbrev batch_of_one : Batch
batch_of_one = record {
  temp_buffer_vec = record { size = big_buffer_size; bytes = 65 ∷ 66 ∷ [] } ∷ [];
  new_buffer2 = some (new_buffer big_buffer_size);
}

abbrev two_logged : System
two_logged = record {
  logging = record new_logging { cur_buffer = record { size = big_buffer_size; bytes = 67 ∷ [] } };
  back = writes batch_of_one;
  written = [];
  accepted = 65 ∷ 66 ∷ 67 ∷ [];
}

two_logged-Reach : Reach two_logged
unfolding act back_step append append_fixed collect
two_logged-Reach =
    next (appends (67 ∷ [])) (next collects (next (appends (65 ∷ 66 ∷ [])) start refl) refl) refl

written_in_order_example :
    ◌≡◌ {A = List ℕ}
      ([] ++ (write_out (batch_of_one.temp_buffer_vec) ++ ([] ++ 67 ∷ [])))
      (65 ∷ 66 ∷ 67 ∷ [])
unfolding write_out
written_in_order_example = written_in_order two_logged-Reach

pass_ends_example :
    act finishes two_logged
    ≡ some (finished two_logged (write_out (batch_of_one.temp_buffer_vec), blank, blank))
pass_ends_example = pass_ends batch_of_one two_logged-Reach refl (omega arith) (inr (omega arith))

-- The log rolls behind the first message.
abbrev opened : LogFile
opened = new_log_file 100 1 0 1024

abbrev no_lines : Files
no_lines = record { file = opened; lines = []; closed = [] }

abbrev one_closed : Files
one_closed = wrote (65 ∷ 66 ∷ []) (append_unlocked 200 2 opened) no_lines

one_closed-Logged : Logged (finished two_logged (65 ∷ 66 ∷ [], blank, blank)) one_closed
unfolding act back_step append append_fixed collect write_out append_line append_file append_loop
one_closed-Logged =
    ends_pass batch_of_one
      (Logged.logs (67 ∷ [])
        (takes_batch
          (Logged.logs (65 ∷ 66 ∷ []) (opens_log 100 1 0 1024 (omega arith) (omega arith)) refl)
          refl)
        refl)
      refl pass_ends_example
      (and_then (λ bytes. (length bytes, false)) 200 (65 ∷ 66 ∷ []) none_left (omega arith) refl
        refl refl refl refl)

on_disk_example : IsLogged (finished two_logged (65 ∷ 66 ∷ [], blank, blank)) one_closed
on_disk_example = on_disk one_closed-Logged

-- A pass that waits at one buffer while three are full is undefined.
one_of_three : finish 3 batch_of_one ≡ none
one_of_three = finish_lem 3 batch_of_one (record {
  big = (refl, tt);
  some_buffer = omega arith;
  spare = λ e. absurd (cc);
  blank_spare = λ b e. cc;
})

-- `Stop` while the first message is written: the second one is in no file.
abbrev after : Option Service → Service
after none = new_service
after (some s) = s

abbrev run : List Step → Service → Service
run [] s = s
run (a ∷ steps) s = run steps (after (take_step a s))

abbrev stopped : Service
stopped =
    run
      (starts
        ∷ tests
        ∷ logs (65 ∷ [])
        ∷ collects_now
        ∷ logs (66 ∷ [])
        ∷ stops
        ∷ finishes_now
        ∷ tests
        ∷ joins
        ∷ [])
      new_service

stopped-Reach : ServiceReach stopped
unfolding take_step thread_step act back_step append append_fixed collect finish write_out
stopped-Reach =
    takes joins
      (takes tests
        (takes finishes_now
          (takes stops
            (takes (logs (66 ∷ []))
              (takes collects_now
                (takes (logs (65 ∷ [])) (takes tests (takes starts made refl) refl) refl) refl)
              refl)
            refl)
          refl)
        refl)
      refl

lost_at_stop_example : ◌≡◌ {A = List ℕ} ((65 ∷ []) ++ (66 ∷ [])) (65 ∷ 66 ∷ [])
unfolding take_step thread_step act back_step append append_fixed collect finish write_out
lost_at_stop_example = lost_at_stop stopped-Reach refl
