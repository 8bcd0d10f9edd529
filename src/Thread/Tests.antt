-- ===== src/Thread/Tests.antt =====
-- Threads at concrete inputs.
use my_net_lib.Common.{Option, [], false, none, not, refl, some, ◌&&◌, ◌==◌, ◌≡◌}
use my_net_lib.Decimal.{codes, decimal}
use my_net_lib.Thread.{
  System, created, act, starts, destroys, returns, body_goes, faulted, set_default_name, is_ended,
}
use my_net_lib.Thread.Joined.{Reach, new, next, thread_lem, is_faulted, is_outside}

abbrev after : Option System → System
after none = created
after (some s) = s

-- The thread with the id 7 runs through, and is joined.
abbrev one : System
one = after (act 7 starts created)

abbrev two : System
two = after (act 7 body_goes one)

abbrev three : System
three = after (act 7 body_goes two)

abbrev four : System
four = after (act 7 returns three)

four-Reach : Reach 7 four
unfolding act
four-Reach =
    next returns (next body_goes (next body_goes (next starts new tt refl) tt refl) tt refl) tt refl

thread_lem_example :
    (is_faulted four.body ≡ false)
    × ((is_outside four.holder && four.started && not (four.tid == 7)) ≡ false)
    × ((is_outside four.holder && four.joined && not (is_ended four.body)) ≡ false)
thread_lem_example = thread_lem four-Reach

-- An object that is destroyed without a join, before its thread calls `func_`.
unjoined : (after (act 7 body_goes (after (act 7 destroys four)))).body ≡ faulted
unfolding act
unjoined = refl

third_name : set_default_name 2 [] ≡ (3, codes "Thread 3")
unfolding set_default_name decimal
third_name = refl
