-- ===== src/EventLoop/Pass.antt =====
-- One pass of `Loop` from the poll to the next test.
use my_net_lib.Common.{
  List, Option, [], ap, append-nil, append_assoc, false, length, lt→ltb, refl, replicate, some,
  subst, sym, true, ℕ, ◌++◌, ◌<◌, ◌>>=◌, ◌∙◌, ◌∷◌, ◌≡◌,
}
use my_net_lib.EventLoop.{set_calling, handle_read, swap_functors}
use my_net_lib.EventLoop.System.{
  testing, polling, io, running, System, Act, act, loop_step, poll_returns, reads_wakeup, io_done,
  swaps, runs_functor, functors_done,
}

-- Several steps, if each can be taken.
abbrev pub acts : List Act → System → Option System
acts [] s = some s
acts (a ∷ rest) s = act a s >>= acts rest

-- The steps of the loop's thread from the poll on, with `n` functors to run.
abbrev pub pass : ℕ → List Act
pass n =
    poll_returns ∷ reads_wakeup ∷ io_done ∷ swaps ∷ (replicate n runs_functor ++ functors_done ∷ [])

abbrev ended : System → List ℕ → System
ended s fs = record s {
  loop = record (s.loop) { calling_pending_functors = false };
  pc = testing;
  ran = s.ran ++ fs;
}

functors_run :
    (fs : List ℕ) (s : System)
    → s.pc ≡ running fs
    → acts (replicate (length fs) runs_functor ++ functors_done ∷ []) s ≡ some (ended s fs)
unfolding act loop_step set_calling handle_read swap_functors
functors_run [] s e =
    subst (λ pc. (loop_step functors_done pc s >>= acts []) ≡ some (ended s [])) (sym e)
      (ap
        (λ t. some (record s {
          loop = record (s.loop) { calling_pending_functors = false };
          pc = testing;
          ran = t;
        }))
        (sym (append-nil s.ran)))
functors_run (f ∷ fs) s e =
    subst
      (λ pc.
        (loop_step runs_functor pc s
          >>= acts (replicate (length fs) runs_functor ++ functors_done ∷ []))
        ≡ some (ended s (f ∷ fs)))
      (sym e)
      (functors_run fs (record s { pc = running fs; ran = s.ran ++ f ∷ [] }) refl
        ∙ ap
            (λ t. some (record s {
              loop = record (s.loop) { calling_pending_functors = false };
              pc = testing;
              ran = t;
            }))
            (append_assoc s.ran (f ∷ []) fs))

-- A loop in the poll whose eventfd is readable returns from it, and in one pass without other
-- threads or callbacks that queue runs every functor that is pending, in order. It then stands before the test of `quit_`.
pub pass_lem :
    (s : System)
    → s.pc ≡ polling
    → 0 < s.loop.wake
    → acts (pass (length s.loop.pending_functors)) s
      ≡ some (record s {
        loop = record (s.loop) {
          calling_pending_functors = false;
          pending_functors = [];
          wake = 0;
        };
        pc = testing;
        ran = s.ran ++ s.loop.pending_functors;
      })
unfolding act loop_step set_calling handle_read swap_functors
pass_lem s e h =
    subst (λ pc. (loop_step poll_returns pc s >>= acts rest) ≡ some done_pass) (sym e)
      (subst (λ b. acts rest (record s { pc = io b }) ≡ some done_pass)
        (sym (lt→ltb 0 s.loop.wake h))
        (functors_run s.loop.pending_functors
          (record s {
            loop = record (s.loop) {
              calling_pending_functors = true;
              pending_functors = [];
              wake = 0;
            };
            pc = running s.loop.pending_functors;
          })
          refl))
  where
    rest : List Act
    rest =
        reads_wakeup
        ∷ io_done
        ∷ swaps
        ∷ (replicate (length s.loop.pending_functors) runs_functor ++ functors_done ∷ [])

    done_pass : System
    done_pass = record s {
      loop = record (s.loop) { calling_pending_functors = false; pending_functors = []; wake = 0 };
      pc = testing;
      ran = s.ran ++ s.loop.pending_functors;
    }
