-- ===== src/AsyncLogging/Stopping.antt =====
-- `Start`, `Stop` and the loop of `ThreadFunc` around the passes of the back end.
use my_net_lib.Common.{
  >>=-eq-some, Bool, Bool-cases, List, Option, [], ap, else_case, false, if◌then◌else◌, inl, inr,
  length, none, refl, some, subst, sym, then_case, true, ℕ, ◌++◌, ◌>>=◌, ◌∙◌, ◌≡◌,
}
use my_net_lib.AsyncLogging.{write_out, finish, append}
use my_net_lib.AsyncLogging.System.{
  System, initial, Back, waits, writes, appends, collects, finishes, finished, back_step, act,
  accepts,
}
use my_net_lib.AsyncLogging.Inv.{Inv, initial-Inv, act-Inv, in_batch}
use my_net_lib.AsyncLogging.Front.{content}

-- The thread that logs to the file: not started; at the test of `running_`; in a pass; at its end.
pub data Pc : Type 0 where
  unborn testing passing ended : Pc

pub record Service : Type 0 where
  pub system : System
  pub pc : Pc
  pub running : Bool
  pub joined : Bool

abbrev pub new_service : Service
new_service = record { system = initial; pc = unborn; running = false; joined = false }

-- `stops` and `joins` are the two halves of `Stop`.
pub data Step : Type 0 where
  logs : List ℕ → Step
  starts tests collects_now finishes_now stops joins : Step

-- The system takes a step, and the thread goes on at `pc`.
abbrev pub with_system : Service → Pc → Option System → Option Service
with_system s pc r = r >>= λ system. some (record s { system = system; pc = pc })

unfoldable pub thread_step : Step → Pc → Service → Option Service
unfolding act
thread_step starts unborn s = some (record s { pc = testing; running = true })
thread_step tests testing s =
    if s.running then some (record s { pc = passing }) else some (record s { pc = ended })
thread_step collects_now passing s = with_system s passing (act collects s.system)
thread_step finishes_now passing s = with_system s testing (act finishes s.system)
thread_step joins ended s = some (record s { joined = true })
thread_step _ _ s = none

unfoldable pub take_step : Step → Service → Option Service
unfolding act thread_step
take_step (logs msg) s = with_system s s.pc (act (appends msg) s.system)
take_step stops s = some (record s { running = false })
take_step a s = thread_step a s.pc s

-- Between two passes the thread holds no batch.
abbrev is_between : Pc → Bool
is_between passing = false
is_between _ = true

record ServiceInv (s : Service) : Type 0 where
  inv : Inv s.system
  between : is_between s.pc ≡ true → in_batch s.system.back ≡ []

pub data ServiceReach : Service → Type 0 where
  made : ServiceReach new_service
  takes : {s s' : Service} (a : Step) → ServiceReach s → take_step a s ≡ some s' → ServiceReach s'

arrives : {s s' : Service} → ServiceInv s → some s ≡ some s' → ServiceInv s'
arrives {s} {s'} i h = subst ServiceInv (cc h) i

finishes-batch : (s : System) {s' : System} → act finishes s ≡ some s' → in_batch s'.back ≡ []
unfolding act back_step
finishes-batch s {s'} h = go s.back h
  where
    go : (b : Back) → back_step finishes b s ≡ some s' → in_batch s'.back ≡ []
    go (waits b c) h = cc
    go (writes batch) h =
        let (r, t, e) = >>=-eq-some (finish (length s.logging.buffer_to_write) batch) _ h in
        let same : finished s r ≡ s' = cc in subst (λ (t : System). in_batch t.back ≡ []) same refl

thread_step-Inv :
    (a : Step) (pc : Pc) (s : Service) {s' : Service}
    → s.pc ≡ pc
    → ServiceInv s
    → thread_step a pc s ≡ some s'
    → ServiceInv s'
unfolding thread_step
thread_step-Inv starts unborn s e i h =
    arrives {s = record s { pc = testing; running = true }}
      (record { inv = i.inv; between = λ _. i.between (rw e refl) }) h
thread_step-Inv tests testing s e i h = elim (Bool-cases s.running) [
  | inl on ↦
      arrives {s = record s { pc = passing }} (record { inv = i.inv; between = λ n. cc })
        (then_case _ on h)
  | inr off ↦
      arrives {s = record s { pc = ended }}
        (record { inv = i.inv; between = λ _. i.between (rw e refl) }) (else_case _ off h)
]
thread_step-Inv collects_now passing s e i h =
    let (system, t, r) = >>=-eq-some (act collects s.system) _ h in
    arrives (record { inv = act-Inv collects s.system i.inv t; between = λ n. cc }) r
thread_step-Inv finishes_now passing s e i h =
    let (system, t, r) = >>=-eq-some (act finishes s.system) _ h in
    arrives
      (record { inv = act-Inv finishes s.system i.inv t; between = λ _. finishes-batch s.system t })
      r
thread_step-Inv joins ended s e i h =
    arrives {s = record s { joined = true }} (record { inv = i.inv; between = i.between }) h
thread_step-Inv a pc s e i h = cc

take_step-Inv :
    (a : Step) (s : Service) {s' : Service} → ServiceInv s → take_step a s ≡ some s' → ServiceInv s'
unfolding take_step act
take_step-Inv (logs msg) s i h =
    arrives
      {s = record s {
        system = record (s.system) {
          logging = append msg s.system.logging;
          accepted = s.system.accepted ++ accepts msg;
        };
      }}
      (record { inv = act-Inv (appends msg) s.system i.inv refl; between = i.between }) h
take_step-Inv stops s i h =
    arrives {s = record s { running = false }} (record { inv = i.inv; between = i.between }) h
take_step-Inv starts s i h = thread_step-Inv starts s.pc s refl i h
take_step-Inv tests s i h = thread_step-Inv tests s.pc s refl i h
take_step-Inv collects_now s i h = thread_step-Inv collects_now s.pc s refl i h
take_step-Inv finishes_now s i h = thread_step-Inv finishes_now s.pc s refl i h
take_step-Inv joins s i h = thread_step-Inv joins s.pc s refl i h

ServiceReach-Inv : {s : Service} → ServiceReach s → ServiceInv s
ServiceReach-Inv made = record { inv = initial-Inv; between = λ _. refl }
ServiceReach-Inv (takes {s} a r h) = take_step-Inv a s (ServiceReach-Inv r) h

-- When the thread has ended, the file has what was logged but for what is left in the front end's
-- buffers: that is lost. Nothing else is.
pub lost_at_stop :
    {s : Service}
    → ServiceReach s
    → s.pc ≡ ended
    → s.system.written ++ content s.system.logging ≡ s.system.accepted
unfolding write_out
lost_at_stop {s} r e =
    let i = ServiceReach-Inv r in
    let nothing : in_batch s.system.back ≡ [] = i.between (rw e refl) in
    ap (λ b. s.system.written ++ (write_out b ++ content s.system.logging)) (sym nothing)
    ∙ i.inv.order
