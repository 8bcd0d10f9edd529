-- ===== src/AsyncLogging/Inv.antt =====
-- Nothing is lost between the threads that log and the file.
use my_net_lib.Common.{
  Bool, List, Option, [], ap, append-end, append_assoc, arith, false, if_true, if◌then◌else◌, leb,
  length, ltb, none, not, refl, some, subst, sym, true, ℕ, ◌&&◌, ◌++◌, ◌==◌, ◌>>=◌, ◌∙◌, ◌≡◌, ◌≢◌,
  ◌≤◌, ◌⊎◌,
}
use my_net_lib.LogStream.{FixedBuffer}
use my_net_lib.AsyncLogging.{append, Batch, collect, write_out, finish}
use my_net_lib.AsyncLogging.System.{
  Back, waits, writes, System, initial, Act, appends, collects, finishes, accepts, finished,
  back_step, act,
}
use my_net_lib.AsyncLogging.Recycle.{blank, IsBatch, finish_lem}
use my_net_lib.AsyncLogging.Front.{LogInv, content, append-Appended, Collected, collect-Collected}

-- The buffers that the back end is about to write.
abbrev pub in_batch : Back → List FixedBuffer
in_batch (waits b c) = []
in_batch (writes batch) = batch.temp_buffer_vec

abbrev pub BackInv : Back → Type 0
BackInv (waits b c) = (b ≡ blank) × (c ≡ blank)
BackInv (writes batch) = IsBatch batch.new_buffer2 batch.temp_buffer_vec

pub record InvAt (back : Back) (s : System) : Type 0 where
  pub front : LogInv s.logging
  pub back_end : BackInv back
  pub order : s.written ++ (write_out (in_batch back) ++ content s.logging) ≡ s.accepted

abbrev pub Inv : System → Type 0
Inv s = InvAt s.back s

pub initial-Inv : Inv initial
unfolding write_out
initial-Inv = record {
  front = record { current = refl; big = tt; next_blank = λ b e. cc; refilled = λ e. absurd (cc) };
  back_end = (refl, refl);
  order = refl;
}

arrives : {s s' : System} → Inv s → some s ≡ some s' → Inv s'
arrives {s} i h = subst Inv (cc h) i

finished-Inv :
    (batch : Batch) (s : System) {s' : System} (safe : Bool)
    → InvAt (writes batch) s
    → (r : Option (List ℕ × FixedBuffer × FixedBuffer))
    → r ≡ (if safe then some (write_out batch.temp_buffer_vec, blank, blank) else none)
    → (r >>= λ r. some (finished s r)) ≡ some s'
    → Inv s'
unfolding write_out
finished-Inv batch s {s'} true i r e h =
    arrives {s = finished s (write_out batch.temp_buffer_vec, blank, blank)}
      (record {
        front = i.front;
        back_end = (refl, refl);
        order =
            append_assoc s.written (write_out batch.temp_buffer_vec) (content s.logging) ∙ i.order;
      })
      (subst (λ r. (r >>= λ r. some (finished s r)) ≡ some s') e h)
finished-Inv batch s {s'} false i r e h =
    let h' : none ≡ some s' = subst (λ r. (r >>= λ r. some (finished s r)) ≡ some s') e h in
    absurd (cc)

back_step-Inv :
    (a : Act) (back : Back) (s : System) {s' : System}
    → InvAt back s
    → back_step a back s ≡ some s'
    → Inv s'
unfolding back_step write_out
back_step-Inv collects (waits b c) s {s'} i h =
    let r = collect b c s.logging in
    let q : Collected s.logging r =
      subst (λ b. Collected s.logging (collect b c s.logging)) (sym i.back_end.0)
        (subst (λ c. Collected s.logging (collect blank c s.logging)) (sym i.back_end.1)
          (collect-Collected s.logging i.front)) in
    arrives {s = record s { logging = r.0; back = writes r.1 }}
      (record {
        front = q.inv;
        back_end = q.batch;
        order = ap (λ t. s.written ++ t) q.order ∙ i.order;
      })
      h
back_step-Inv finishes (writes batch) s {s'} i h =
    finished-Inv batch s _ i (finish (length s.logging.buffer_to_write) batch)
      (finish_lem (length s.logging.buffer_to_write) batch i.back_end) h
back_step-Inv _ _ s i h = absurd (cc)

pub act-Inv : (a : Act) (s : System) {s' : System} → Inv s → act a s ≡ some s' → Inv s'
unfolding act
act-Inv (appends msg) s i h =
    let r = append-Appended msg s.logging i.front in
    arrives {s = record s { logging = append msg s.logging; accepted = s.accepted ++ accepts msg }}
      (record {
        front = r.inv;
        back_end = i.back_end;
        order =
            ap (λ t. s.written ++ (write_out (in_batch s.back) ++ t)) r.order
            ∙ append-end s.written (write_out (in_batch s.back)) (content s.logging) s.accepted
                (accepts msg) i.order;
      })
      h
act-Inv a s i h = back_step-Inv a s.back s i h

-- The systems that the threads can reach from the start of the back end.
pub data Reach : System → Type 0 where
  start : Reach initial
  next : {s s' : System} (a : Act) → Reach s → act a s ≡ some s' → Reach s'

pub Reach-Inv : {s : System} → Reach s → Inv s
Reach-Inv start = initial-Inv
Reach-Inv (next {s} a r h) = act-Inv a s (Reach-Inv r) h

-- While the back end runs, no message smaller than a buffer is lost, doubled or reordered: what is
-- in the file, in the batch, in the full buffers and in the current one is what was logged, in
-- order. (A message as large as a buffer is dropped.)
pub written_in_order :
    {s : System}
    → Reach s
    → s.written ++ (write_out (in_batch s.back) ++ content s.logging) ≡ s.accepted
written_in_order r = (Reach-Inv r).order

-- The back end can always end its pass, and then has written its whole batch, unless the batch has
-- more than 25 buffers, or one while more than two wait at the front end: both are undefined
-- behaviour.
pub pass_ends :
    {s : System} (batch : Batch)
    → Reach s
    → s.back ≡ writes batch
    → length batch.temp_buffer_vec ≤ 25
    → (length batch.temp_buffer_vec ≢ 1) ⊎ (length s.logging.buffer_to_write ≤ 2)
    → act finishes s ≡ some (finished s (write_out batch.temp_buffer_vec, blank, blank))
unfolding act back_step
pass_ends {s} batch r e few h =
    subst
      (λ back.
        back_step finishes back s
        ≡ some (finished s (write_out batch.temp_buffer_vec, blank, blank)))
      (sym e)
      (ap (λ r. ◌>>=◌ {B = System} r (λ r. some (finished s r)))
        (finish_lem n batch i.back_end ∙ if_true _ _ safe))
  where
    n : ℕ
    n = length s.logging.buffer_to_write

    i : InvAt (writes batch) s
    i = subst (λ back. InvAt back s) e (Reach-Inv r)

    safe :
        (leb (length batch.temp_buffer_vec) 25
          && not (length batch.temp_buffer_vec == 1 && ltb 2 n))
        ≡ true
    safe = ground arith
