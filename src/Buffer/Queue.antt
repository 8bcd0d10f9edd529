-- ===== src/Buffer/Queue.antt =====
-- A buffer behaves as a queue of bytes, for every client that retrieves no more than is readable.
use my_net_lib.Common.{
  >>=-eq-some, List, Option, [], ap, arith, drop, if◌then◌else◌, leb, length, none, some, take, ℕ,
  ◌++◌, ◌+◌, ◌>>=◌, ◌∙◌, ◌∷◌, ◌≡◌, ◌≤◌,
}
use my_net_lib.Buffer.{
  Buffer, max_size, append, retrive, retrive_all, retrive_as_string, retrive_all_as_string,
}
use my_net_lib.Buffer.Valid.{
  IsValid, contents, length-contents, retrive-IsValid, retrive_all-IsValid,
}
use my_net_lib.Buffer.Space.{Appended, append-Appended}
use my_net_lib.Buffer.Retrive.{
  Retrived, contents-retrive, retrive-low, contents-retrive_all, retrive_all-low,
  retrive_as_string-Retrived, retrive_all_as_string-Retrived,
}

-- The calls of a client.
pub data Op : Type 0 where
  appends : List ℕ → Op
  retrives : ℕ → Op
  retrives_all : Op
  retrives_string : ℕ → Op
  retrives_all_string : Op

-- One call: what it returns (nothing is the empty string), and the buffer behind it.
pub step : Buffer → Op → Option (List ℕ × Buffer)
step b (appends bytes) = do b' ← append b bytes; some ([], b')
step b (retrives n) = some ([], retrive b n)
step b retrives_all = some ([], retrive_all b)
step b (retrives_string n) = retrive_as_string b n
step b retrives_all_string = retrive_all_as_string b

pub run : Buffer → List Op → Option (List (List ℕ))
run b [] = some []
run b (op ∷ ops) = do (out, b') ← step b op; outs ← run b' ops; some (out ∷ outs)

-- The queue. To ask for more bytes than it has is refused.
unfoldable pub queue_step : List ℕ → Op → Option (List ℕ × List ℕ)
queue_step q (appends bytes) = some ([], q ++ bytes)
queue_step q (retrives n) = some ([], drop n q)
queue_step q retrives_all = some ([], [])
queue_step q (retrives_string n) = if leb n (length q) then some (take n q, drop n q) else none
queue_step q retrives_all_string = some (q, [])

unfoldable pub queue_run : List ℕ → List Op → Option (List (List ℕ))
unfolding queue_step
queue_run q [] = some []
queue_run q (op ∷ ops) = do (out, q') ← queue_step q op; outs ← queue_run q' ops; some (out ∷ outs)

-- The bytes that a call, and a script, append.
abbrev pub appended : Op → ℕ
appended (appends bytes) = length bytes
appended _ = 0

abbrev pub total : List Op → ℕ
total [] = 0
total (op ∷ ops) = appended op + total ops

-- A call agrees with that of the queue.
record Agrees (b : Buffer) (op : Op) (out q : List ℕ) : Type 0 where
  result : Buffer
  returns : step b op ≡ some (out, result)
  valid : IsValid result
  holds : contents result ≡ q
  low : result.write_index ≤ b.write_index + appended op

queue_step_string :
    (n : ℕ) (q out rest : List ℕ)
    → queue_step q (retrives_string n) ≡ some (out, rest)
    → (n ≤ length q) × (take n q ≡ out) × (drop n q ≡ rest)
unfolding queue_step
queue_step_string n q out rest e = ground arith

step-Agrees :
    {b : Buffer} (op : Op) (out q : List ℕ)
    → IsValid b
    → b.write_index + appended op ≤ max_size
    → queue_step (contents b) op ≡ some (out, q)
    → Agrees b op out q
unfolding step queue_step
step-Agrees {b} (appends bytes) out q v fits e = record {
  result = a.result;
  returns = rw a.returns (cc);
  valid = a.valid;
  holds = a.extended ∙ cc;
  low = a.low;
}
  where
    a : Appended b bytes (append b bytes)
    a = append-Appended bytes v fits
step-Agrees {b} (retrives n) out q v fits e = record {
  result = retrive b n;
  returns = cc;
  valid = retrive-IsValid n v;
  holds = contents-retrive n v ∙ cc;
  low = omega (arith, retrive-low n v);
}
step-Agrees {b} retrives_all out q v fits e = record {
  result = retrive_all b;
  returns = cc;
  valid = retrive_all-IsValid v;
  holds = contents-retrive_all b ∙ cc;
  low = omega (arith, retrive_all-low v);
}
step-Agrees {b} (retrives_string n) out q v fits e = record {
  result = r.result;
  returns = r.returns ∙ ap (λ t. some (t, r.result)) accepted.1;
  valid = r.valid;
  holds = r.remaining ∙ accepted.2;
  low = omega (arith, r.low);
}
  where
    accepted : (n ≤ length (contents b)) × (take n (contents b) ≡ out) × (drop n (contents b) ≡ q)
    accepted = queue_step_string n (contents b) out q e

    r : Retrived b (take n (contents b)) (drop n (contents b)) (retrive_as_string b n)
    r = retrive_as_string-Retrived n v (omega (arith, accepted.0, length-contents v))
step-Agrees {b} retrives_all_string out q v fits e = record {
  result = r.result;
  returns = r.returns ∙ cc;
  valid = r.valid;
  holds = r.remaining ∙ cc;
  low = omega (arith, r.low);
}
  where
    r : Retrived b (contents b) [] (retrive_all_as_string b)
    r = retrive_all_as_string-Retrived v

-- The parts of a script that the queue accepts.
record Accepted (q : List ℕ) (op : Op) (ops : List Op) (outs : List (List ℕ)) : Type 0 where
  out : List ℕ
  queue : List ℕ
  rest : List (List ℕ)
  accepted : queue_step q op ≡ some (out, queue)
  goes_on : queue_run queue ops ≡ some rest
  whole : some (out ∷ rest) ≡ some outs

queue_run_cons :
    (q : List ℕ) (op : Op) (ops : List Op) (outs : List (List ℕ))
    → queue_run q (op ∷ ops) ≡ some outs
    → Accepted q op ops outs
unfolding queue_run
queue_run_cons q op ops outs e =
    let (r, first, more) = >>=-eq-some (queue_step q op) _ e in
    let (rest, goes_on, whole) = >>=-eq-some (queue_run r.1 ops) _ more in
    record {
      out = r.0;
      queue = r.1;
      rest = rest;
      accepted = first;
      goes_on = goes_on;
      whole = whole;
    }

-- No script of calls that the queue accepts tells a valid buffer from the queue of its readable
-- bytes: every call returns, and returns the same. The bytes appended must fit a vector.
pub run_refines :
    (ops : List Op) {b : Buffer} (outs : List (List ℕ))
    → IsValid b
    → b.write_index + total ops ≤ max_size
    → queue_run (contents b) ops ≡ some outs
    → run b ops ≡ some outs
unfolding run queue_run
run_refines [] {b} outs v fits e = e
run_refines (op ∷ ops) {b} outs v fits e =
    rw
      (
        a.returns,
        run_refines ops {b = a.result} rest a.valid (omega (arith, a.low))
            (ap (λ t. queue_run t ops) a.holds ∙ goes_on),
      )
      whole
  where
    open (queue_run_cons (contents b) op ops outs e) use {
      out, queue, rest, accepted, goes_on, whole,
    }

    a : Agrees b op out queue
    a = step-Agrees op out queue v (omega arith) accepted
