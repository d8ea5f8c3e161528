-- ===== src/MessageQueue/Fifo.antt =====
-- The queue to the workers as the other threads use it: every accepted message comes out once, in order.
use pluto_server.Prelude.{
  ℕ, suc, ◌+◌, ◌^◌, ◌<◌, ◌≤◌, ◌≡◌, refl, sym, ap, ◌∙◌, arith, List, [], ◌∷◌, ◌++◌, append_assoc,
  append-nil, none, some, ◌==◌, ◌||◌, if◌then◌else◌, length,
}
use mathlib.Core.Path.{subst}
use pluto_server.Package.{Package}
use pluto_server.MessageQueue.{
  MessageQueue, Message, pack, timer, unset, mq2s_push, mq2s_push_close, mq2s_push_timer,
  mq2s_push_tick, mq2s_pop, mq2c_push_timer, pop_front,
}

-- A call on the queue from any thread; `pop` is a call that finds a message or waits on.
pub data Op : Type 0 where
  push : ℕ → ℕ → Package → Op
  push_close push_timer : ℕ → Op
  push_tick pop : Op

-- What each call adds: `MQ2S_Push` takes packages of two types only.
abbrev pub added : Op → List Message
added (push uniqid kind p) =
    if kind == 1 || kind == 4
    then record { uniqid = some uniqid; payload = pack p; kind = kind } ∷ []
    else []
added (push_close uniqid) = record { uniqid = some uniqid; payload = unset; kind = 3 } ∷ []
added (push_timer timerid) =
    record {
      uniqid = none;
      payload = timer (record { timerid = timerid; delay = none; repeat_sec = none });
      kind = 2;
    }
    ∷ []
added push_tick = record { uniqid = none; payload = unset; kind = 5 } ∷ []
added pop = []

abbrev pub all_added : List Op → List Message
all_added [] = []
all_added (op ∷ ops) = added op ++ all_added ops

-- One call: the messages that it hands out, and the queue.
pub apply : MessageQueue → Op → List Message × MessageQueue
apply q (push uniqid kind p) = ([], mq2s_push q uniqid kind p)
apply q (push_close uniqid) = ([], mq2s_push_close q uniqid)
apply q (push_timer timerid) = ([], mq2s_push_timer q timerid)
apply q push_tick = ([], mq2s_push_tick q)
apply q pop = elim (mq2s_pop q) [ none ↦ ([], q) | some (m, q') ↦ (m ∷ [], q') ]

pub run : MessageQueue → List Op → List Message × MessageQueue
run q [] = ([], q)
run q (op ∷ ops) =
    let (out, q') = apply q op in let (later, last) = run q' ops in (out ++ later, last)

apply_lem :
    (q : MessageQueue) (op : Op) → (apply q op).0 ++ (apply q op).1.mq2s ≡ q.mq2s ++ added op
unfolding apply mq2s_push mq2s_push_close mq2s_push_timer mq2s_push_tick mq2s_pop pop_front
apply_lem q (push uniqid kind p) = ground (arith, append-nil q.mq2s)
apply_lem q (push_close uniqid) = refl
apply_lem q (push_timer timerid) = refl
apply_lem q push_tick = refl
apply_lem q pop = ground (arith, append-nil q.mq2s)

-- After any calls, what was handed out and then what waits is what waited before and then what the
-- calls added: no message is lost, made up, repeated or overtaken.
pub run_lem :
    (q : MessageQueue) (ops : List Op)
    → (run q ops).0 ++ (run q ops).1.mq2s ≡ q.mq2s ++ all_added ops
unfolding run
run_lem q [] = sym (append-nil q.mq2s)
run_lem q (op ∷ ops) =
    append_assoc (apply q op).0 (run (apply q op).1 ops).0 _
    ∙ ap (λ (rest : List Message). (apply q op).0 ++ rest) (run_lem (apply q op).1 ops)
    ∙ sym (append_assoc (apply q op).0 (apply q op).1.mq2s (all_added ops))
    ∙ ap (λ (front : List Message). front ++ all_added ops) (apply_lem q op)
    ∙ append_assoc q.mq2s (added op) (all_added ops)

-- The ids that a number of calls of `MQ2C_Push_Timer` give, oldest first.
pub timer_ids : MessageQueue → List (ℕ × ℕ) → List ℕ × MessageQueue
timer_ids q [] = ([], q)
timer_ids q ((delay, repeat_sec) ∷ more) =
    let (id, q') = mq2c_push_timer q delay repeat_sec in
    let (ids, last) = timer_ids q' more in (id ∷ ids, last)

-- Rising numbers above a bound and up to another.
abbrev pub Rises : ℕ → ℕ → List ℕ → Type 0
Rises low high [] = low ≤ high
Rises low high (n ∷ ns) = (low < n) × (n ≤ high) × Rises n high ns

-- Until the counter wraps at `2 ^ 32` the ids of timers rise, so no two timers share one; the last is the
-- counter kept by the queue.
pub timer_ids-Rises :
    (timers : List (ℕ × ℕ)) (q : MessageQueue)
    → q.timerid_max + length timers < 2 ^ 32
    → Rises q.timerid_max (q.timerid_max + length timers) (timer_ids q timers).0
      × ((timer_ids q timers).1.timerid_max ≡ q.timerid_max + length timers)
unfolding timer_ids mq2c_push_timer
timer_ids-Rises [] q h = (omega arith, omega arith)
timer_ids-Rises ((delay, repeat_sec) ∷ more) q h =
    let (id, q') : ℕ × MessageQueue = mq2c_push_timer q delay repeat_sec in
    let counted : q'.timerid_max ≡ q.timerid_max + 1 = omega arith in
    let same : q'.timerid_max + length more ≡ q.timerid_max + suc (length more) = omega arith in
    let (rising, last) = timer_ids-Rises more q' (omega arith) in
    (
      (
        omega arith,
        omega arith,
        subst (λ (high : ℕ). Rises q'.timerid_max high (timer_ids q' more).0) same rising,
      ),
      last ∙ same,
    )

-- `MQ2S_Pop` takes the message at the front.
pub mq2s_pop-front :
    (q : MessageQueue) (m : Message) (rest : List Message)
    → q.mq2s ≡ m ∷ rest
    → mq2s_pop q ≡ some (m, record q { mq2s = rest })
unfolding mq2s_pop pop_front
mq2s_pop-front q m rest e = rw e refl
