-- ===== src/MessageQueue/Workers.antt =====
-- The worker threads on `mq2s_lock_` and `mq2s_cond_`. A section under the lock is one step; a worker
-- inside `MQ2S_Pop` sleeps in `pthread_cond_wait`, or has been woken and will look at the queue again.
use pluto_server.Prelude.{
  ◌≡◌, ◌≢◌, refl, sym, ap, ◌∙◌, arith, List, [], ◌∷◌, ◌++◌, append_assoc, none, some, All, map, ◌⊎◌,
  inl, inr,
}
use mathlib.Core.Path.{subst}
use pluto_server.MessageQueue.{MessageQueue, Message, push_mq2s, mq2s_pop, pop_front}

pub data Phase : Type 0 where
  working asleep woken : Phase

-- The queue, the phase of each worker, what has been pushed and what has been popped, oldest first.
pub record System : Type 0 where
  pub queue : MessageQueue
  pub phases : List Phase
  pub pushed : List Message
  pub popped : List Message

-- `pthread_cond_broadcast`.
abbrev pub wake : Phase → Phase
wake asleep = woken
wake working = working
wake woken = woken

-- A worker that is not asleep enters `MQ2S_Pop`, or comes back from its wait, and looks at the queue.
pub data Ready : Phase → Type 0 where
  enters : Ready working
  returns : Ready woken

-- The phases, with the worker in the middle singled out.
abbrev pub at : List Phase → Phase → List Phase → List Phase
at before p after = before ++ (p ∷ after)

pub data Step : System → System → Type 0 where
  -- Any MQ2S push, with its broadcast.
  pushes :
      {s : System} (m : Message)
      → Step s (record s {
        queue = push_mq2s s.queue m;
        phases = map wake s.phases;
        pushed = s.pushed ++ (m ∷ []);
      })
  -- A worker finds the queue empty and waits.
  waits :
      {s t : System} (before : List Phase) (p : Phase) (after : List Phase)
      → Ready p
      → s.phases ≡ at before p after
      → mq2s_pop s.queue ≡ none
      → t ≡ record s { phases = at before asleep after }
      → Step s t
  -- A worker takes the front message.
  takes :
      {s t : System} (before : List Phase) (p : Phase) (after : List Phase) (m : Message)
      (q : MessageQueue)
      → Ready p
      → s.phases ≡ at before p after
      → mq2s_pop s.queue ≡ some (m, q)
      → t ≡ record s { queue = q; phases = at before working after; popped = s.popped ++ (m ∷ []) }
      → Step s t
  -- `pthread_cond_wait` may return with no signal.
  wakes :
      {s t : System} (before after : List Phase)
      → s.phases ≡ at before asleep after
      → t ≡ record s { phases = at before woken after }
      → Step s t

pub data Reach (s : System) : System → Type 0 where
  here : Reach s s
  next : {t u : System} → Reach s t → Step t u → Reach s u

-- The start: an empty queue and workers that have not yet called `MQ2S_Pop`.
abbrev pub IsStart : System → Type 0
IsStart s =
    (s.queue.mq2s ≡ []) × (s.pushed ≡ []) × (s.popped ≡ []) × All (λ p. p ≡ working) s.phases

-- No worker sleeps.
abbrev pub IsAwake : List Phase → Type 0
IsAwake = All (λ p. p ≢ asleep)

pub record Inv (s : System) : Type 0 where
  pub ordered : s.pushed ≡ s.popped ++ s.queue.mq2s
  pub awake : (s.queue.mq2s ≡ []) ⊎ IsAwake s.phases

IsAwake-wake : (ps : List Phase) → IsAwake (map wake ps)
IsAwake-wake [] = tt
IsAwake-wake (working ∷ ps) = (λ e. cc, IsAwake-wake ps)
IsAwake-wake (asleep ∷ ps) = (λ e. cc, IsAwake-wake ps)
IsAwake-wake (woken ∷ ps) = (λ e. cc, IsAwake-wake ps)

IsAwake-at :
    (before after : List Phase) (p q : Phase)
    → q ≢ asleep
    → IsAwake (at before p after)
    → IsAwake (at before q after)
IsAwake-at [] after p q h a = (h, a.1)
IsAwake-at (b ∷ before) after p q h a = (a.0, IsAwake-at before after p q h a.1)

pop-none : (q : MessageQueue) → mq2s_pop q ≡ none → q.mq2s ≡ []
unfolding mq2s_pop pop_front
pop-none q e = ground arith

pop-some : (q q' : MessageQueue) (m : Message) → mq2s_pop q ≡ some (m, q') → q.mq2s ≡ m ∷ q'.mq2s
unfolding mq2s_pop pop_front
pop-some q q' m e = ground arith

cons-ne-nil : {m : Message} {ms : List Message} → m ∷ ms ≢ []
cons-ne-nil e = cc

-- The worker looks at the queue with the lock held: what is popped is what stands in front.
took-ordered :
    (s : System) (m : Message) (q : MessageQueue)
    → Inv s
    → mq2s_pop s.queue ≡ some (m, q)
    → s.pushed ≡ (s.popped ++ (m ∷ [])) ++ q.mq2s
took-ordered s m q v front =
    v.ordered
    ∙ ap (λ (ms : List Message). s.popped ++ ms) (pop-some s.queue q m front)
    ∙ sym (append_assoc s.popped (m ∷ []) q.mq2s)

Step-Inv : {s t : System} → Step s t → Inv s → Inv t
Step-Inv {s} (pushes m) v = record {
  ordered =
      ap (λ (ms : List Message). ms ++ (m ∷ [])) v.ordered
      ∙ append_assoc s.popped s.queue.mq2s (m ∷ []);
  awake = inr (IsAwake-wake s.phases);
}
Step-Inv {s} (waits before p after r e empty d) v =
    subst Inv (sym d) (record { ordered = v.ordered; awake = inl (pop-none s.queue empty) })
Step-Inv {s} (takes before p after m q r e front d) v = subst Inv (sym d) (record {
  ordered = took-ordered s m q v front;
  awake = elim v.awake [
    | inl empty ↦ absurd (cons-ne-nil (sym (pop-some s.queue q m front) ∙ empty))
    | inr a ↦ inr (IsAwake-at before after p working (λ w. cc) (subst IsAwake e a))
  ];
})
Step-Inv {s} (wakes before after e d) v = subst Inv (sym d) (record {
  ordered = v.ordered;
  awake = elim v.awake [
    | inl empty ↦ inl empty
    | inr a ↦ inr (IsAwake-at before after asleep woken (λ w. cc) (subst IsAwake e a))
  ];
})

start-Inv : (s : System) → IsStart s → Inv s
start-Inv s start = record { ordered = rw (start.1, start.2, start.0) refl; awake = inl start.0 }

-- In every history of pushes, waits, pops and spurious wake-ups, what was pushed is what was popped, in
-- order, and then what waits; and no worker sleeps while a message waits.
pub Reach-Inv : {s t : System} → IsStart s → Reach s t → Inv t
Reach-Inv start here = start-Inv _ start
Reach-Inv start (next r st) = Step-Inv st (Reach-Inv start r)

first-Ready :
    (ps : List Phase)
    → ps ≢ []
    → IsAwake ps
    → (p : Phase) × (after : List Phase) × (ps ≡ p ∷ after) × Ready p
first-Ready [] h a = absurd (h refl)
first-Ready (working ∷ after) h a = (working, after, refl, enters)
first-Ready (woken ∷ after) h a = (woken, after, refl, returns)
first-Ready (asleep ∷ after) h a = absurd (a.0 refl)

pop_waiting :
    (q : MessageQueue) (m : Message) (rest : List Message)
    → q.mq2s ≡ m ∷ rest
    → mq2s_pop q ≡ some (m, record q { mq2s = rest })
unfolding mq2s_pop pop_front
pop_waiting q m rest e = ground arith

-- In any history with a worker at least, when a message waits there is a step in which a worker takes the
-- oldest one that waits: no wake-up is lost.
pub waiting_message_taken :
    {s t : System}
    → IsStart s
    → Reach s t
    → t.phases ≢ []
    → (m : Message) (rest : List Message) → t.queue.mq2s ≡ m ∷ rest
    → (u : System) × Step t u × (u.popped ≡ t.popped ++ (m ∷ [])) × (u.queue.mq2s ≡ rest)
waiting_message_taken {s} {t} start r some_worker m rest waiting =
    let v = Reach-Inv start r in
    elim v.awake [
      | inl empty ↦ absurd (cons-ne-nil (sym waiting ∙ empty))
      | inr a ↦
          let (p, after, e, ready) = first-Ready t.phases some_worker a in
          (_, takes [] p after m _ ready e (pop_waiting t.queue m rest waiting) refl, refl, refl)
    ]
