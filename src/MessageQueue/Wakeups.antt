-- ===== src/MessageQueue/Wakeups.antt =====
-- The wake-ups of the event loop: MQ2C with its eventfd. A push holds `mq2c_lock_` from its `push_back` to its
-- write, which are two steps here, since `OnEventfd` reads the eventfd without the lock.
use pluto_server.Prelude.{
  ℕ, ◌+◌, ◌≤◌, ◌<◌, ◌≡◌, ◌⊎◌, refl, sym, ap, ◌∙◌, arith, List, [], ◌∷◌, ◌++◌, append_assoc,
  append-nil, none, some, inl, inr,
}
use pluto_server.MessageQueue.{MessageQueue, Message, mq2c_pop, pop_front}

-- Whether a push has the lock, between its `push_back` and its write.
pub data Lock : Type 0 where
  free pushing : Lock

-- Whether the event loop is inside the loop of `OnEventfd`.
pub data Loop : Type 0 where
  waiting draining : Loop

-- `seen` counts the writes that the last read of the eventfd has taken away: libev calls `OnEventfd` while
-- there are others.
pub record Wakeup : Type 0 where
  pub queue : MessageQueue
  pub seen : ℕ
  pub lock : Lock
  pub loop : Loop
  pub pushed : List Message
  pub popped : List Message

pub data Step (s : Wakeup) : Wakeup → Type 0 where
  -- `mq2c_.push_back`, of any push.
  pushes :
      (m : Message)
      → s.lock ≡ free
      → Step s (record s {
        queue = record s.queue { mq2c = s.queue.mq2c ++ (m ∷ []) };
        lock = pushing;
        pushed = s.pushed ++ (m ∷ []);
      })
  -- `netlib_eventfd_write`, and then the lock is given back.
  writes :
      s.lock ≡ pushing
      → Step s (record s {
        queue = record s.queue { eventfd_writes = s.queue.eventfd_writes + 1 };
        lock = free;
      })
  -- `netlib_eventfd_read` at the start of `OnEventfd`.
  reads :
      s.loop ≡ waiting
      → s.seen < s.queue.eventfd_writes
      → Step s (record s { seen = s.queue.eventfd_writes; loop = draining })
  -- `MQ2C_Pop` in its loop, with a message and without.
  pops :
      (m : Message) (q : MessageQueue)
      → s.loop ≡ draining
      → s.lock ≡ free
      → mq2c_pop s.queue ≡ some (m, q)
      → Step s (record s { queue = q; popped = s.popped ++ (m ∷ []) })
  ends :
      s.loop ≡ draining
      → s.lock ≡ free
      → mq2c_pop s.queue ≡ none
      → Step s (record s { loop = waiting })

pub data Reach (s : Wakeup) : Wakeup → Type 0 where
  here : Reach s s
  next : {t u : Wakeup} → Reach s t → Step t u → Reach s u

-- The start: nothing has been pushed.
abbrev pub IsStart : Wakeup → Type 0
IsStart s =
    (s.queue.mq2c ≡ []) × (s.pushed ≡ []) × (s.popped ≡ []) × (s.seen ≤ s.queue.eventfd_writes)

-- What waits has a wake-up on its way.
record Inv (s : Wakeup) : Type 0 where
  ordered : s.pushed ≡ s.popped ++ s.queue.mq2c
  bounded : s.seen ≤ s.queue.eventfd_writes
  woken :
      (s.queue.mq2c ≡ [])
      ⊎ ((s.seen < s.queue.eventfd_writes) ⊎ ((s.lock ≡ pushing) ⊎ (s.loop ≡ draining)))

pop_back_none : (q : MessageQueue) → mq2c_pop q ≡ none → q.mq2c ≡ []
unfolding mq2c_pop pop_front
pop_back_none q e = ground arith

-- What a pop takes and leaves.
record Popped (q : MessageQueue) (m : Message) (r : MessageQueue) : Type 0 where
  front : q.mq2c ≡ m ∷ r.mq2c
  same_writes : r.eventfd_writes ≡ q.eventfd_writes

mq2c_pop-Popped : (q r : MessageQueue) (m : Message) → mq2c_pop q ≡ some (m, r) → Popped q m r
unfolding mq2c_pop pop_front
mq2c_pop-Popped q r m e = record { front = ground arith; same_writes = ground arith }

Step-Inv : {s t : Wakeup} → Step s t → Inv s → Inv t
Step-Inv {s} {t} (pushes m e) v = record {
  ordered = ap (λ ms. ms ++ (m ∷ [])) v.ordered ∙ append_assoc s.popped s.queue.mq2c (m ∷ []);
  bounded = v.bounded;
  woken = inr (inr (inl refl));
}
Step-Inv {s} {t} (writes e) v = record {
  ordered = v.ordered;
  bounded = omega (arith, v.bounded);
  woken = inr (inl (omega (arith, v.bounded)));
}
Step-Inv {s} {t} (reads e less) v = record {
  ordered = v.ordered;
  bounded = omega arith;
  woken = inr (inr (inr refl));
}
Step-Inv {s} {t} (pops m q loop lock e) v =
    let p = mq2c_pop-Popped s.queue q m e in
    record {
      ordered =
          v.ordered
          ∙ ap (λ ms. s.popped ++ ms) p.front
          ∙ sym (append_assoc s.popped (m ∷ []) q.mq2c);
      bounded = omega (arith, v.bounded, p.same_writes);
      woken = inr (inr (inr loop));
    }
Step-Inv {s} {t} (ends loop lock e) v = record {
  ordered = v.ordered;
  bounded = v.bounded;
  woken = inl (pop_back_none s.queue e);
}

Reach-Inv : {s t : Wakeup} → Inv s → Reach s t → Inv t
Reach-Inv v here = v
Reach-Inv v (next r st) = Step-Inv st (Reach-Inv v r)

Reach-trans : {s t u : Wakeup} → Reach s t → Reach t u → Reach s u
Reach-trans r here = r
Reach-trans r (next q st) = next (Reach-trans r q) st

-- All that waits is taken, with nothing pushed meanwhile.
abbrev Drains : Wakeup → Type 0
Drains s = (t : Wakeup) × Reach s t × (t.queue.mq2c ≡ []) × (t.popped ≡ s.popped ++ s.queue.mq2c)

mq2c_pop-front :
    (q : MessageQueue) (m : Message) (ms : List Message)
    → q.mq2c ≡ m ∷ ms
    → mq2c_pop q ≡ some (m, record q { mq2c = ms })
unfolding mq2c_pop pop_front
mq2c_pop-front q m ms e = rw e refl

draining-Drains :
    (s : Wakeup) (ms : List Message)
    → s.queue.mq2c ≡ ms
    → s.loop ≡ draining
    → s.lock ≡ free
    → Drains s
draining-Drains s [] e loop lock =
    (s, here, e, sym (append-nil s.popped) ∙ ap (λ ms. s.popped ++ ms) (sym e))
draining-Drains s (m ∷ ms) e loop lock =
    let next_state : Wakeup = record s {
      queue = record s.queue { mq2c = ms };
      popped = s.popped ++ (m ∷ []);
    } in
    let (t, r, emptied, all) = draining-Drains next_state ms refl loop lock in
    (
      t,
      Reach-trans
          (next here
            (pops m (record s.queue { mq2c = ms }) loop lock (mq2c_pop-front s.queue m ms e)))
          r,
      emptied,
      all ∙ append_assoc s.popped (m ∷ []) ms ∙ ap (λ xs. s.popped ++ xs) (sym e),
    )

-- A step that takes nothing, first.
first-Drains :
    (s t : Wakeup)
    → Step s t
    → t.queue.mq2c ≡ s.queue.mq2c
    → t.popped ≡ s.popped
    → Drains t
    → Drains s
first-Drains s t st same kept (u, r, emptied, all) = (
  u,
  Reach-trans (next here st) r,
  emptied,
  all ∙ ap (λ ms. ms ++ t.queue.mq2c) kept ∙ ap (λ ms. s.popped ++ ms) same,
)

free-Drains :
    (s : Wakeup) (lock : Lock) (loop : Loop) → s.lock ≡ lock → s.loop ≡ loop → Inv s → Drains s
free-Drains s free draining lock loop v = draining-Drains s s.queue.mq2c refl loop lock
free-Drains s free waiting lock loop v = elim v.woken [
  | inl empty ↦ (s, here, empty, sym (append-nil s.popped) ∙ ap (λ ms. s.popped ++ ms) (sym empty))
  | inr (inl less) ↦
      first-Drains s _ (reads loop less) refl refl (draining-Drains _ s.queue.mq2c refl refl lock)
  | inr (inr (inl busy)) ↦ (let never : free ≡ pushing = sym lock ∙ busy in cc)
  | inr (inr (inr inside)) ↦ (let never : waiting ≡ draining = sym loop ∙ inside in cc)
]
free-Drains s pushing draining lock loop v =
    first-Drains s _ (writes lock) refl refl (draining-Drains _ s.queue.mq2c refl loop refl)
free-Drains s pushing waiting lock loop v = first-Drains s _ (writes lock) refl refl (
    first-Drains _ _ (reads loop (omega (arith, v.bounded))) refl refl
      (draining-Drains _ s.queue.mq2c refl refl refl))

start-Inv : (s : Wakeup) → IsStart s → Inv s
start-Inv s (empty, none_pushed, none_popped, bounded) = record {
  ordered = none_pushed ∙ sym empty ∙ ap (λ ms. ms ++ s.queue.mq2c) (sym none_popped);
  bounded = bounded;
  woken = inl empty;
}

-- In every history of pushes and of the event loop, wherever they interrupt each other: what was pushed can
-- still all be popped, in order and each once, by the event loop and a push that is under way, with no further
-- push to wake the event loop up; and the queue is then empty.
pub Reach-Drains :
    (s t : Wakeup)
    → IsStart s
    → Reach s t
    → (u : Wakeup) × Reach t u × (u.queue.mq2c ≡ []) × (u.popped ≡ t.pushed) × (u.pushed ≡ t.pushed)
Reach-Drains s t start r =
    let v = Reach-Inv (start-Inv s start) r in
    let (u, more, empty, all) = free-Drains t t.lock t.loop refl refl v in
    let popped = all ∙ sym v.ordered in
    (
      u,
      more,
      empty,
      popped,
      (Reach-Inv v more).ordered ∙ ap (λ ms. u.popped ++ ms) empty ∙ append-nil u.popped ∙ popped,
    )
