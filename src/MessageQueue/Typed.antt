-- ===== src/MessageQueue/Typed.antt =====
-- Which member of the union a message holds: the pushes set the one that `type` stands for, and all that
-- the receivers read is set.
use mathlib.Core.Path.{subst}
use pluto_server.Prelude.{
  ℕ, ◌≡◌, refl, sym, arith, ◌==◌, not, ◌&&◌, Bool, Bool-cases, branches, List, [], ◌∷◌, ◌++◌, All,
  none, some, some_inj, Option-cases, inl, inr,
}
use pluto_server.Prelude.Memory.{Allocator}
use pluto_server.Package.{Package, set_msg, new_package}
use pluto_server.Util.{
  mq_type_pack, mq_type_timer, mq_type_close, mq_type_connect, mq_type_tick, mq_type_broadcast,
}
use pluto_server.MessageQueue.{
  broadcast_ids, Message, MessageQueue, TimerStruct, Broadcast, pack, timer, broad, mq2s_push,
  mq2s_push_close, mq2s_push_timer, mq2s_push_tick, mq2s_pop, mq2c_pop, mq2c_push,
  mq2c_push_broadcast, mq2c_push_connector, mq2c_push_timer, pop_front, push_mq2c,
}

-- A message that the workers may be handed.
pub data ToWorker (m : Message) : Type 0 where
  client_pack :
      (uniqid : ℕ) (p : Package)
      → m.kind ≡ mq_type_pack
      → m.uniqid ≡ some uniqid
      → m.payload ≡ pack p
      → ToWorker m
  connector_pack : (p : Package) → m.kind ≡ mq_type_connect → m.payload ≡ pack p → ToWorker m
  closed : (uniqid : ℕ) → m.kind ≡ mq_type_close → m.uniqid ≡ some uniqid → ToWorker m
  fired : (t : TimerStruct) → m.kind ≡ mq_type_timer → m.payload ≡ timer t → ToWorker m
  ticked : m.kind ≡ mq_type_tick → ToWorker m

-- A message that the event loop may be handed; a timer comes with its times.
pub data ToLoop (m : Message) : Type 0 where
  to_client :
      (uniqid : ℕ) (p : Package)
      → m.kind ≡ mq_type_pack
      → m.uniqid ≡ some uniqid
      → m.payload ≡ pack p
      → ToLoop m
  to_connector : (p : Package) → m.kind ≡ mq_type_connect → m.payload ≡ pack p → ToLoop m
  to_timer :
      (timerid delay repeat_sec : ℕ)
      → m.kind ≡ mq_type_timer
      → m.payload
        ≡ timer (record { timerid = timerid; delay = some delay; repeat_sec = some repeat_sec })
      → ToLoop m
  to_all : (b : Broadcast) → m.kind ≡ mq_type_broadcast → m.payload ≡ broad b → ToLoop m

pub record AreTyped (q : MessageQueue) : Type 0 where
  pub workers : All ToWorker q.mq2s
  pub loop : All ToLoop q.mq2c

none≢some : {A : Type 0} {B : Type 0} {a : A} → none ≡ some a → B
none≢some e = cc

pub All-snoc {ℓ κ} :
    {A : Type ℓ} (P : A → Type κ) (xs : List A) (x : A) → All P xs → P x → All P (xs ++ (x ∷ []))
All-snoc P [] x h p = (p, tt)
All-snoc P (y ∷ xs) x h p = (h.0, All-snoc P xs x h.1 p)

module _ (heap : Allocator) where
  -- Any operation on the queues, of either thread.
  pub data Step (q : MessageQueue) : MessageQueue → Type 0 where
    push : (uniqid kind : ℕ) (p : Package) → Step q (mq2s_push q uniqid kind p)
    push_close : (uniqid : ℕ) → Step q (mq2s_push_close q uniqid)
    push_timer : (timerid : ℕ) → Step q (mq2s_push_timer q timerid)
    push_tick : Step q (mq2s_push_tick q)
    pop : {q' : MessageQueue} (m : Message) → mq2s_pop q ≡ some (m, q') → Step q q'
    push_client :
        {q' : MessageQueue} (uniqid command_id sub_id : ℕ) (text : List ℕ)
        → mq2c_push heap q uniqid command_id sub_id text ≡ some q'
        → Step q q'
    push_broadcast :
        {q' : MessageQueue} (command_id sub_id : ℕ) (all : Bool) (text uniqids : List ℕ)
        → mq2c_push_broadcast heap q command_id sub_id all text uniqids ≡ some q'
        → Step q q'
    push_connector :
        {q' : MessageQueue} (conn_type return_id : ℕ) (text : List ℕ)
        → mq2c_push_connector heap q conn_type return_id text ≡ some q'
        → Step q q'
    start_timer : (delay repeat_sec : ℕ) → Step q (mq2c_push_timer q delay repeat_sec).1
    pop_back : {q' : MessageQueue} (m : Message) → mq2c_pop q ≡ some (m, q') → Step q q'

  pub data Reach (q : MessageQueue) : MessageQueue → Type 0 where
    here : Reach q q
    next : {r s : MessageQueue} → Reach q r → Step r s → Reach q s

mq2s_push-AreTyped :
    (q : MessageQueue) (uniqid kind : ℕ) (p : Package)
    → AreTyped q
    → AreTyped (mq2s_push q uniqid kind p)
unfolding mq2s_push
mq2s_push-AreTyped q uniqid kind p v =
    branches AreTyped (not (kind == mq_type_pack) && not (kind == mq_type_connect)) q _ (λ other. v)
      (λ fits. record {
        workers = All-snoc ToWorker q.mq2s _ v.workers (elim (Bool-cases (kind == mq_type_pack)) [
          | inl e ↦ client_pack uniqid p (ground arith) refl refl
          | inr e ↦ connector_pack p (ground arith) refl
        ]);
        loop = v.loop;
      })

pub pop_parts :
    (q q' : MessageQueue) (m : Message)
    → mq2s_pop q ≡ some (m, q')
    → (q.mq2s ≡ m ∷ q'.mq2s) × (q'.mq2c ≡ q.mq2c)
unfolding mq2s_pop pop_front
pop_parts q q' m e = ground arith

pop_back_parts :
    (q q' : MessageQueue) (m : Message)
    → mq2c_pop q ≡ some (m, q')
    → (q.mq2c ≡ m ∷ q'.mq2c) × (q'.mq2s ≡ q.mq2s)
unfolding mq2c_pop pop_front
pop_back_parts q q' m e = ground arith

-- A message that a worker pops of typed queues is typed, and so are the queues it leaves.
pub mq2s_pop-AreTyped :
    (q q' : MessageQueue) (m : Message)
    → mq2s_pop q ≡ some (m, q')
    → AreTyped q
    → ToWorker m × AreTyped q'
mq2s_pop-AreTyped q q' m e v =
    let (front, same) = pop_parts q q' m e in
    let typed : All ToWorker (m ∷ q'.mq2s) = subst (All ToWorker) front v.workers in
    (typed.0, record { workers = typed.1; loop = subst (All ToLoop) (sym same) v.loop })

mq2c_pop-AreTyped :
    (q q' : MessageQueue) (m : Message)
    → mq2c_pop q ≡ some (m, q')
    → AreTyped q
    → ToLoop m × AreTyped q'
mq2c_pop-AreTyped q q' m e v =
    let (front, same) = pop_back_parts q q' m e in
    let typed : All ToLoop (m ∷ q'.mq2c) = subst (All ToLoop) front v.loop in
    (typed.0, record { workers = subst (All ToWorker) (sym same) v.workers; loop = typed.1 })

-- The end of each push to the event loop.
pushed-AreTyped :
    (q q' : MessageQueue) (m : Message) → push_mq2c q m ≡ q' → ToLoop m → AreTyped q → AreTyped q'
pushed-AreTyped q q' m e typed v =
    subst AreTyped e (record { workers = v.workers; loop = All-snoc ToLoop q.mq2c m v.loop typed })

module _ (heap : Allocator) (q q' : MessageQueue) (v : AreTyped q) where
  mq2c_push-AreTyped :
      (uniqid command_id sub_id : ℕ) (text : List ℕ)
      → mq2c_push heap q uniqid command_id sub_id text ≡ some q'
      → AreTyped q'
  unfolding mq2c_push
  mq2c_push-AreTyped uniqid command_id sub_id text e =
      elim (Option-cases (set_msg heap (new_package 0) command_id sub_id text)) [
        | inl fault ↦ none≢some (rw fault at e)
        | inr (p, made) ↦
            pushed-AreTyped q q' _ (some_inj (rw made at e)) (to_client uniqid p refl refl refl) v
      ]

  mq2c_push_broadcast-AreTyped :
      (command_id sub_id : ℕ) (all : Bool) (text uniqids : List ℕ)
      → mq2c_push_broadcast heap q command_id sub_id all text uniqids ≡ some q'
      → AreTyped q'
  unfolding mq2c_push_broadcast
  mq2c_push_broadcast-AreTyped command_id sub_id all text uniqids e =
      elim (Option-cases (set_msg heap (new_package 0) command_id sub_id text)) [
        | inl fault ↦ none≢some (rw fault at e)
        | inr (p, made) ↦ elim (Option-cases (broadcast_ids all uniqids)) [
          | inl too_large ↦ none≢some (rw (made, too_large) at e)
          | inr (numbers, are) ↦
              pushed-AreTyped q q' _ (some_inj (rw (made, are) at e)) (to_all _ refl refl) v
        ]
      ]

  mq2c_push_connector-AreTyped :
      (conn_type return_id : ℕ) (text : List ℕ)
      → mq2c_push_connector heap q conn_type return_id text ≡ some q'
      → AreTyped q'
  unfolding mq2c_push_connector
  mq2c_push_connector-AreTyped conn_type return_id text e =
      elim (Option-cases (set_msg heap (new_package 0) conn_type return_id text)) [
        | inl fault ↦ none≢some (rw fault at e)
        | inr (p, made) ↦
            pushed-AreTyped q q' _ (some_inj (rw made at e)) (to_connector p refl refl) v
      ]

mq2c_push_timer-AreTyped :
    (q : MessageQueue) (delay repeat_sec : ℕ)
    → AreTyped q
    → AreTyped (mq2c_push_timer q delay repeat_sec).1
unfolding mq2c_push_timer
mq2c_push_timer-AreTyped q delay repeat_sec v = record {
  workers = v.workers;
  loop = All-snoc ToLoop q.mq2c _ v.loop (to_timer _ delay repeat_sec refl refl);
}

Step-AreTyped : {heap : Allocator} {q q' : MessageQueue} → Step heap q q' → AreTyped q → AreTyped q'
unfolding mq2s_push_close mq2s_push_timer mq2s_push_tick
Step-AreTyped {heap} {q} {q'} (push uniqid kind p) v = mq2s_push-AreTyped q uniqid kind p v
Step-AreTyped {heap} {q} {q'} (push_close uniqid) v = record {
  workers = All-snoc ToWorker q.mq2s _ v.workers (closed uniqid refl refl);
  loop = v.loop;
}
Step-AreTyped {heap} {q} {q'} (push_timer timerid) v = record {
  workers = All-snoc ToWorker q.mq2s _ v.workers (fired _ refl refl);
  loop = v.loop;
}
Step-AreTyped {heap} {q} {q'} push_tick v = record {
  workers = All-snoc ToWorker q.mq2s _ v.workers (ticked refl);
  loop = v.loop;
}
Step-AreTyped {heap} {q} {q'} (pop m e) v = (mq2s_pop-AreTyped q q' m e v).1
Step-AreTyped {heap} {q} {q'} (push_client uniqid command_id sub_id text e) v =
    mq2c_push-AreTyped heap q q' v uniqid command_id sub_id text e
Step-AreTyped {heap} {q} {q'} (push_broadcast command_id sub_id all text uniqids e) v =
    mq2c_push_broadcast-AreTyped heap q q' v command_id sub_id all text uniqids e
Step-AreTyped {heap} {q} {q'} (push_connector conn_type return_id text e) v =
    mq2c_push_connector-AreTyped heap q q' v conn_type return_id text e
Step-AreTyped {heap} {q} {q'} (start_timer delay repeat_sec) v =
    mq2c_push_timer-AreTyped q delay repeat_sec v
Step-AreTyped {heap} {q} {q'} (pop_back m e) v = (mq2c_pop-AreTyped q q' m e v).1

-- After any operations of both threads, from typed queues such as new ones, each message that waits for
-- the workers, and each that waits for the event loop, holds the union member of its type, with all that
-- its receiver reads of it set.
pub Reach-AreTyped :
    {heap : Allocator} {q q' : MessageQueue} → AreTyped q → Reach heap q q' → AreTyped q'
Reach-AreTyped v here = v
Reach-AreTyped v (next r st) = Step-AreTyped st (Reach-AreTyped v r)
