-- ===== src/MessageQueue.antt =====
-- common/message_queue.h and common/message_queue.cpp: the queue from the socket thread to the workers
-- (MQ2S) and the one back (MQ2C). Each function holds its queue's lock from its first access to its
-- last, so it is one step here. `none` for a field is a field that is not set; `none` as a result is
-- undefined behaviour.
pub mod Fifo
pub mod Workers
pub mod Typed
pub mod Wakeups
use pluto_server.Prelude.{
  ℕ, ◌+◌, ◌%◌, ◌^◌, Bool, true, false, not, ◌&&◌, List, [], ◌∷◌, ◌++◌, map, Option, none, some,
  ◌==◌, if◌then◌else◌, ◌>>=◌,
}
use pluto_server.Prelude.Memory.{Allocator}
use pluto_server.Prelude.Text.{atoi}
use pluto_server.Package.{Package, new_package, set_msg}
use pluto_server.Util.{
  mq_type_pack, mq_type_timer, mq_type_close, mq_type_connect, mq_type_tick, mq_type_broadcast,
  split,
}

pub record TimerStruct : Type 0 where
  pub timerid : ℕ
  pub delay : Option ℕ
  pub repeat_sec : Option ℕ

pub record Broadcast : Type 0 where
  pub pack : Package
  pub all : Bool
  pub uniqids : List ℕ

-- The union of `struct message_queue`; `unset` is one that no code sets.
pub data Payload : Type 0 where
  pack : Package → Payload
  timer : TimerStruct → Payload
  broad : Broadcast → Payload
  unset : Payload

-- `struct message_queue`; `kind` is its field `type`.
pub record Message : Type 0 where
  pub uniqid : Option ℕ
  pub payload : Payload
  pub kind : ℕ

-- The union read as the member that `type` stands for; another member is undefined behaviour.
abbrev pub as_pack : Payload → Option Package
as_pack (pack p) = some p
as_pack _ = none

abbrev pub as_timer : Payload → Option TimerStruct
as_timer (timer t) = some t
as_timer _ = none

abbrev pub as_broad : Payload → Option Broadcast
as_broad (broad b) = some b
as_broad _ = none

-- `eventfd_writes` counts the wake-up writes to the event loop.
pub record MessageQueue : Type 0 where
  pub timerid_max : ℕ
  pub mq2s : List Message
  pub mq2c : List Message
  pub eventfd_writes : ℕ

abbrev pub new_message_queue : MessageQueue
new_message_queue = record { timerid_max = 0; mq2s = []; mq2c = []; eventfd_writes = 0 }

abbrev pub push_mq2s : MessageQueue → Message → MessageQueue
push_mq2s q m = record q { mq2s = q.mq2s ++ (m ∷ []) }

-- The end of each MQ2C_Push: the queue grows and the event loop is woken.
abbrev pub push_mq2c : MessageQueue → Message → MessageQueue
push_mq2c q m = record q { mq2c = q.mq2c ++ (m ∷ []); eventfd_writes = q.eventfd_writes + 1 }

-- `MQ2S_Push`.
unfoldable pub mq2s_push : MessageQueue → ℕ → ℕ → Package → MessageQueue
mq2s_push q uniqid kind p =
    if not (kind == mq_type_pack) && not (kind == mq_type_connect)
    then q
    else push_mq2s q (record { uniqid = some uniqid; payload = pack p; kind = kind })

-- `MQ2S_Push_Close`.
unfoldable pub mq2s_push_close : MessageQueue → ℕ → MessageQueue
mq2s_push_close q uniqid =
    push_mq2s q (record { uniqid = some uniqid; payload = unset; kind = mq_type_close })

-- `MQ2S_Push_Timer`.
unfoldable pub mq2s_push_timer : MessageQueue → ℕ → MessageQueue
mq2s_push_timer q timerid = push_mq2s q (record {
  uniqid = none;
  payload = timer (record { timerid = timerid; delay = none; repeat_sec = none });
  kind = mq_type_timer;
})

-- `MQ2S_Push_Tick`.
unfoldable pub mq2s_push_tick : MessageQueue → MessageQueue
mq2s_push_tick q = push_mq2s q (record { uniqid = none; payload = unset; kind = mq_type_tick })

-- `MQ2S_Pop` once its wait is over; `none` while the queue is empty and the caller waits.
pop_front : List Message → Option (Message × List Message)
pop_front [] = none
pop_front (m ∷ rest) = some (m, rest)

unfoldable pub mq2s_pop : MessageQueue → Option (Message × MessageQueue)
unfolding pop_front
mq2s_pop q = do (m, rest) ← pop_front q.mq2s; some (m, record q { mq2s = rest })

-- `MQ2C_Pop`; `none` is its result NULL.
unfoldable pub mq2c_pop : MessageQueue → Option (Message × MessageQueue)
unfolding pop_front
mq2c_pop q = do (m, rest) ← pop_front q.mq2c; some (m, record q { mq2c = rest })

-- `_Push_With_Notify`: whether the queue was empty.
unfoldable pub push_with_notify : MessageQueue → Message → Bool × MessageQueue
push_with_notify q m =
    let notify : Bool = elim q.mq2s [ [] ↦ true | first ∷ rest ↦ false ] in (notify, push_mq2s q m)

unfoldable pub atoi_all : List (List ℕ) → Option (List ℕ)
atoi_all [] = some []
atoi_all (field ∷ fields) = do n ← atoi field; ns ← atoi_all fields; some (n ∷ ns)

-- The list of a broadcast to some: the fields between the commas as numbers.
unfoldable pub broadcast_ids : Bool → List ℕ → Option (List ℕ)
unfolding atoi_all
broadcast_ids all uniqids = if not all then atoi_all (split uniqids (b',' ∷ [])) else some []

module _ (heap : Allocator) where
  -- `MQ2C_Push`, whose `data` is a text.
  unfoldable pub mq2c_push : MessageQueue → ℕ → ℕ → ℕ → List ℕ → Option MessageQueue
  mq2c_push q uniqid command_id sub_id text = do
    send_pack ← set_msg heap (new_package 0) command_id sub_id text
    some (
        push_mq2c q
          (record { uniqid = some uniqid; payload = pack send_pack; kind = mq_type_pack }))

  -- `MQ2C_Push_Broadcast`.
  unfoldable pub mq2c_push_broadcast :
      MessageQueue → ℕ → ℕ → Bool → List ℕ → List ℕ → Option MessageQueue
  mq2c_push_broadcast q command_id sub_id all text uniqids = do
    send_pack ← set_msg heap (new_package 0) command_id sub_id text
    numbers ← broadcast_ids all uniqids
    some (
        push_mq2c q (record {
          uniqid = some 0;
          payload = broad (record { pack = send_pack; all = all; uniqids = numbers });
          kind = mq_type_broadcast;
        }))

  -- `MQ2C_Push_Connector`.
  unfoldable pub mq2c_push_connector : MessageQueue → ℕ → ℕ → List ℕ → Option MessageQueue
  mq2c_push_connector q conn_type return_id text = do
    send_pack ← set_msg heap (new_package 0) conn_type return_id text
    some
        (push_mq2c q (record { uniqid = some 0; payload = pack send_pack; kind = mq_type_connect }))

-- `MQ2C_Push_Timer`: the timer's id, and the queue.
unfoldable pub mq2c_push_timer : MessageQueue → ℕ → ℕ → ℕ × MessageQueue
mq2c_push_timer q delay repeat_sec =
    let timerid = (q.timerid_max + 1) % 2 ^ 32 in
    (
      timerid,
      push_mq2c (record q { timerid_max = timerid })
          (record {
            uniqid = none;
            payload =
                timer
                  (record { timerid = timerid; delay = some delay; repeat_sec = some repeat_sec });
            kind = mq_type_timer;
          }),
    )
