-- ===== src/Tests/Wakeups.antt =====
-- The wake-ups of the event loop at concrete inputs.
use pluto_server.Prelude.{◌≡◌, refl, arith, [], ◌∷◌, some}
use pluto_server.MessageQueue.{Message, new_message_queue, unset}
use pluto_server.MessageQueue.Wakeups.{
  Wakeup, free, pushing, waiting, here, next, pushes, Reach, Reach-Drains,
}

abbrev quiet : Wakeup
quiet = record {
  queue = new_message_queue;
  seen = 0;
  lock = free;
  loop = waiting;
  pushed = [];
  popped = [];
}

abbrev message : Message
message = record { uniqid = some 5; payload = unset; kind = 3 }

-- A push has added its message, and has not yet written.
abbrev half_pushed : Wakeup
half_pushed = record quiet {
  queue = record new_message_queue { mq2c = message ∷ [] };
  lock = pushing;
  pushed = message ∷ [];
}

Reach-Drains_example :
    (u : Wakeup) × Reach half_pushed u
    × (u.queue.mq2c ≡ [])
    × (u.popped ≡ message ∷ [])
    × (u.pushed ≡ message ∷ [])
Reach-Drains_example =
    Reach-Drains quiet half_pushed (refl, refl, refl, omega arith) (next here (pushes message refl))
