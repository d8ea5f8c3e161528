-- ===== src/Tests/Queues.antt =====
-- message_queue.cpp at concrete inputs.
use pluto_server.Prelude.{◌≡◌, ◌≢◌, refl, List, [], ◌∷◌, ◌++◌, none}
use pluto_server.MessageQueue.{Message, new_message_queue, unset, push_mq2s}
use pluto_server.MessageQueue.Fifo
use pluto_server.MessageQueue.Fifo.{
  Op, push_close, push_tick, pop, all_added, run_lem, timer_ids, Rises, timer_ids-Rises,
}
use pluto_server.MessageQueue.Workers.{
  System, working, Step, pushes, here, next, Inv, Reach-Inv, waiting_message_taken,
}

abbrev calls : List Op
calls = push_close 5 ∷ (push_tick ∷ (pop ∷ []))

run_lem_example :
    (Fifo.run new_message_queue calls).0 ++ (Fifo.run new_message_queue calls).1.mq2s
    ≡ [] ++ all_added calls
run_lem_example = run_lem new_message_queue calls

abbrev start : System
start = record {
  queue = new_message_queue;
  phases = working ∷ (working ∷ []);
  pushed = [];
  popped = [];
}

abbrev tick : Message
tick = record { uniqid = none; payload = unset; kind = 5 }

abbrev ticked : System
ticked = record start { queue = push_mq2s new_message_queue tick; pushed = tick ∷ [] }

Reach-Inv_example : Inv ticked
Reach-Inv_example =
    Reach-Inv {s = start} {t = ticked} (refl, refl, refl, (refl, (refl, tt)))
      (next here (pushes tick))

working-ne-nil : (working ∷ (working ∷ [])) ≢ []
working-ne-nil e = cc

waiting_message_taken_example :
    (u : System) × Step ticked u × (u.popped ≡ [] ++ (tick ∷ [])) × (u.queue.mq2s ≡ [])
waiting_message_taken_example =
    waiting_message_taken {s = start} {t = ticked} (refl, refl, refl, (refl, (refl, tt)))
      (next here (pushes tick)) working-ne-nil tick [] refl
