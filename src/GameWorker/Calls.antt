-- ===== src/GameWorker/Calls.antt =====
-- Which method of the script a message calls.
use pluto_server.Prelude.{ℕ, ◌≡◌, refl, List, [], ◌∷◌, ◌++◌, All, some}
use pluto_server.Prelude.Memory.{Allocator, IsAllocator}
use pluto_server.Package.{Package, body_text, get_command_id, get_sub_id}
use pluto_server.MessageQueue.{Message, MessageQueue, pack, timer, TimerStruct}
use pluto_server.MessageQueue.Typed.{ToWorker, client_pack, connector_pack, closed, fired, ticked}
use pluto_server.Util.{mq_type_pack, mq_type_close, mq_type_timer, mq_type_connect, mq_type_tick}
use pluto_server.GameWorker.{
  PyCall, on_server, on_fd_closed, on_timer, on_connector, on_tick, Native, GameWorker, call_of,
  call_on_server, call_on_connector, handle_message,
}
use pluto_server.GameWorker.Natives.{Fits, PushesAll, run_natives-PushesAll}

-- A package in the message has a body that is a text.
abbrev pub HasText : Message → Type 0
HasText m = (p : Package) → m.payload ≡ pack p → (body : List ℕ) × (body_text p ≡ some body)

-- The call is the one for the message, with its fields as arguments.
abbrev pub Tells : Message → PyCall → Type 0
Tells m (on_server uniqid command_id sub_id body) =
    (m.kind ≡ mq_type_pack)
    × (m.uniqid ≡ some uniqid)
    × ((p : Package) × (m.payload ≡ pack p)
        × (command_id ≡ get_command_id p)
        × (sub_id ≡ get_sub_id p)
        × (body_text p ≡ some body))
Tells m (on_fd_closed uniqid) = (m.kind ≡ mq_type_close) × (m.uniqid ≡ some uniqid)
Tells m (on_timer timerid) =
    (m.kind ≡ mq_type_timer) × ((t : TimerStruct) × (m.payload ≡ timer t) × (timerid ≡ t.timerid))
Tells m (on_tick n) = (m.kind ≡ mq_type_tick) × (n ≡ 0)
Tells m (on_connector command_id sub_id body) =
    (m.kind ≡ mq_type_connect)
    × ((p : Package) × (m.payload ≡ pack p)
        × (command_id ≡ get_command_id p)
        × (sub_id ≡ get_sub_id p)
        × (body_text p ≡ some body))

call_of-Tells :
    (m : Message)
    → ToWorker m
    → HasText m
    → (call : PyCall) × (call_of m ≡ some (some call)) × Tells m call
unfolding call_of call_on_server call_on_connector
call_of-Tells m (client_pack uniqid p k u e) text =
    let (body, b) = text p e in
    (
      on_server uniqid (get_command_id p) (get_sub_id p) body,
      rw (k, u, e, b) refl,
      (k, u, (p, e, refl, refl, b)),
    )
call_of-Tells m (connector_pack p k e) text =
    let (body, b) = text p e in
    (
      on_connector (get_command_id p) (get_sub_id p) body,
      rw (k, e, b) refl,
      (k, (p, e, refl, refl, b)),
    )
call_of-Tells m (closed uniqid k u) text = (on_fd_closed uniqid, rw (k, u) refl, (k, u))
call_of-Tells m (fired t k e) text = (on_timer t.timerid, rw (k, e) refl, (k, (t, e, refl)))
call_of-Tells m (ticked k) text = (on_tick 0, rw k refl, (k, refl))

-- A typed message with a text body, and calls back whose texts fit 32 bits, whose lists hold numbers that
-- fit an `int`, and of which none asks for a timer: the round does not fault; the script is called exactly
-- once, by the method for the message and with its fields; and the queue gets what the calls back push, in
-- order, and nothing else.
pub handle_message-Tells :
    {heap : Allocator}
    → IsAllocator heap
    → (w : GameWorker) (q : MessageQueue) (m : Message) (made : List Native) → ToWorker m
    → HasText m
    → All Fits made
    → (call : PyCall) × (q' : MessageQueue) × (handle_message heap w q m made
        ≡ some (record { calls = w.calls ++ (call ∷ []) }, q'))
      × Tells m call
      × PushesAll q made q'
unfolding handle_message
handle_message-Tells good w q m made typed text fits =
    let (call, calls, tells) = call_of-Tells m typed text in
    let (q', runs, pushes) = run_natives-PushesAll good q made fits in
    (call, q', rw (calls, runs) refl, tells, pushes)
