-- ===== src/GameWorker.antt =====
-- gameserver/game_worker.cpp, gameserver/game_cpp2py.cpp and gameserver/game_py2cpp.cpp: the threads that
-- hand the messages of the socket thread to the Python script, and the functions that the script calls
-- back. The script is not here: the calls made of it are recorded, and the calls that it makes back while
-- one of them runs are an argument. An `int` is its pattern. `none` is undefined behaviour.
pub mod Natives
pub mod Calls
pub mod Round
pub mod Exchange
pub mod Question
use Prim.Native.Nat.{bit_and}
use pluto_server.Prelude.{
  ℕ, ◌%◌, ◌^◌, ltb, ◌==◌, ◌&&◌, not, Bool, true, false, List, [], ◌∷◌, ◌++◌, Option, none, some,
  if◌then◌else◌, ◌>>=◌,
}
use pluto_server.Prelude.Memory.{Allocator}
use pluto_server.Package.{Package, body_text, get_command_id, get_sub_id}
use pluto_server.MessageQueue.{
  Message, MessageQueue, as_pack, as_timer, mq2c_push, mq2c_push_broadcast, mq2c_push_timer,
  mq2c_push_connector,
}
use pluto_server.Logger.{Severity, debug, info, warning, error, type_of}
use pluto_server.Util.{
  mq_type_pack, mq_type_close, mq_type_timer, mq_type_connect, mq_type_tick, sql_query, sql_update,
}

-- The methods of the script that `Game_Cpp2Py` calls, with their arguments.
pub data PyCall : Type 0 where
  on_server : ℕ → ℕ → ℕ → List ℕ → PyCall
  on_fd_closed on_timer on_tick : ℕ → PyCall
  on_connector : ℕ → ℕ → List ℕ → PyCall

-- The functions of `PlutoMethods`, each with what `PyArg_ParseTuple` makes of its arguments; `none` where
-- that fails.
pub data Native : Type 0 where
  call_client : Option (ℕ × ℕ × ℕ × List ℕ) → Native
  broad_cast : Option (ℕ × ℕ × ℕ × List ℕ × List ℕ) → Native
  add_timer : Option (ℕ × ℕ) → Native
  on_load : Option (ℕ × List ℕ) → Native
  on_save : Option (List ℕ) → Native
  log_text : Option (ℕ × List ℕ) → Native

-- `all > 0` of an `int`.
abbrev pub is_positive : ℕ → Bool
is_positive n = ltb 0 n && ltb n (2 ^ 31)

-- Which log function `log_info` calls.
unfoldable pub severity_of : ℕ → Option Severity
severity_of kind =
    if not (bit_and kind (type_of debug) == 0)
    then some debug
    else (if not (bit_and kind (type_of info) == 0)
        then some info
        else (if not (bit_and kind (type_of warning) == 0)
            then some warning
            else (if not (bit_and kind (type_of error) == 0) then some error else none)))

-- What a function leaves: the queues, and the line that it logs.
pub record Returned : Type 0 where
  pub queue : MessageQueue
  pub logged : Option (Severity × List ℕ)

abbrev pub returned : MessageQueue → Returned
returned q = record { queue = q; logged = none }

module _ (heap : Allocator) where
  -- An argument goes to `uint16_t` for the two ids. `add_timer` pushes the timer and then runs off its end,
  -- where an object is to be returned: that is undefined.
  unfoldable pub run_native : MessageQueue → Native → Option Returned
  run_native q (call_client none) = some (returned q)
  run_native q (call_client (some (uniqid, command_id, sub_id, str))) = do
    q' ← mq2c_push heap q uniqid (command_id % 2 ^ 16) (sub_id % 2 ^ 16) str
    some (returned q')
  run_native q (broad_cast none) = some (returned q)
  run_native q (broad_cast (some (command_id, sub_id, all, str, bc_list))) = do
    q' ←
        mq2c_push_broadcast heap q (command_id % 2 ^ 16) (sub_id % 2 ^ 16) (is_positive all) str
          bc_list
    some (returned q')
  run_native q (add_timer none) = some (returned q)
  run_native q (add_timer (some (delay, repeat_sec))) = none
  run_native q (on_load none) = some (returned q)
  run_native q (on_load (some (return_id, str))) = do
    q' ← mq2c_push_connector heap q sql_query (return_id % 2 ^ 16) str
    some (returned q')
  run_native q (on_save none) = some (returned q)
  run_native q (on_save (some str)) = do
    q' ← mq2c_push_connector heap q sql_update 0 str
    some (returned q')
  run_native q (log_text none) = some (returned q)
  run_native q (log_text (some (kind, str))) =
      some (record { queue = q; logged = severity_of kind >>= λ s. some (s, str) })

  -- The calls that the script makes, one after the other.
  unfoldable pub run_natives : MessageQueue → List Native → Option MessageQueue
  run_natives q [] = some q
  run_natives q (n ∷ ns) = do r ← run_native q n; run_natives r.queue ns

-- `OnServer` and `OnConnector` read the body of the package as a text.
unfoldable pub call_on_server : ℕ → Package → Option PyCall
call_on_server uniqid p = do
  body ← body_text p
  some (on_server uniqid (get_command_id p) (get_sub_id p) body)

unfoldable pub call_on_connector : Package → Option PyCall
call_on_connector p = do
  body ← body_text p
  some (on_connector (get_command_id p) (get_sub_id p) body)

-- The switch of `Start`: the call of the script, if there is one.
unfoldable pub call_of : Message → Option (Option PyCall)
call_of m =
    if m.kind == mq_type_pack
    then (do
      uniqid ← m.uniqid
      p ← as_pack m.payload
      call ← call_on_server uniqid p
      some (some call))
    else (if m.kind == mq_type_close
        then (do uniqid ← m.uniqid; some (some (on_fd_closed uniqid)))
        else (if m.kind == mq_type_timer
            then (do t ← as_timer m.payload; some (some (on_timer t.timerid)))
            else (if m.kind == mq_type_connect
                then (do p ← as_pack m.payload; call ← call_on_connector p; some (some call))
                else (if m.kind == mq_type_tick then some (some (on_tick 0)) else some none))))

-- `class GameWorker`: the calls made of the script so far.
pub record GameWorker : Type 0 where
  pub calls : List PyCall

-- One round of the loop of `Start`: the call, and while it runs the calls back.
unfoldable pub handle_message :
    Allocator
    → GameWorker
    → MessageQueue
    → Message
    → List Native
    → Option (GameWorker × MessageQueue)
unfolding call_of
handle_message heap w q m made = do
  called ← call_of m
  elim called [
    | none ↦ some (w, q)
    | some call ↦ (do
      q' ← run_natives heap q made
      some (record { calls = w.calls ++ (call ∷ []) }, q'))
  ]
