-- ===== src/Tests/Workers.antt =====
-- The workers at concrete inputs.
use pluto_server.Prelude.{
  ℕ, ◌≡◌, refl, arith, Bool, true, false, [], ◌∷◌, ◌++◌, none, some, some_inj, sym, ap,
}
use pluto_server.Prelude.Dict
use pluto_server.Prelude.TextMap
use pluto_server.Prelude.Text.{codes}
use pluto_server.Prelude.Memory.{plain_heap, plain_heap-IsAllocator}
use pluto_server.Package.{Package, body_text, c_string}
use pluto_server.Package.RoundTrip.{message}
use pluto_server.MessageQueue.{
  Message, MessageQueue, new_message_queue, pack, mq2s_push, mq2s_push_close, as_pack,
}
use pluto_server.MessageQueue.Typed
use pluto_server.MessageQueue.Typed.{AreTyped, ToWorker, client_pack, closed, Reach-AreTyped}
use pluto_server.Epoll.{EpollServer, get_channel}
use pluto_server.Channel.{new_channel}
use pluto_server.Util.{fd_type_server}
use pluto_server.GameWorker
use pluto_server.GameWorker.{PyCall, Native, call_client, on_save, GameWorker}
use pluto_server.GameWorker.Natives.{PushesAll}
use pluto_server.GameWorker.Calls.{HasText, Tells, handle_message-Tells}
use pluto_server.Json.{CJson}
use pluto_server.Json.Lookup.{same_name}
use pluto_server.DbConn.{ConnParam, execute_query}
use pluto_server.DbWorker
use pluto_server.DbWorker.{DbWorker, connect_db}
use pluto_server.DbWorker.Reply.{Answers}
use pluto_server.DbWorker.Answer.{Asks, connected_to, start_malformed, connect_db_fails}
use pluto_server.Tests.Clients
use pluto_server.Tests.Clients.{
  Value, text, item, end, values, values-IsCJson, answer, answer-IsDistinct, told,
}

abbrev two_pushed : MessageQueue
two_pushed = mq2s_push_close (mq2s_push new_message_queue 7 1 (message 1 2 (codes "hi") 0)) 7

Reach-AreTyped_example : AreTyped two_pushed
Reach-AreTyped_example =
    Reach-AreTyped {heap = plain_heap} {q = new_message_queue} {q' = two_pushed}
      (record { workers = tt; loop = tt })
      (Typed.next (Typed.next Typed.here (Typed.push 7 1 (message 1 2 (codes "hi") 0)))
        (Typed.push_close 7))

-- A client's request that says "hi".
abbrev hello : Message
hello = record { uniqid = some 7; payload = pack (message 1 2 (codes "hi") 0); kind = 1 }

hello-ToWorker : ToWorker hello
hello-ToWorker = client_pack 7 (message 1 2 (codes "hi") 0) refl refl refl

hello-HasText : HasText hello
unfolding body_text c_string
hello-HasText p e = (codes "hi", ap body_text (sym (some_inj (ap as_pack e))))

handle_message-Tells_example :
    (call : PyCall) × (q' : MessageQueue) × (GameWorker.handle_message plain_heap
        (record { calls = [] })
        new_message_queue
        hello
        (call_client (some (7, 1, 2, codes "bye")) ∷ (on_save (some (codes "bye")) ∷ []))
      ≡ some (record { calls = [] ++ (call ∷ []) }, q'))
    × Tells hello call
    × PushesAll new_message_queue
        (call_client (some (7, 1, 2, codes "bye")) ∷ (on_save (some (codes "bye")) ∷ []))
        q'
handle_message-Tells_example =
    handle_message-Tells plain_heap-IsAllocator (record { calls = [] }) new_message_queue hello
      (call_client (some (7, 1, 2, codes "bye")) ∷ (on_save (some (codes "bye")) ∷ []))
      hello-ToWorker hello-HasText (omega arith, (omega arith, tt))

abbrev server : EpollServer
server = record {
  eventfd = 3;
  channel_map = (7, new_channel 7 (some 900) fd_type_server) ∷ [];
  timer_map = [];
  connector_list = [];
  mq = record new_message_queue { mq2s = hello ∷ (hello ∷ []) };
  calls = [];
}

client_there : get_channel server 7 ≡ some (new_channel 7 (some 900) fd_type_server)
unfolding Dict.find
client_there = refl

-- A game server's query.
abbrev question : Package
question = message 1 9 (codes "select") 0

abbrev asked : Message
asked = record { uniqid = some 7; payload = pack question; kind = 1 }

question_text : body_text question ≡ some (codes "select")
unfolding body_text c_string
question_text = refl

asked-Asks : Asks values asked question (codes "select")
unfolding Clients.lookup Clients.string_in same_name TextMap.text_eq
asked-Asks = record {
  kind = refl;
  payload = refl;
  command = refl;
  body = codes "select";
  text = question_text;
  json = item (codes "sql") (text (codes "select")) end;
  parsed = refl;
  item = text (codes "select");
  found = refl;
  value = refl;
}

-- The connection before and after the query, which the client answers.
abbrev worker : Bool → DbWorker ℕ
worker works = record { db_conn = record { mysql = some 0 }; conn_success = true }

pub answers :
    Answers
      (told (some 0) true)
      (record { mysql = some 0 })
      (codes "select")
      answer
      (codes "7" ∷ (codes "ab" ∷ []))
      (record { mysql = some 0 })
unfolding execute_query
answers = record {
  queried = refl;
  more = [];
  first = refl;
  width = refl;
  distinct = answer-IsDistinct;
}

-- A cJSON that parses nothing.
abbrev strict : CJson
strict = record values { parse = λ s. none }

start_malformed_example :
    DbWorker.start plain_heap strict
      (told (some 0) false)
      (connected_to (told (some 0) false) 0)
      new_message_queue
      (asked ∷ (asked ∷ []))
    ≡ none
start_malformed_example =
    start_malformed plain_heap strict (told (some 0) false) new_message_queue asked (asked ∷ [])
      question (codes "select") 0 0 refl refl refl question_text refl refl

abbrev param : ConnParam
param = record {
  host = codes "localhost";
  user = codes "root";
  passwd = [];
  db = codes "game";
  port = 3306;
}

connect_db_fails_example :
    ((connect_db plain_heap values (told none true) (worker true) param).conn_success ≡ true)
    × (DbWorker.start plain_heap values
          (told none true)
          (connect_db plain_heap values (told none true) (worker true) param)
          new_message_queue
          (asked ∷ [])
        ≡ none)
connect_db_fails_example =
    connect_db_fails plain_heap values (told none true) (worker true) new_message_queue param asked
      question (codes "select") refl asked-Asks
