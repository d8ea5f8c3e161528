-- ===== src/Tests/Exchanges.antt =====
-- A request and its answer at concrete inputs.
use pluto_server.Prelude.{◌%◌, ◌^◌, ◌≡◌, refl, arith, [], ◌∷◌, ◌++◌, some, length, true}
use pluto_server.Prelude.Dict
use pluto_server.Prelude.TextMap
use pluto_server.Prelude.Text.{codes}
use pluto_server.Prelude.Memory.{plain_heap, plain_heap-IsAllocator}
use pluto_server.Channel.{new_channel}
use pluto_server.Package.RoundTrip.{encoded, wire}
use pluto_server.MessageQueue.{new_message_queue}
use pluto_server.Util.{fd_type_server}
use pluto_server.Epoll.{EpollServer, get_channel}
use pluto_server.Epoll.Write.{took}
use pluto_server.GameWorker.{PyCall, call_client}
use pluto_server.GameWorker.Calls.{Tells}
use pluto_server.GameWorker.Exchange.{exchange, exchange-Exchanged}
use pluto_server.Epoll.Exchange.{Exchanged}
use pluto_server.Epoll.Read.Request.{request}
use pluto_server.Json.Lookup.{same_name}
use pluto_server.DbWorker.Reply.{Describes}
use pluto_server.DbWorker.Exchange.{db_exchange, HoldsSql, db_exchange-Exchanged}
use pluto_server.Tests.Clients
use pluto_server.Tests.Clients.{
  Value, text, item, end, values, values-IsCJson, answer, told, print, answer_object,
  answer_text-length,
}
use pluto_server.Tests.Workers.{answers}
use pluto_server.Tests.Events.{takes_all-IsSocket}

-- A server with one client, that has said nothing yet.
abbrev pub idle : EpollServer
idle = record {
  eventfd = 3;
  channel_map = (7, new_channel 7 (some 900) fd_type_server) ∷ [];
  timer_map = [];
  connector_list = [];
  mq = new_message_queue;
  calls = [];
}

pub idle_there : get_channel idle 7 ≡ some (new_channel 7 (some 900) fd_type_server)
unfolding Dict.find
idle_there = refl

exchange-Exchanged_example :
    (call : PyCall) × (s' : EpollServer) × (exchange plain_heap
        (λ timerid. 700)
        (λ round chunk. took (length chunk))
        (record { calls = [] })
        idle
        7
        (wire 1 2 (codes "hi") [])
        (call_client (some (7, 3, 4, codes "bye")) ∷ [])
      ≡ some (record { calls = [] ++ (call ∷ []) }, s'))
    × Tells (request 7 1 2 (codes "hi")) call
    × Exchanged
        (λ round chunk. took (length chunk))
        idle
        7
        (new_channel 7 (some 900) fd_type_server)
        (encoded (3 % 2 ^ 16) (4 % 2 ^ 16) (codes "bye"))
        s'
exchange-Exchanged_example =
    exchange-Exchanged plain_heap-IsAllocator (λ timerid. 700) (λ round chunk. took (length chunk))
      takes_all-IsSocket (record { calls = [] }) idle 7 (new_channel 7 (some 900) fd_type_server) 1
      2 (codes "hi") 3 4 (codes "bye") idle_there (omega arith) refl (omega arith) (omega arith)
      refl refl
      (record {
        is_text = omega arith;
        command_small = omega arith;
        sub_small = omega arith;
        plain_length = omega arith;
        plain_command = omega arith;
        plain_sub = omega arith;
        short = omega arith;
      })

-- The JSON of a query, as the values parse it.
pub query-HoldsSql : HoldsSql values (codes "select") (codes "select")
unfolding Clients.lookup Clients.string_in same_name TextMap.text_eq
query-HoldsSql = record {
  json = item (codes "sql") (text (codes "select")) end;
  parsed = refl;
  item = text (codes "select");
  found = refl;
  value = refl;
}

db_exchange-Exchanged_example :
    (s' : EpollServer) × (db_exchange plain_heap values
        (told (some 0) true)
        (λ timerid. 700)
        (λ round chunk. took (length chunk))
        (record { db_conn = record { mysql = some 0 }; conn_success = true })
        idle
        7
        (wire 1 9 (codes "select") [])
      ≡ some (record { db_conn = record { mysql = some 0 }; conn_success = true }, s'))
    × Describes values answer_object answer.fields (codes "7" ∷ (codes "ab" ∷ []))
    × Exchanged
        (λ round chunk. took (length chunk))
        idle
        7
        (new_channel 7 (some 900) fd_type_server)
        (encoded 1 9 (print answer_object))
        s'
db_exchange-Exchanged_example =
    db_exchange-Exchanged plain_heap-IsAllocator values-IsCJson end refl (told (some 0) true)
      (λ timerid. 700) (λ round chunk. took (length chunk)) takes_all-IsSocket
      (record { db_conn = record { mysql = some 0 }; conn_success = true }) idle 7
      (new_channel 7 (some 900) fd_type_server) 9 (codes "select") (codes "select") answer
      (codes "7" ∷ (codes "ab" ∷ [])) (record { mysql = some 0 }) idle_there (omega arith) refl
      (omega arith) (omega (arith, answer_text-length)) refl refl
      (record {
        is_text = omega arith;
        command_small = omega arith;
        sub_small = omega arith;
        plain_length = omega arith;
        plain_command = omega arith;
        plain_sub = omega arith;
        short = omega arith;
      })
      query-HoldsSql answers
