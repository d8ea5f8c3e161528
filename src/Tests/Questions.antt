-- ===== src/Tests/Questions.antt =====
-- A question to a database server at concrete inputs.
use pluto_server.Prelude.{◌%◌, ◌^◌, ◌≡◌, refl, arith, [], ◌∷◌, ◌++◌, some, length, true}
use pluto_server.Prelude.Text.{codes}
use pluto_server.Prelude.Memory.{plain_heap, plain_heap-IsAllocator}
use pluto_server.Channel.{Connector, new_connector, set_success, set_io_watcher}
use pluto_server.Package.RoundTrip.{encoded, wire}
use pluto_server.MessageQueue.{new_message_queue}
use pluto_server.Util.{sql_query}
use pluto_server.Epoll.{EpollServer}
use pluto_server.Epoll.Write.{took}
use pluto_server.GameWorker.{on_connector}
use pluto_server.GameWorker.Question.{ask, question, Questioned}
use pluto_server.GameWorker.Question.Whole.{question-Questioned}
use pluto_server.Tests.Events.{takes_all-IsSocket}
use pluto_server.Channel.{Channel, new_channel}
use pluto_server.Util.{fd_type_server}
use pluto_server.Epoll.{get_channel}
use pluto_server.Epoll.Peer.{InPlace}
use pluto_server.DbWorker.Reply.{Describes}
use pluto_server.System.Query.{query, IsIdle, query-Told}
use pluto_server.Tests.Clients.{
  end, values, values-IsCJson, answer, told, print, answer_object, answer_text-IsRequest,
}
use pluto_server.Tests.Workers.{answers}
use pluto_server.Tests.Exchanges.{idle, idle_there, query-HoldsSql}

-- A connection on descriptor 6 to the database server.
abbrev database : Connector
database = set_io_watcher (set_success (new_connector 6 (codes "127.0.0.1") 4000) true) 900

abbrev game : EpollServer
game = record {
  eventfd = 3;
  channel_map = [];
  timer_map = [];
  connector_list = database ∷ [];
  mq = new_message_queue;
  calls = [];
}

question-Questioned_example :
    (s1 s' : EpollServer) × (ask plain_heap
        (λ timerid. 700)
        (λ round chunk. took (length chunk))
        game
        6
        9
        (codes "select")
      ≡ some s1)
    × (question plain_heap
          (λ timerid. 700)
          (λ round chunk. took (length chunk))
          (record { calls = [] })
          game
          6
          9
          (codes "select")
          (wire 1 9 (codes "{}") [])
        ≡ some (record { calls = [] ++ (on_connector 1 9 (codes "{}") ∷ []) }, s'))
    × Questioned
        (λ round chunk. took (length chunk))
        game
        database
        []
        6
        (encoded sql_query (9 % 2 ^ 16) (codes "select"))
        s1
        s'
question-Questioned_example =
    question-Questioned plain_heap-IsAllocator (λ timerid. 700) (λ round chunk. took (length chunk))
      takes_all-IsSocket (record { calls = [] }) game 6 database [] 9 (codes "select") 1 9
      (codes "{}") refl refl refl (omega arith) refl (omega arith) (omega arith) refl refl
      (record {
        is_text = omega arith;
        command_small = omega arith;
        sub_small = omega arith;
        plain_length = omega arith;
        plain_command = omega arith;
        plain_sub = omega arith;
        short = omega arith;
      })

database-IsIdle : IsIdle game database.channel
database-IsIdle = record {
  valid_in = omega arith;
  empty_in = refl;
  valid_out = omega arith;
  empty_out = refl;
  no_work = refl;
  no_answers = refl;
}

client-IsIdle : IsIdle idle (new_channel 7 (some 900) fd_type_server)
client-IsIdle = record {
  valid_in = omega arith;
  empty_in = refl;
  valid_out = omega arith;
  empty_out = refl;
  no_work = refl;
  no_answers = refl;
}

query-Told_example :
    (s' d' : EpollServer) × (query plain_heap values
        (told (some 0) true)
        (λ timerid. 700)
        (λ round chunk. took (length chunk))
        (λ round chunk. took (length chunk))
        (record { calls = [] })
        game
        6
        (record { db_conn = record { mysql = some 0 }; conn_success = true })
        idle
        7
        9
        (codes "select")
      ≡ some (
        (
          record { calls = [] ++ (on_connector sql_query (9 % 2 ^ 16) (print answer_object) ∷ []) },
          s',
        ),
        (record { db_conn = record { mysql = some 0 }; conn_success = true }, d'),
      ))
    × Describes values answer_object answer.fields (codes "7" ∷ (codes "ab" ∷ []))
    × ((k' : Channel) × InPlace game database [] k' s' × IsIdle s' k')
    × ((channel' : Channel) × (get_channel d' 7 ≡ some channel') × IsIdle d' channel')
query-Told_example =
    query-Told plain_heap-IsAllocator values-IsCJson end refl (told (some 0) true) (λ timerid. 700)
      (λ round chunk. took (length chunk)) (λ round chunk. took (length chunk))
      (λ round chunk. refl) (λ round chunk. refl) (record { calls = [] }) game 6 database []
      (record { db_conn = record { mysql = some 0 }; conn_success = true }) idle 7
      (new_channel 7 (some 900) fd_type_server) 9 (codes "select") (codes "select") answer
      (codes "7" ∷ (codes "ab" ∷ [])) (record { mysql = some 0 }) refl refl refl database-IsIdle
      idle_there client-IsIdle
      (record {
        is_text = omega arith;
        command_small = omega arith;
        sub_small = omega arith;
        plain_length = omega arith;
        plain_command = omega arith;
        plain_sub = omega arith;
        short = omega arith;
      })
      (answer_text-IsRequest (9 % 2 ^ 16) (omega arith)) query-HoldsSql answers
