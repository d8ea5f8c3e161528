-- ===== src/Tests/Starts.antt =====
-- The start of the servers at concrete inputs.
use pluto_server.Prelude.{◌≡◌, refl, arith, true, ℕ, List, [], ◌∷◌, ◌++◌, none, some, replicate}
use pluto_server.Prelude.Text.{codes}
use pluto_server.Prelude.TextMap
use pluto_server.Prelude.Memory.{plain_heap}
use pluto_server.Util.{one_of, split, split_from}
use pluto_server.MessageQueue.{new_message_queue}
use pluto_server.Json.Lookup.{same_name}
use pluto_server.Epoll.{EpollServer}
use pluto_server.Logger.{new_logger}
use pluto_server.Config.{load_file}
use pluto_server.Startup.{Opened, start, serve_on, game_socket_thread, db_worker_thread}
use pluto_server.Startup.Connecting.{
  Address, HasServer, HasList, item2, read_helper, connectors, game_socket_thread-connectors,
  game_socket_thread_missing,
}
use pluto_server.Startup.Faults.{no_user, start_overruns, db_worker_thread_unset}
use pluto_server.Tests.Clients
use pluto_server.Tests.Clients.{Value, text, number, item, end, values, told}

start_overruns_example :
    (start values true
        (codes "db")
        (load_file (some (codes "{}")) (λ size. some (replicate size 0)))
        new_logger
      ≡ none)
    × (start values true (codes "db") (load_file none (λ size. some (replicate size 0))) new_logger
        ≡ none)
start_overruns_example =
    start_overruns values true (codes "db") (codes "{}") (replicate 2 0)
      (λ size. some (replicate size 0)) new_logger (omega arith) refl refl (omega arith)

-- {"game": {"port": n}, "db_list": s, "db1": {"ip": "10.0.0.1", "port": 70000}}
abbrev config : List ℕ → Value
config names = item (codes "game") (item (codes "port") (number 8000) end) (
    item (codes "db_list") (text names) (
      item (codes "db1")
        (item (codes "ip") (text (codes "10.0.0.1")) (item (codes "port") (number 70000) end)) end))

config-HasList : (names : List ℕ) → HasList values (config names) (codes "game") names
unfolding Clients.lookup Clients.string_in same_name TextMap.text_eq
config-HasList names = record {
  port_item = number 8000;
  has_port = refl;
  list_item = text names;
  has_list = refl;
  is_list = refl;
}

abbrev db1 : Address
db1 = record { name = codes "db1"; ip = codes "10.0.0.1"; port = 70000 }

config-HasServer : (names : List ℕ) → HasServer values (config names) db1
unfolding Clients.lookup Clients.string_in same_name TextMap.text_eq
config-HasServer names = record {
  ip_item = text (codes "10.0.0.1");
  has_ip = refl;
  is_ip = refl;
  port_item = number 70000;
  has_port = refl;
  is_port = refl;
}

abbrev server : EpollServer
server = record {
  eventfd = 0;
  channel_map = [];
  timer_map = [];
  connector_list = [];
  mq = new_message_queue;
  calls = [];
}

abbrev opened : Opened
opened = record {
  socket = 5;
  binds = true;
  listens = true;
  eventfd = 6;
  accept_watcher = 900;
  eventfd_watcher = 901;
  timeout_watcher = 902;
}

one_name : split (codes "db1") (b',' ∷ []) ≡ codes "db1" ∷ []
unfolding split split_from one_of
one_name = refl

no_name : split [] (b',' ∷ []) ≡ [] ++ ([] ∷ [])
unfolding split split_from
no_name = refl

game_socket_thread-connectors_example :
    game_socket_thread values
      (codes "game")
      (read_helper values (config (codes "db1")) [])
      server
      (λ i. 7)
      opened
    ≡ some (
        serve_on (record server { connector_list = [] ++ connectors (λ i. 7) 0 (db1 ∷ []) }) opened)
game_socket_thread-connectors_example =
    game_socket_thread-connectors values (config (codes "db1")) [] (codes "game") (codes "db1")
      (db1 ∷ []) server (λ i. 7) opened (config-HasList (codes "db1")) one_name
      (config-HasServer (codes "db1"), tt)

unnamed : values.get_object_item (config []) [] ≡ none
unfolding Clients.lookup same_name TextMap.text_eq
unnamed = refl

game_socket_thread_missing_example :
    game_socket_thread values
      (codes "game")
      (read_helper values (config []) [])
      server
      (λ i. 7)
      opened
    ≡ none
game_socket_thread_missing_example =
    game_socket_thread_missing values (config []) [] (codes "game") [] server (λ i. 7) opened [] []
      [] (config-HasList []) no_name unnamed

abbrev half_config : Value
half_config = item (codes "mysql") (item (codes "host") (text (codes "localhost")) end) end

half_config_no_user : item2 values half_config (codes "mysql") (codes "user") ≡ none
unfolding Clients.lookup same_name TextMap.text_eq
half_config_no_user = refl

db_worker_thread_unset_example :
    db_worker_thread values plain_heap
      (told (some 0) true)
      (record { worker_id = 0; json_helper = some (read_helper values half_config []) })
      new_message_queue
      []
    ≡ none
db_worker_thread_unset_example =
    db_worker_thread_unset values half_config [] plain_heap (told (some 0) true) 0 new_message_queue
      [] (no_user half_config_no_user)
