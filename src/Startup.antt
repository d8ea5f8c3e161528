-- ===== src/Startup.antt =====
-- gameserver/main.cpp, dbserver/main.cpp, gameserver/game_server.cpp, dbserver/db_server.cpp, with
-- StartServer, InitEventfd and InitTimer of common/epoll_server.cpp: from the arguments of the program to
-- its threads. A thread is what it is started with. `none` is undefined behaviour.
pub mod Connecting
pub mod Faults
pub mod Waking
use pluto_server.Prelude.{
  ℕ, zero, suc, ◌+◌, Bool, true, false, List, [], ◌∷◌, ◌++◌, map, Option, none, some, if◌then◌else◌,
  ◌>>=◌, ◌==◌, ◌&&◌,
}
use pluto_server.Prelude.Memory.{Allocator}
use pluto_server.Json.{CJson, JsonHelper}
use pluto_server.Logger.{Logger, set_server_name}
use pluto_server.MessageQueue.{Message, MessageQueue}
use pluto_server.Epoll.{EpollServer, timer_init, timer_start, call, add_event, is_negative}
use pluto_server.Epoll.Connect.{connect_ip_port}
use pluto_server.DbConn.{Mysql}
use pluto_server.DbWorker
use pluto_server.DbWorker.{DbWorker, new_worker, connect_db}
use pluto_server.Config.{
  ConfigReader, get_all_config, helper_of, set_log_config, set_work_num, get_server_port,
  get_server_ip_port, get_db_list, get_sql_param, conn_param,
}

-- `main`: the name behind the two dashes of the first argument, if it has them.
unfoldable pub server_name_of : List (List ℕ) → Option (List ℕ)
server_name_of (program ∷ ((a ∷ (b ∷ name)) ∷ more)) =
    if (a == b'-') && (b == b'-') then some name else none
server_name_of argv = none

-- `struct WorkerParam`; the helper may be NULL.
pub record WorkerParam (Item : Type 0) : Type 0 where
  pub worker_id : ℕ
  pub json_helper : Option (JsonHelper Item)

-- The threads, with what `CreateThread` hands them.
pub data Thread (Item : Type 0) : Type 0 where
  socket_thread : JsonHelper Item → Thread Item
  worker_thread : WorkerParam Item → Thread Item

-- A server that `Start` has started, with its threads in the order of their creation.
pub record Server (Item : Type 0) : Type 0 where
  pub server_name : List ℕ
  pub logger : Logger
  pub worker_num : ℕ
  pub threads : List (Thread Item)

-- The loop that starts the workers.
unfoldable pub worker_threads :
    {Item : Type 0} → Option (JsonHelper Item) → ℕ → ℕ → List (Thread Item)
worker_threads json_helper i zero = []
worker_threads json_helper i (suc n) =
    worker_thread (record { worker_id = i; json_helper = json_helper })
    ∷ worker_threads json_helper (suc i) n

module _ (c : CJson) where
  -- The part of `Start` behind the configuration. The arrays of the threads cannot have a negative length.
  unfoldable pub create_threads :
      (shares : Bool)
      → Server (CJson.Item c)
      → JsonHelper (CJson.Item c)
      → Option (Server (CJson.Item c))
  create_threads shares server h =
      if is_negative server.worker_num
      then none
      else some (record server {
        threads =
            socket_thread h ∷ worker_threads (if shares then some h else none) 0 server.worker_num;
      })

  -- `GameServer::Start` and `DBServer::Start`; only the second gives its workers the helper.
  unfoldable pub start :
      (shares : Bool) → List ℕ → ConfigReader → Logger → Option (Server (CJson.Item c))
  start shares name reader logger = do
    h ← helper_of c (get_all_config reader)
    (h1, logger1, log_set) ← set_log_config c h (set_server_name logger name)
    let (h2, worker_num, num_set) = set_work_num c name h1 1
    let idle : Server (CJson.Item c) = record {
      server_name = name;
      logger = logger1;
      worker_num = 1;
      threads = [];
    }
    if log_set && num_set
        then create_threads shares (record idle { worker_num = worker_num }) h2
        else some idle

-- What the kernel and `malloc` give `StartServer`.
pub record Opened : Type 0 where
  pub socket : ℕ
  pub binds : Bool
  pub listens : Bool
  pub eventfd : ℕ
  pub accept_watcher : ℕ
  pub eventfd_watcher : ℕ
  pub timeout_watcher : ℕ

-- `InitEventfd`; `none` where it ends the process.
unfoldable pub init_eventfd : EpollServer → Opened → Option EpollServer
init_eventfd s o =
    if is_negative o.eventfd
    then none
    else some (add_event (record s { eventfd = o.eventfd }) o.eventfd_watcher o.eventfd false)

-- `InitTimer`.
unfoldable pub init_timer : EpollServer → Opened → EpollServer
init_timer s o = call s (timer_init o.timeout_watcher 1 1 ∷ (timer_start o.timeout_watcher ∷ []))

-- `StartServer` up to `ev_run`; `none` where it ends the process.
unfoldable pub start_server : EpollServer → Opened → Option EpollServer
start_server s o =
    if is_negative o.socket
    then none
    else (if o.binds && o.listens
        then (do
          s' ← init_eventfd (add_event s o.accept_watcher o.socket false) o
          some (init_timer s' o))
        else none)

-- How a socket thread ends up: it returns, the process ends, or it serves.
pub data SocketThread : Type 0 where
  returns exits : SocketThread
  serves : EpollServer → SocketThread

unfoldable pub serve_on : EpollServer → Opened → SocketThread
serve_on s o = elim (start_server s o) [ none ↦ exits | some s' ↦ serves s' ]

module _ (c : CJson) where
  -- The loop over the names of the database servers, with the socket that each gets. It goes on where
  -- `GetServerIpPort` fails, and reads `port` then too.
  unfoldable pub connect_all :
      JsonHelper (CJson.Item c) → EpollServer → (ℕ → ℕ) → ℕ → List (List ℕ) → Option EpollServer
  connect_all h s sockets i [] = some s
  connect_all h s sockets i (name ∷ names) = do
    (h', p) ← get_server_ip_port c h name
    port ← p.port
    connect_all h' (connect_ip_port s p.ip port (sockets i)) sockets (suc i) names

  -- `GameServer::Thread_Socket_CB` behind its list, behind its port, and all of it, of `server_name_`.
  unfoldable pub connect_list :
      JsonHelper (CJson.Item c)
      → EpollServer
      → (ℕ → ℕ)
      → Opened
      → Option (List (List ℕ))
      → Option SocketThread
  connect_list h s sockets o none = some returns
  connect_list h s sockets o (some names) = do
    s' ← connect_all h s sockets 0 names
    some (serve_on s' o)

  unfoldable pub with_port :
      JsonHelper (CJson.Item c) → EpollServer → (ℕ → ℕ) → Opened → Option ℕ → Option SocketThread
  with_port h s sockets o none = some returns
  with_port h s sockets o (some port) = do
    (h', db_list) ← get_db_list c h
    connect_list h' s sockets o db_list

  unfoldable pub game_socket_thread :
      List ℕ → JsonHelper (CJson.Item c) → EpollServer → (ℕ → ℕ) → Opened → Option SocketThread
  game_socket_thread server_name h s sockets o =
      let (h', port) = get_server_port c server_name h in with_port h' s sockets o port

  -- `DBServer::Thread_Socket_CB`.
  unfoldable pub db_socket_thread :
      List ℕ → JsonHelper (CJson.Item c) → EpollServer → Opened → SocketThread
  db_socket_thread server_name h s o =
      let (h1, port) = get_server_port c server_name h in
      elim port [ none ↦ returns | some port ↦ serve_on s o ]

  -- `DBServer::Thread_Worker_CB`: what `GetSqlParam` returns is not looked at.
  unfoldable pub db_worker_thread :
      Allocator
      → (client : Mysql) → WorkerParam (CJson.Item c)
      → MessageQueue
      → List Message
      → Option (DbWorker (Mysql.Connection client) × MessageQueue)
  db_worker_thread heap client param q ms = do
    h ← param.json_helper
    (h', sql_param) ← get_sql_param c h
    args ← conn_param sql_param
    DbWorker.start heap c client (connect_db heap c client (new_worker heap c client) args) q ms
