-- ===== src/Epoll/Connect.antt =====
-- `EpollServer::OnTryConnect` and `ConnectIpPort`: the connections to other servers.
pub mod Retry
pub mod Reconnect
use pluto_server.Prelude.{
  ℕ, zero, suc, ◌+◌, ◌^◌, Bool, true, false, ◌||◌, List, [], ◌∷◌, ◌++◌, Option, none, some, ◌==◌,
  if◌then◌else◌,
}
use pluto_server.Channel.{Connector, new_connector, set_success, set_fd, set_io_watcher}
use pluto_server.Epoll.{EpollServer, Call, io_set, io_start, call, is_negative}

-- What the kernel and `malloc` give one connector in one round: the new socket, whether the connection
-- is made, and the address of its watcher.
pub record Attempt : Type 0 where
  pub socket : ℕ
  pub connected : Bool
  pub watcher : Option ℕ

-- `fd <= 0` of an `int`.
abbrev pub is_missing : ℕ → Bool
is_missing fd = fd == 0 || is_negative fd

-- The connector with a socket: its own, or a new one; `none` where no socket is to be had.
unfoldable pub with_socket : Connector → ℕ → Option Connector
with_socket c socket =
    if is_missing c.channel.fd
    then (if is_missing socket then none else some (set_fd c socket))
    else some c

-- What a round does to one connector, and whether the loop goes on: it stops if `malloc` fails.
pub record Round : Type 0 where
  pub connector : Connector
  pub events : List Call
  pub goes_on : Bool

unfoldable pub finish : Connector → Attempt → Round
finish c a =
    if a.connected
    then (elim a.watcher [
      | none ↦ record { connector = c; events = []; goes_on = false }
      | some w ↦ record {
        connector = set_success (set_io_watcher c w) true;
        events = io_set w c.channel.fd false ∷ (io_start w ∷ []);
        goes_on = true;
      }
    ])
    else record { connector = c; events = []; goes_on = true }

unfoldable pub try_connector : Connector → Attempt → Round
unfolding with_socket finish
try_connector c a =
    if c.success
    then record { connector = c; events = []; goes_on = true }
    else (elim (with_socket c a.socket) [
      | none ↦ record { connector = c; events = []; goes_on = true }
      | some c' ↦ finish c' a
    ])

-- The loop over the connectors: the list afterwards and the calls made.
unfoldable pub try_all : (ℕ → Attempt) → ℕ → List Connector → List Connector × List Call
try_all attempt i [] = ([], [])
try_all attempt i (c ∷ cs) =
    let r = try_connector c (attempt i) in
    let (rest, later) = try_all attempt (suc i) cs in
    if r.goes_on then (r.connector ∷ rest, r.events ++ later) else (r.connector ∷ cs, r.events)

-- `OnTryConnect`, given what each connector's round will get.
unfoldable pub on_try_connect : EpollServer → (ℕ → Attempt) → EpollServer
on_try_connect s attempt =
    let (connectors, events) = try_all attempt 0 s.connector_list in
    call (record s { connector_list = connectors }) events

-- `ConnectIpPort`, given what `netlib_socket` returns.
unfoldable pub connect_ip_port : EpollServer → List ℕ → ℕ → ℕ → EpollServer
connect_ip_port s server_ip port socket =
    let conn_fd = if is_negative socket then 0 else socket in
    record s { connector_list = s.connector_list ++ (new_connector conn_fd server_ip port ∷ []) }
