-- ===== src/Epoll.antt =====
-- common/epoll_server.h and common/epoll_server.cpp, with common/timer.h and common/timer.cpp: the state
-- of the event loop and its small operations. A handler is a function from state to state; `none` is
-- undefined behaviour. What the loop asks of libev and of the kernel is kept in `calls`, oldest first,
-- and what they answer is an argument. A file descriptor and a `uniqid` are bit patterns.
pub mod Lookup
pub mod Read
pub mod Write
pub mod Eventfd
pub mod Timers
pub mod Connect
pub mod Callbacks
pub mod Exchange
pub mod Places
pub mod Every
pub mod Peer
pub mod Sound
use pluto_server.Prelude.{
  ℕ, ◌+◌, ◌-◌, ◌%◌, ◌^◌, ◌<◌, Bool, true, false, List, [], ◌∷◌, ◌++◌, map, Option, none, some, ◌==◌,
  ltb, leb, if◌then◌else◌, ◌>>=◌,
}
use pluto_server.Prelude.Dict
use pluto_server.Channel.{Channel, Connector, new_channel, set_success, set_fd}
use pluto_server.MessageQueue.{MessageQueue, mq2s_push_close}
use pluto_server.Util.{FdType, fd_type_server, fd_type_connect}

-- A call outwards. Of the events, EV_READ is always set; the flag says whether EV_WRITE is too.
pub data Call : Type 0 where
  io_set : ℕ → ℕ → Bool → Call
  io_start io_stop : ℕ → Call
  timer_init : ℕ → ℕ → ℕ → Call
  timer_start : ℕ → Call
  close_fd : ℕ → Call
  sent_to : ℕ → List ℕ → Call

-- `class Timer`.
pub record Timer : Type 0 where
  pub timerid : ℕ
  pub repeat_sec : ℕ
  pub ev_timer : ℕ

-- `Timer::Repeat`.
abbrev pub repeats : Timer → Bool
repeats t = ltb 0 t.repeat_sec

pub record EpollServer : Type 0 where
  pub eventfd : ℕ
  pub channel_map : List (ℕ × Channel)
  pub timer_map : List (ℕ × Timer)
  pub connector_list : List Connector
  pub mq : MessageQueue
  pub calls : List Call

abbrev pub call : EpollServer → List Call → EpollServer
call s cs = record s { calls = s.calls ++ cs }

-- `AddEvent` and `UpdateEvent`.
abbrev pub add_event : EpollServer → ℕ → ℕ → Bool → EpollServer
add_event s watcher fd events = call s (io_set watcher fd events ∷ (io_start watcher ∷ []))

unfoldable pub update_watcher : EpollServer → ℕ → Bool → Option ℕ → EpollServer
update_watcher s fd events none = s
update_watcher s fd events (some watcher) =
    call s (io_stop watcher ∷ (io_set watcher fd events ∷ (io_start watcher ∷ [])))

abbrev pub update_event : EpollServer → ℕ → Bool → Channel → EpollServer
update_event s fd events channel = update_watcher s fd events channel.io_watcher

-- `RemoveEvent`.
unfoldable pub remove_watcher : EpollServer → Option ℕ → EpollServer
remove_watcher s none = s
remove_watcher s (some watcher) = call s (io_stop watcher ∷ [])

abbrev pub remove_event : EpollServer → ℕ → Channel → EpollServer
remove_event s fd channel = remove_watcher s channel.io_watcher

-- `GetChannel`.
abbrev pub get_channel : EpollServer → ℕ → Option Channel
get_channel s fd = Dict.find fd s.channel_map

-- `AddChannel`: a channel that is there stays.
abbrev pub add_channel : EpollServer → ℕ → ℕ → FdType → EpollServer
add_channel s watcher fd fdtype = record s {
  channel_map = Dict.insert fd (new_channel fd (some watcher) fdtype) s.channel_map;
}

-- `GetConnector`: the first connector with the descriptor.
unfoldable pub find_connector : ℕ → List Connector → Option Connector
find_connector fd [] = none
find_connector fd (c ∷ cs) = if c.channel.fd == fd then some c else find_connector fd cs

-- `GetUserfulConnector`: the first connected one.
unfoldable pub userful_connector : List Connector → Option Connector
userful_connector [] = none
userful_connector (c ∷ cs) = if c.success then some c else userful_connector cs

-- What a pointer to the first connector that satisfies a test changes.
unfoldable pub update_connector :
    (Connector → Bool) → (Connector → Connector) → List Connector → List Connector
update_connector test change [] = []
update_connector test change (c ∷ cs) =
    if test c then change c ∷ cs else c ∷ update_connector test change cs

abbrev pub has_fd : ℕ → Connector → Bool
has_fd fd c = c.channel.fd == fd

abbrev pub with_channel : Channel → Connector → Connector
with_channel channel c = record c { channel = channel }

-- The channel that `OnRead` and `OnWrite` look up, and that channel changed in place.
abbrev pub channel_at : EpollServer → FdType → ℕ → Option Channel
channel_at s fd_type_server fd = get_channel s fd
channel_at s fd_type_connect fd = do c ← find_connector fd s.connector_list; some c.channel

abbrev pub set_channel_at : EpollServer → FdType → ℕ → Channel → EpollServer
set_channel_at s fd_type_server fd channel = record s {
  channel_map = Dict.update fd channel s.channel_map;
}
set_channel_at s fd_type_connect fd channel = record s {
  connector_list = update_connector (has_fd fd) (with_channel channel) s.connector_list;
}

-- `GetFdFromUniqid` and `GetUniqidFromFd`: casts between `int` and `uint32_t`.
abbrev pub fd_from_uniqid : ℕ → ℕ
fd_from_uniqid uniqid = uniqid

abbrev pub uniqid_from_fd : ℕ → ℕ
uniqid_from_fd fd = fd

-- The branch of `OnFdClosed` on what `find` gives; deleting the channel closes its descriptor.
unfoldable pub drop_channel : EpollServer → ℕ → Option Channel → EpollServer
drop_channel s fd none = s
drop_channel s fd (some channel) =
    call (record s { channel_map = Dict.erase fd s.channel_map }) (close_fd channel.fd ∷ [])

unfoldable pub drop_connector : EpollServer → ℕ → Option Connector → EpollServer
drop_connector s fd none = s
drop_connector s fd (some connector) = record (call s (close_fd fd ∷ [])) {
  connector_list =
      update_connector (has_fd fd) (λ c. set_fd (set_success c false) 0) s.connector_list;
}

-- `OnFdClosed`.
unfoldable pub on_fd_closed : EpollServer → ℕ → FdType → EpollServer
unfolding drop_channel drop_connector
on_fd_closed s fd fd_type_server =
    let s' = drop_channel s fd (get_channel s fd) in
    record s' { mq = mq2s_push_close s'.mq (uniqid_from_fd fd) }
on_fd_closed s fd fd_type_connect = drop_connector s fd (find_connector fd s.connector_list)

-- An `int` pattern below 0.
abbrev pub is_negative : ℕ → Bool
is_negative w = leb (2 ^ 31) w

-- `OnAccept`, given what `accept` and `malloc` return. A failed `accept` is only logged: its descriptor -1
-- then goes to `ev_io_start`, whose descriptor is not to be negative, so that the rest is `none`.
unfoldable pub on_accept : EpollServer → ℕ → Option ℕ → Option EpollServer
on_accept s conn_fd none = some s
on_accept s conn_fd (some watcher) =
    if is_negative conn_fd
    then none
    else some (add_channel (add_event s watcher conn_fd false) watcher conn_fd fd_type_server)
