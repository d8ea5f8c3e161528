-- ===== src/Epoll/Callbacks.antt =====
-- The callbacks of `EpollServer` that libev calls, and histories of them.
pub mod Closing
pub mod Histories
use pluto_server.Prelude.{
  ℕ, Bool, true, false, List, [], ◌∷◌, Option, none, some, if◌then◌else◌, ◌>>=◌,
}
use pluto_server.Prelude.Memory.{Allocator}
use pluto_server.MessageQueue.{mq2s_push_tick}
use pluto_server.Util.{FdType, fd_type_server, fd_type_connect}
use pluto_server.Epoll.{EpollServer, on_accept}
use pluto_server.Epoll.Read.{Received, on_read}
use pluto_server.Epoll.Write.{Sent, on_write}
use pluto_server.Epoll.Eventfd.{on_eventfd}
use pluto_server.Epoll.Timers.{on_timer}
use pluto_server.Epoll.Connect.{Attempt, on_try_connect}

-- `revents`.
pub record Events : Type 0 where
  pub error : Bool
  pub readable : Bool
  pub writable : Bool

module _ (heap : Allocator) where
  -- The readable and the writable half of a callback, in this order.
  unfoldable pub read_write :
      EpollServer → ℕ → FdType → Events → Received → (ℕ → List ℕ → Sent) → Option EpollServer
  read_write s fd fdtype ev received send = if ev.error then some s else (do
    s1 ← (if ev.readable then on_read heap s fd fdtype received else some s)
    (if ev.writable then on_write send s1 fd fdtype else some s1))

  -- `r_w_cb` and `connector_cb`.
  unfoldable pub r_w_cb :
      EpollServer → ℕ → Events → Received → (ℕ → List ℕ → Sent) → Option EpollServer
  r_w_cb s fd ev received send = read_write s fd fd_type_server ev received send

  unfoldable pub connector_cb :
      EpollServer → ℕ → Events → Received → (ℕ → List ℕ → Sent) → Option EpollServer
  connector_cb s fd ev received send = read_write s fd fd_type_connect ev received send

-- `eventfd_cb`, `accept_cb`, `timeout_cb` and `init_timeout_cb`.
unfoldable pub eventfd_cb : Allocator → (ℕ → ℕ) → EpollServer → Events → Bool → Option EpollServer
eventfd_cb heap watcher_of s ev ready =
    if ev.error then some s else on_eventfd heap watcher_of s ready

unfoldable pub accept_cb : EpollServer → Events → ℕ → Option ℕ → Option EpollServer
accept_cb s ev conn_fd watcher = if ev.error then some s else on_accept s conn_fd watcher

unfoldable pub timeout_cb : EpollServer → ℕ → EpollServer
timeout_cb s watcher = on_timer s watcher

unfoldable pub init_timeout_cb : EpollServer → (ℕ → Attempt) → EpollServer
init_timeout_cb s attempt =
    let s' = on_try_connect s attempt in record s' { mq = mq2s_push_tick s'.mq }
