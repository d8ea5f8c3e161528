-- ===== src/System.antt =====
-- The whole game server at work: the callbacks of its event loop (common/epoll_server.cpp), the rounds of
-- its workers (gameserver/game_worker.cpp) and the functions that their scripts call
-- (gameserver/game_py2cpp.cpp), in any order. A callback runs on the socket thread alone, and each access
-- to the queues holds a lock, so that one of these is one step. `none` is undefined behaviour.
pub mod Messages
pub mod Callbacks
pub mod Safety
pub mod Query
use pluto_server.Prelude.{ℕ, Bool, List, [], ◌∷◌, Option, none, some, ◌>>=◌}
use pluto_server.Prelude.Memory.{Allocator}
use pluto_server.MessageQueue.{MessageQueue, mq2s_pop}
use pluto_server.Epoll.{EpollServer}
use pluto_server.Epoll.Read.{Received}
use pluto_server.Epoll.Write.{Sent}
use pluto_server.Epoll.Connect.{Attempt}
use pluto_server.Epoll.Callbacks.{
  Events, r_w_cb, connector_cb, eventfd_cb, accept_cb, timeout_cb, init_timeout_cb,
}
use pluto_server.GameWorker.{GameWorker, Native, handle_message, run_native}

-- The queues are those of the event loop. `worker` holds the calls that all workers have made.
pub record GameServer : Type 0 where
  pub server : EpollServer
  pub worker : GameWorker

-- What happens next, with what the system calls made by it will give: a callback of libev; a worker that
-- takes a message; or a function called by a script.
pub data Input : Type 0 where
  accepts : Events → ℕ → Option ℕ → Input
  clients connectors : ℕ → Events → Received → (ℕ → List ℕ → Sent) → Input
  wakes : Events → Bool → Input
  fires : ℕ → Input
  ticks : (ℕ → Attempt) → Input
  takes : Input
  calls_back : Native → Input

-- The event loop of the server after a callback.
abbrev pub with_server : GameServer → EpollServer → GameServer
with_server g s = record g { server = s }

abbrev pub with_queue : GameServer → MessageQueue → GameServer
with_queue g q = record g { server = record g.server { mq = q } }

module _ (heap : Allocator) where
  -- A worker takes the oldest message and calls its script; with no message it waits.
  unfoldable pub take_message : GameServer → Option GameServer
  take_message g = elim (mq2s_pop g.server.mq) [
    | none ↦ some g
    | some (m, q) ↦ (do
      (w, q') ← handle_message heap g.worker q m []
      some (record (with_queue g q') { worker = w }))
  ]

module _ (heap : Allocator) (watcher_of : ℕ → ℕ) where
  unfoldable pub step : GameServer → Input → Option GameServer
  step g (accepts ev conn_fd watcher) = do
    s ← accept_cb g.server ev conn_fd watcher
    some (with_server g s)
  step g (clients fd ev received send) = do
    s ← r_w_cb heap g.server fd ev received send
    some (with_server g s)
  step g (connectors fd ev received send) = do
    s ← connector_cb heap g.server fd ev received send
    some (with_server g s)
  step g (wakes ev ready) = do
    s ← eventfd_cb heap watcher_of g.server ev ready
    some (with_server g s)
  step g (fires watcher) = some (with_server g (timeout_cb g.server watcher))
  step g (ticks attempt) = some (with_server g (init_timeout_cb g.server attempt))
  step g takes = take_message heap g
  step g (calls_back n) = do r ← run_native heap g.server.mq n; some (with_queue g r.queue)

  unfoldable pub run : GameServer → List Input → Option GameServer
  run g [] = some g
  run g (i ∷ is) = do g' ← step g i; run g' is
