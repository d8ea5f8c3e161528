-- ===== src/Startup/Waking.antt =====
-- The push of a worker, with the wake-up that it sends through the singleton of the socket thread: what it
-- does while that thread starts.
use pluto_server.Prelude.{
  ℕ, ◌+◌, ◌^◌, ◌<◌, ◌≡◌, refl, ap, ◌∙◌, arith, List, [], Option, none, some, ◌>>=◌, length,
}
use pluto_server.Prelude.Memory.{Allocator, IsAllocator}
use pluto_server.Package.{new_package}
use pluto_server.Package.RoundTrip.{message, set_msg-message}
use pluto_server.MessageQueue.{MessageQueue, mq2c_push, push_mq2c, pack}
use pluto_server.Util.{mq_type_pack}
use pluto_server.Epoll.{EpollServer}
use pluto_server.Singleton.{construct, get_singleton}
use pluto_server.Startup.{Opened, init_eventfd, init_timer, start_server}

-- `EpollServer::EpollServer`.
abbrev pub new_epoll_server : MessageQueue → EpollServer
new_epoll_server mq = record {
  eventfd = 0;
  channel_map = [];
  timer_map = [];
  connector_list = [];
  mq = mq;
  calls = [];
}

-- The descriptor that a push writes its wake-up to: `EpollServer::getSingleton().Eventfd()`.
unfoldable pub eventfd_of : Option EpollServer → Option ℕ
eventfd_of singleton = do s ← get_singleton singleton; some s.eventfd

-- `MQ2C_Push` with the descriptor that it writes to.
unfoldable pub push_and_wake :
    Allocator → Option EpollServer → MessageQueue → ℕ → ℕ → ℕ → List ℕ → Option (MessageQueue × ℕ)
push_and_wake heap singleton q uniqid command_id sub_id text = do
  q' ← mq2c_push heap q uniqid command_id sub_id text
  fd ← eventfd_of singleton
  some (q', fd)

-- The queues with the message of a push.
abbrev pub with_answer : MessageQueue → ℕ → ℕ → ℕ → List ℕ → ℕ → MessageQueue
with_answer q uniqid command_id sub_id text spare = push_mq2c q (record {
  uniqid = some uniqid;
  payload = pack (message command_id sub_id text spare);
  kind = mq_type_pack;
})

start_server-eventfd :
    (s s' : EpollServer) (o : Opened) → start_server s o ≡ some s' → s'.eventfd ≡ o.eventfd
unfolding start_server init_eventfd init_timer
start_server-eventfd s s' o e = ground (arith, e)

push_and_wake_queues :
    {heap : Allocator}
    → IsAllocator heap
    → (q : MessageQueue) (uniqid command_id sub_id : ℕ) (text : List ℕ) → 9 + length text < 2 ^ 32
    → (spare : ℕ) × ((singleton : Option EpollServer)
        → push_and_wake heap singleton q uniqid command_id sub_id text ≡ (
            eventfd_of singleton >>= λ fd.
            some (with_answer q uniqid command_id sub_id text spare, fd)))
unfolding push_and_wake mq2c_push
push_and_wake_queues good q uniqid command_id sub_id text h =
    let (spare, e) = set_msg-message good (new_package 0) command_id sub_id text h in
    (spare, λ singleton. rw e refl)

-- A worker pushes a text that fits while the socket thread starts. Before that thread has made its
-- `EpollServer` the push fails an assertion; from then until `InitEventfd` it queues its message and writes the
-- wake-up to descriptor 0; and once the server has started, to the eventfd of the server.
pub push_and_wake_early :
    {heap : Allocator}
    → IsAllocator heap
    → (q : MessageQueue) (uniqid command_id sub_id : ℕ) (text : List ℕ) (o : Opened)
      (s : EpollServer)
    → 9 + length text < 2 ^ 32
    → start_server (new_epoll_server q) o ≡ some s
    → (push_and_wake heap none q uniqid command_id sub_id text ≡ none)
      × ((spare : ℕ) × ((construct none (new_epoll_server q) >>= λ made.
              push_and_wake heap made q uniqid command_id sub_id text)
            ≡ some (with_answer q uniqid command_id sub_id text spare, 0))
          × (push_and_wake heap (some s) q uniqid command_id sub_id text
              ≡ some (with_answer q uniqid command_id sub_id text spare, o.eventfd)))
unfolding eventfd_of construct get_singleton
push_and_wake_early good q uniqid command_id sub_id text o s h starts =
    let (spare, any) = push_and_wake_queues good q uniqid command_id sub_id text h in
    (
      any none,
      (
        spare,
        any (some (new_epoll_server q)),
        any (some s)
            ∙ ap (λ (n : ℕ). some (with_answer q uniqid command_id sub_id text spare, n))
                (start_server-eventfd (new_epoll_server q) s o starts),
      ),
    )
