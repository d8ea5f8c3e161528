-- ===== src/Tests/Wakings.antt =====
-- A push while the socket thread starts, at concrete inputs.
use pluto_server.Prelude.{ℕ, ◌≡◌, refl, arith, true, false, [], ◌∷◌, none, some, ◌>>=◌}
use pluto_server.Prelude.Text.{codes}
use pluto_server.Prelude.Memory.{plain_heap, plain_heap-IsAllocator}
use pluto_server.MessageQueue.{new_message_queue}
use pluto_server.Epoll.{EpollServer, io_set, io_start, timer_init, timer_start}
use pluto_server.Singleton.{construct}
use pluto_server.Startup.{Opened, start_server, init_eventfd, init_timer}
use pluto_server.Startup.Waking.{new_epoll_server, with_answer, push_and_wake, push_and_wake_early}

abbrev opened : Opened
opened = record {
  socket = 3;
  binds = true;
  listens = true;
  eventfd = 4;
  accept_watcher = 800;
  eventfd_watcher = 801;
  timeout_watcher = 802;
}

abbrev started : EpollServer
started = record (new_epoll_server new_message_queue) {
  eventfd = 4;
  calls =
      io_set 800 3 false
      ∷ (io_start 800
          ∷ (io_set 801 4 false ∷ (io_start 801 ∷ (timer_init 802 1 1 ∷ (timer_start 802 ∷ [])))));
}

starts : start_server (new_epoll_server new_message_queue) opened ≡ some started
unfolding start_server init_eventfd init_timer
starts = refl

push_and_wake_early_example :
    (push_and_wake plain_heap none new_message_queue 5 1 2 (codes "hi") ≡ none)
    × ((spare : ℕ) × ((construct none (new_epoll_server new_message_queue) >>= λ made.
            push_and_wake plain_heap made new_message_queue 5 1 2 (codes "hi"))
          ≡ some (with_answer new_message_queue 5 1 2 (codes "hi") spare, 0))
        × (push_and_wake plain_heap (some started) new_message_queue 5 1 2 (codes "hi")
            ≡ some (with_answer new_message_queue 5 1 2 (codes "hi") spare, 4)))
push_and_wake_early_example =
    push_and_wake_early plain_heap-IsAllocator new_message_queue 5 1 2 (codes "hi") opened started
      (omega arith) starts
