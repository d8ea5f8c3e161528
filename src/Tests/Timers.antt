-- ===== src/Tests/Timers.antt =====
-- The timers and the connectors of epoll_server.cpp at concrete inputs.
use pluto_server.Prelude.{
  ◌≡◌, refl, true, List, [], ◌∷◌, ◌++◌, none, some, ltb, if◌then◌else◌, ◌==◌,
}
use pluto_server.Prelude.Dict
use pluto_server.Prelude.Text.{codes}
use pluto_server.Channel.{Connector, new_connector}
use pluto_server.Epoll.{EpollServer, Timer}
use pluto_server.Epoll.Eventfd.{start_timer}
use pluto_server.Epoll.Timers.{timer_of, on_timer}
use pluto_server.Epoll.Timers.Registry.{fired, start_timer_lost, start_timer-on_timer}
use pluto_server.Epoll.Connect.{try_all}
use pluto_server.Epoll.Connect.Retry.{AllRetried, try_all-AllRetried}
use pluto_server.Tests.Events.{server}

abbrev first_timer : Timer
first_timer = record { timerid = 1; repeat_sec = 5; ev_timer = 700 }

abbrev timed : EpollServer
timed = record server { timer_map = (1, first_timer) ∷ [] }

timer_there : Dict.find 1 timed.timer_map ≡ some first_timer
unfolding Dict.find
timer_there = refl

watcher_free : timer_of 701 timed.timer_map ≡ none
unfolding timer_of
watcher_free = refl

start_timer_lost_example :
    (s' : EpollServer) × (start_timer timed 701
        (record { timerid = 2; delay = some 3; repeat_sec = some 0 })
      ≡ some s')
    × (s'.timer_map ≡ timed.timer_map)
    × (on_timer s' 701 ≡ s')
start_timer_lost_example = start_timer_lost timed 701 3 0 2 first_timer timer_there watcher_free

start_timer-on_timer_example :
    (s' : EpollServer) × (start_timer server 700
        (record { timerid = 1; delay = some 3; repeat_sec = some 0 })
      ≡ some s')
    × ((on_timer s' 700).mq.mq2s ≡ server.mq.mq2s ++ (fired 1 ∷ []))
    × ((on_timer s' 700).timer_map
        ≡ (if ltb 0 0 then s'.timer_map else (if 1 == 1 then [] else s'.timer_map)))
start_timer-on_timer_example = start_timer-on_timer server 700 3 0 1 refl

abbrev peers : List Connector
peers = new_connector 0 (codes "10.0.0.1") 80 ∷ (new_connector 9 (codes "10.0.0.2") 81 ∷ [])

try_all-AllRetried_example :
    AllRetried peers
      (try_all (λ i. record { socket = 12; connected = true; watcher = some 800 }) 0 peers).0
try_all-AllRetried_example =
    try_all-AllRetried (λ i. record { socket = 12; connected = true; watcher = some 800 }) 0 peers
