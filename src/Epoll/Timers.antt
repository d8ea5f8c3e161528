-- ===== src/Epoll/Timers.antt =====
-- `EpollServer::OnTimer`: a watcher of libev has fired.
pub mod Registry
use pluto_server.Prelude.{ℕ, List, [], ◌∷◌, Option, none, some, ◌==◌, if◌then◌else◌}
use pluto_server.Prelude.Dict
use pluto_server.MessageQueue.{mq2s_push_timer}
use pluto_server.Epoll.{EpollServer, Timer, repeats}

-- The search through `timer_map_` for the timer of a watcher.
unfoldable pub timer_of : ℕ → List (ℕ × Timer) → Option Timer
timer_of watcher [] = none
timer_of watcher ((key, t) ∷ m) = if t.ev_timer == watcher then some t else timer_of watcher m

-- The rest of `OnTimer`; an unknown watcher is only logged.
unfoldable pub fire : EpollServer → Option Timer → EpollServer
fire s none = s
fire s (some t) =
    let s' = record s { mq = mq2s_push_timer s.mq t.timerid } in
    if repeats t then s' else record s' { timer_map = Dict.erase t.timerid s'.timer_map }

unfoldable pub on_timer : EpollServer → ℕ → EpollServer
unfolding fire
on_timer s watcher = fire s (timer_of watcher s.timer_map)
