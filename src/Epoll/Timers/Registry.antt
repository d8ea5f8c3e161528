-- ===== src/Epoll/Timers/Registry.antt =====
-- The map of running timers, between `OnEventfd`, which starts a timer, and `OnTimer`, which it fires.
use pluto_server.Prelude.{
  ℕ, ◌≡◌, refl, ◌∙◌, arith, [], ◌∷◌, ◌++◌, none, some, ◌==◌, ==_self, ltb, Bool-cases, inl, inr,
  if◌then◌else◌,
}
use pluto_server.Prelude.Dict
use pluto_server.MessageQueue.{Message, timer, mq2s_push_timer}
use pluto_server.Util.{mq_type_timer}
use pluto_server.Epoll.{EpollServer, Timer, repeats, call, timer_init, timer_start}
use pluto_server.Epoll.Eventfd.{start_timer}
use pluto_server.Epoll.Timers.{timer_of, fire, on_timer}

-- What `OnTimer` tells the workers.
abbrev pub fired : ℕ → Message
fired timerid = record {
  uniqid = none;
  payload = timer (record { timerid = timerid; delay = none; repeat_sec = none });
  kind = mq_type_timer;
}

-- Where key 1 of the map is taken, starting a timer leaves the map as it was; and if no registered
-- timer has the new timer's watcher, then its firing changes nothing and tells the workers nothing.
pub start_timer_lost :
    (s : EpollServer) (watcher delay repeat_sec timerid : ℕ) (present : Timer)
    → Dict.find 1 s.timer_map ≡ some present
    → timer_of watcher s.timer_map ≡ none
    → (s' : EpollServer) × (start_timer s watcher
          (record { timerid = timerid; delay = some delay; repeat_sec = some repeat_sec })
        ≡ some s')
      × (s'.timer_map ≡ s.timer_map)
      × (on_timer s' watcher ≡ s')
unfolding start_timer on_timer fire
start_timer_lost s watcher delay repeat_sec timerid present e h = (
  _,
  refl,
  Dict.insert_present 1 _ present s.timer_map e,
  rw
      (
        Dict.insert_present 1
            (record { timerid = timerid; repeat_sec = repeat_sec; ev_timer = watcher }) present
            s.timer_map e,
        h,
      )
      refl,
)

fire_told :
    (s : EpollServer) (t : Timer) → (fire s (some t)).mq.mq2s ≡ s.mq.mq2s ++ (fired t.timerid ∷ [])
unfolding fire mq2s_push_timer
fire_told s t = elim (Bool-cases (repeats t)) [ inl e ↦ rw e refl | inr e ↦ rw e refl ]

fire_kept :
    (s : EpollServer) (t : Timer)
    → (fire s (some t)).timer_map
      ≡ (if repeats t then s.timer_map else Dict.erase t.timerid s.timer_map)
unfolding fire mq2s_push_timer
fire_kept s t = elim (Bool-cases (repeats t)) [ inl e ↦ rw e refl | inr e ↦ rw e refl ]

-- A timer that is started while none is registered: when its watcher fires, the workers get one message
-- with its id, and it stays registered exactly if it repeats or its id is not 1.
pub start_timer-on_timer :
    (s : EpollServer) (watcher delay repeat_sec timerid : ℕ)
    → s.timer_map ≡ []
    → (s' : EpollServer) × (start_timer s watcher
          (record { timerid = timerid; delay = some delay; repeat_sec = some repeat_sec })
        ≡ some s')
      × ((on_timer s' watcher).mq.mq2s ≡ s.mq.mq2s ++ (fired timerid ∷ []))
      × ((on_timer s' watcher).timer_map ≡ (
          if ltb 0 repeat_sec then s'.timer_map else (if timerid == 1 then [] else s'.timer_map)))
unfolding start_timer on_timer timer_of Dict.insert Dict.erase
start_timer-on_timer s watcher delay repeat_sec timerid e =
    let entry : Timer = record { timerid = timerid; repeat_sec = repeat_sec; ev_timer = watcher } in
    let s' : EpollServer =
      call (record s { timer_map = Dict.insert 1 entry s.timer_map })
        (timer_init watcher delay repeat_sec ∷ (timer_start watcher ∷ [])) in
    let found : timer_of watcher s'.timer_map ≡ some entry = rw (e, ==_self watcher) refl in
    (s', refl, rw found (fire_told s' entry), rw found (fire_kept s' entry ∙ rw e (ground arith)))
