-- ===== src/Epoll/Eventfd/Drain.antt =====
-- The loop of `OnEventfd` over the messages of the workers.
use mathlib.Core.Path.{subst}
use pluto_server.Prelude.{
  ℕ, zero, suc, ◌<◌, ◌≡◌, refl, sym, ap, ◌∙◌, arith, true, List, [], ◌∷◌, Option, none, some, ◌==◌,
  ◌>>=◌, length, some_inj, Option-cases, inl, inr, Bool-cases,
}
use pluto_server.Prelude.Memory.{Allocator}
use pluto_server.MessageQueue.{
  Message, MessageQueue, mq2c_pop, as_pack, as_timer, as_broad, TimerStruct,
}
use pluto_server.Util.{mq_type_pack, mq_type_timer, mq_type_connect, mq_type_broadcast}
use pluto_server.Package.{Package}
use pluto_server.Epoll.{EpollServer, get_channel, userful_connector}
use pluto_server.Epoll.Lookup.{update_watcher-mq}
use pluto_server.Epoll.Eventfd.{
  append_package, send_pack, send_broadcast, send_connector, start_timer, on_message, message_while,
  on_eventfd,
}

-- A result, if it is not a fault, has the given queues.
pub Keeps : MessageQueue → Option EpollServer → Type 0
Keeps q none = Unit {0}
Keeps q (some s) = s.mq ≡ q

Keeps-bind :
    {A : Type 0} (q : MessageQueue) (r : Option A) (f : A → Option EpollServer)
    → ((a : A) → Keeps q (f a))
    → Keeps q (r >>= f)
unfolding Keeps
Keeps-bind q none f h = tt
Keeps-bind q (some a) f h = h a

pub Keeps-result :
    (q : MessageQueue) (r : Option EpollServer) (s : EpollServer)
    → Keeps q r
    → r ≡ some s
    → s.mq ≡ q
unfolding Keeps
Keeps-result q none s k e = cc
Keeps-result q (some s') s k e = sym (ap (λ (x : EpollServer). x.mq) (some_inj e)) ∙ k

-- Sending and starting timers leave the queues alone, whatever they do otherwise.
send_pack-Keeps :
    (heap : Allocator) (s : EpollServer) (uniqid : ℕ) (p : Package)
    → Keeps s.mq (send_pack heap s uniqid p)
unfolding send_pack Keeps
send_pack-Keeps heap s uniqid p = elim (Option-cases (get_channel s uniqid)) [
  | inl e ↦ rw (e, send_pack) refl
  | inr (c, e) ↦
      rw (e, send_pack)
        (Keeps-bind s.mq (append_package heap c p) _ (λ c'. update_watcher-mq _ _ _ _))
]

send_broadcast-Keeps :
    (heap : Allocator) (s : EpollServer) (q : MessageQueue) (uniqids : List ℕ) (p : Package)
    → s.mq ≡ q
    → Keeps q (send_broadcast heap s uniqids p)
unfolding send_broadcast Keeps
send_broadcast-Keeps heap s q [] p e = e
send_broadcast-Keeps heap s q (uniqid ∷ uniqids) p e =
    elim (Option-cases (send_pack heap s uniqid p)) [
      | inl fault ↦ rw fault tt
      | inr (s', sent) ↦ rw sent (
          send_broadcast-Keeps heap s' q uniqids p
            (Keeps-result s.mq _ s' (send_pack-Keeps heap s uniqid p) sent ∙ e))
    ]

send_connector-Keeps :
    (heap : Allocator) (s : EpollServer) (p : Package) → Keeps s.mq (send_connector heap s p)
unfolding send_connector Keeps
send_connector-Keeps heap s p = elim (Option-cases (userful_connector s.connector_list)) [
  | inl e ↦ rw (e, send_connector) refl
  | inr (k, e) ↦
      rw (e, send_connector)
        (Keeps-bind s.mq (append_package heap k.channel p) _ (λ c'. update_watcher-mq _ _ _ _))
]

start_timer-Keeps :
    (s : EpollServer) (watcher : ℕ) (t : TimerStruct) → Keeps s.mq (start_timer s watcher t)
unfolding start_timer Keeps
start_timer-Keeps s watcher t =
    Keeps-bind s.mq t.delay _ (λ d. Keeps-bind s.mq t.repeat_sec _ (λ r. refl))

on_message-Keeps :
    (heap : Allocator) (watcher_of : ℕ → ℕ) (s : EpollServer) (m : Message)
    → Keeps s.mq (on_message heap watcher_of s m)
unfolding on_message Keeps
on_message-Keeps heap watcher_of s m = elim (Bool-cases (m.kind == mq_type_pack)) [
  | inl e ↦ rw e (
      Keeps-bind s.mq m.uniqid _
        (λ u. Keeps-bind s.mq (as_pack m.payload) _ (λ p. send_pack-Keeps heap s u p)))
  | inr e ↦ rw e (elim (Bool-cases (m.kind == mq_type_broadcast)) [
    | inl e1 ↦ rw e1 (
        Keeps-bind s.mq (as_broad m.payload) _
          (λ b. send_broadcast-Keeps heap s s.mq b.uniqids b.pack refl))
    | inr e1 ↦ rw e1 (elim (Bool-cases (m.kind == mq_type_timer)) [
      | inl e2 ↦ rw e2 (
          Keeps-bind s.mq (as_timer m.payload) _
            (λ t. start_timer-Keeps s (watcher_of t.timerid) t))
      | inr e2 ↦ rw e2 (elim (Bool-cases (m.kind == mq_type_connect)) [
        | inl e3 ↦
            rw e3 (Keeps-bind s.mq (as_pack m.payload) _ (λ p. send_connector-Keeps heap s p))
        | inr e3 ↦ rw e3 refl
      ])
    ])
  ])
]

-- The messages carried out one after the other, in order, each with the later ones still queued.
unfoldable pub carry_out : Allocator → (ℕ → ℕ) → EpollServer → List Message → Option EpollServer
carry_out heap watcher_of s [] = some s
carry_out heap watcher_of s (m ∷ ms) = do
  s' ← on_message heap watcher_of (record s { mq = record s.mq { mq2c = ms } }) m
  carry_out heap watcher_of s' ms

module _ (heap : Allocator) (watcher_of : ℕ → ℕ) where
  message_while-carry_out :
      (fuel : ℕ) (s : EpollServer) (ms : List Message)
      → s.mq.mq2c ≡ ms
      → length ms < fuel
      → message_while heap watcher_of fuel s ≡ carry_out heap watcher_of s ms
  unfolding message_while carry_out mq2c_pop
  message_while-carry_out zero s ms e h = elim h [ ]
  message_while-carry_out (suc fuel) s [] e h = rw e refl
  message_while-carry_out (suc fuel) s (m ∷ ms) e h =
      let next : EpollServer = record s { mq = record s.mq { mq2c = ms } } in
      elim (Option-cases (on_message heap watcher_of next m)) [
        | inl fault ↦ rw (e, fault) refl
        | inr (s', done) ↦
            rw (e, done)
              (message_while-carry_out fuel s' ms
                (ap (λ (q : MessageQueue). q.mq2c)
                  (Keeps-result next.mq _ s' (on_message-Keeps heap watcher_of next m) done))
                (omega arith))
      ]

  carry_out-Keeps :
      (s : EpollServer) (ms : List Message)
      → s.mq.mq2c ≡ ms
      → Keeps (record s.mq { mq2c = [] }) (carry_out heap watcher_of s ms)
  unfolding carry_out Keeps
  carry_out-Keeps s [] e = ap (λ (ms : List Message). record s.mq { mq2c = ms }) e
  carry_out-Keeps s (m ∷ ms) e =
      let next : EpollServer = record s { mq = record s.mq { mq2c = ms } } in
      elim (Option-cases (on_message heap watcher_of next m)) [
        | inl fault ↦ rw fault tt
        | inr (s', done) ↦
            let same : s'.mq ≡ next.mq =
              Keeps-result next.mq _ s' (on_message-Keeps heap watcher_of next m) done in
            rw done (
              subst (λ q. Keeps q (carry_out heap watcher_of s' ms))
                (ap (λ (q : MessageQueue). record q { mq2c = [] }) same)
                (carry_out-Keeps s' ms (ap (λ (q : MessageQueue). q.mq2c) same)))
      ]

  -- Once the eventfd was read, `OnEventfd` carries out all messages that were queued, in their order and
  -- with no others; the fuel never runs out; and if none of them faults, the workers' queue is then
  -- empty and the rest of the queues as it was.
  pub on_eventfd-carry_out :
      (s : EpollServer)
      → (on_eventfd heap watcher_of s true ≡ carry_out heap watcher_of s s.mq.mq2c)
        × Keeps (record s.mq { mq2c = [] }) (on_eventfd heap watcher_of s true)
  unfolding on_eventfd
  on_eventfd-carry_out s =
      let all = message_while-carry_out (suc (length s.mq.mq2c)) s s.mq.mq2c refl (omega arith) in
      (all, rw all (carry_out-Keeps s s.mq.mq2c refl))
