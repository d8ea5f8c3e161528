-- ===== src/Epoll/Sound/Sending.antt =====
-- The messages of the workers, carried out in the room that all outputs have.
use pluto_server.Prelude.{
  ℕ, ◌+◌, ◌≤◌, ◌≡◌, refl, ◌∙◌, arith, true, List, [], ◌∷◌, some, Option-cases, inl, inr,
  length-take, bind_some, All, ltb,
}
use mathlib.Core.Path.{subst}
use pluto_server.Prelude.Memory.{Allocator, IsAllocator}
use pluto_server.Buffer.{Buffer}
use pluto_server.Buffer.Queue.{write-Wrote}
use pluto_server.Channel.{Channel}
use pluto_server.Package.{Package, total_length, get_buffer}
use pluto_server.MessageQueue.{Message, Payload, timer}
use pluto_server.MessageQueue.Typed.{to_client, to_connector, to_timer, to_all}
use pluto_server.Util.{fd_type_server, mq_type_timer}
use pluto_server.Epoll.{
  EpollServer, get_channel, set_channel_at, update_watcher, userful_connector, update_connector,
  with_channel,
}
use pluto_server.Epoll.Lookup.{update_watcher-channel_map, update_watcher-connector_list}
use pluto_server.Epoll.Every.{
  Every, OfBuffers, Every-weaken, Every-channel_at, Every-userful, set_userful-Every,
  set_channel_at-Every, same-Every,
}
use pluto_server.Epoll.Eventfd.{
  append_package, send_pack, send_broadcast, send_connector, start_timer, on_message, on_eventfd,
}
use pluto_server.Epoll.Eventfd.Drain.{carry_out, on_eventfd-carry_out, Keeps-result}
use pluto_server.Epoll.Sound.{Sound}
use pluto_server.Epoll.Sound.Load.{IsHeld, HoldsPackages, Sendable, spread, load_of, load_of_all}

-- More room is enough for less.
less_room :
    (s : EpollServer) (m n : ℕ)
    → n ≤ m
    → Every (OfBuffers (Sound m)) s
    → Every (OfBuffers (Sound n)) s
less_room s m n h v =
    Every-weaken (OfBuffers (Sound m)) (OfBuffers (Sound n)) s
      (λ c (valid_in, valid_out, fits). (valid_in, valid_out, omega arith)) v

start_timer-Every :
    {P : Channel → Type 0} (s : EpollServer) (watcher timerid delay repeat_sec : ℕ)
    → Every P s
    → (s' : EpollServer) × (start_timer s watcher
          (record { timerid = timerid; delay = some delay; repeat_sec = some repeat_sec })
        ≡ some s')
      × Every P s'
unfolding start_timer
start_timer-Every s watcher timerid delay repeat_sec v = (_, refl, same-Every s _ refl refl v)

module _ {heap : Allocator} (good : IsAllocator heap) where
  append_package-Sound :
      (c : Channel) (p : Package) (n : ℕ)
      → IsHeld p
      → OfBuffers (Sound (total_length p + n)) c
      → (b : Buffer) × (append_package heap c p ≡ some (record c { out_buf = b }))
        × OfBuffers (Sound n) (record c { out_buf = b })
  unfolding append_package
  append_package-Sound c p n held (valid_in, valid_out, fits) =
      let (b, writes, wrote) =
        write-Wrote good c.out_buf (get_buffer p) (total_length p) valid_out held (omega arith) in
      (
        b,
        bind_some writes _ refl,
        (
          valid_in,
          wrote.valid,
          omega (arith, wrote.offset, length-take (total_length p) (get_buffer p)),
        ),
      )

  send_pack-Sound :
      (s : EpollServer) (fd : ℕ) (p : Package) (n : ℕ)
      → IsHeld p
      → Every (OfBuffers (Sound (total_length p + n))) s
      → (s' : EpollServer) × (send_pack heap s fd p ≡ some s') × Every (OfBuffers (Sound n)) s'
  unfolding send_pack
  send_pack-Sound s fd p n held v = elim (Option-cases (get_channel s fd)) [
    | inl missing ↦
        (s, rw (missing, send_pack) refl, less_room s (total_length p + n) n (omega arith) v)
    | inr (c, there) ↦
        let (b, appends, ok) =
          append_package-Sound c p n held (Every-channel_at s fd_type_server fd c v there) in
        let after : Channel = record c { out_buf = b } in
        let set = set_channel_at s fd_type_server fd after in
        (
          update_watcher set fd (ltb 0 b.write_offset) c.io_watcher,
          rw (there, send_pack) (bind_some appends _ refl),
          same-Every set _ (update_watcher-channel_map set _ _ _)
              (update_watcher-connector_list set _ _ _)
              (set_channel_at-Every s fd_type_server fd after
                (less_room s (total_length p + n) n (omega arith) v) ok),
        )
  ]

  send_broadcast-Sound :
      (s : EpollServer) (uniqids : List ℕ) (p : Package) (n : ℕ)
      → IsHeld p
      → Every (OfBuffers (Sound (spread uniqids (total_length p) + n))) s
      → (s' : EpollServer) × (send_broadcast heap s uniqids p ≡ some s')
        × Every (OfBuffers (Sound n)) s'
  unfolding send_broadcast
  send_broadcast-Sound s [] p n held v = (s, refl, less_room s (0 + n) n (omega arith) v)
  send_broadcast-Sound s (uniqid ∷ uniqids) p n held v =
      let each = spread uniqids (total_length p) in
      let (s1, sends, v1) =
        send_pack-Sound s uniqid p (each + n) held
          (less_room s (total_length p + each + n) (total_length p + (each + n)) (omega arith) v) in
      let (s2, rest, v2) = send_broadcast-Sound s1 uniqids p n held v1 in
      (s2, bind_some sends _ rest, v2)

  send_connector-Sound :
      (s : EpollServer) (p : Package) (n : ℕ)
      → IsHeld p
      → Every (OfBuffers (Sound (total_length p + n))) s
      → (s' : EpollServer) × (send_connector heap s p ≡ some s') × Every (OfBuffers (Sound n)) s'
  unfolding send_connector
  send_connector-Sound s p n held v = elim (Option-cases (userful_connector s.connector_list)) [
    | inl missing ↦
        (s, rw (missing, send_connector) refl, less_room s (total_length p + n) n (omega arith) v)
    | inr (k, there) ↦
        let (b, appends, ok) =
          append_package-Sound k.channel p n held (Every-userful s k v there) in
        let after : Channel = record k.channel { out_buf = b } in
        let set : EpollServer = record s {
          connector_list = update_connector (λ c. c.success) (with_channel after) s.connector_list;
        } in
        (
          update_watcher set k.channel.fd (ltb 0 b.write_offset) k.channel.io_watcher,
          rw (there, send_connector) (bind_some appends _ refl),
          same-Every set _ (update_watcher-channel_map set _ _ _)
              (update_watcher-connector_list set _ _ _)
              (set_userful-Every s after (less_room s (total_length p + n) n (omega arith) v) ok),
        )
  ]

  module _ (watcher_of : ℕ → ℕ) where
    timer_message :
        (s : EpollServer) (m : Message) (timerid delay repeat_sec : ℕ)
        → m.kind ≡ mq_type_timer
        → m.payload
          ≡ timer (record { timerid = timerid; delay = some delay; repeat_sec = some repeat_sec })
        → on_message heap watcher_of s m
          ≡ start_timer s
              (watcher_of timerid)
              (record { timerid = timerid; delay = some delay; repeat_sec = some repeat_sec })
    unfolding on_message
    timer_message s m timerid delay repeat_sec k e = rw (k, e) refl

    on_message-Sound :
        (s : EpollServer) (m : Message) (n : ℕ)
        → Sendable m
        → Every (OfBuffers (Sound (load_of m.payload + n))) s
        → (s' : EpollServer) × (on_message heap watcher_of s m ≡ some s')
          × Every (OfBuffers (Sound n)) s'
    unfolding on_message
    on_message-Sound s m n (to_client uniqid p k u e, held) v =
        let (s', sends, v') =
          send_pack-Sound s uniqid p n (subst HoldsPackages e held)
            (subst (λ (x : Payload). Every (OfBuffers (Sound (load_of x + n))) s) e v) in
        (s', rw (k, u, e) sends, v')
    on_message-Sound s m n (to_connector p k e, held) v =
        let (s', sends, v') =
          send_connector-Sound s p n (subst HoldsPackages e held)
            (subst (λ (x : Payload). Every (OfBuffers (Sound (load_of x + n))) s) e v) in
        (s', rw (k, e) sends, v')
    on_message-Sound s m n (to_all b k e, held) v =
        let (s', sends, v') =
          send_broadcast-Sound s b.uniqids b.pack n (subst HoldsPackages e held)
            (subst (λ (x : Payload). Every (OfBuffers (Sound (load_of x + n))) s) e v) in
        (s', rw (k, e) sends, v')
    on_message-Sound s m n (to_timer timerid delay repeat_sec k e, held) v =
        let (s', starts, v') =
          start_timer-Every s (watcher_of timerid) timerid delay repeat_sec
            (less_room s (load_of m.payload + n) n (omega arith) v) in
        (s', timer_message s m timerid delay repeat_sec k e ∙ starts, v')

    carry_out-Sound :
        (s : EpollServer) (ms : List Message)
        → All Sendable ms
        → Every (OfBuffers (Sound (load_of_all ms))) s
        → (s' : EpollServer) × (carry_out heap watcher_of s ms ≡ some s')
          × Every (OfBuffers (Sound 0)) s'
    unfolding carry_out
    carry_out-Sound s [] ok v = (s, refl, v)
    carry_out-Sound s (m ∷ ms) ok v =
        let next : EpollServer = record s { mq = record s.mq { mq2c = ms } } in
        let (s1, done, v1) =
          on_message-Sound next m (load_of_all ms) ok.0 (same-Every s next refl refl v) in
        let (s2, rest, v2) = carry_out-Sound s1 ms ok.1 v1 in (s2, bind_some done _ rest, v2)

    -- `OnEventfd` while every output has room for all that waits: it does not fault, all buffers stay
    -- valid, and nothing waits for the event loop.
    pub on_eventfd-Sound :
        (s : EpollServer)
        → All Sendable s.mq.mq2c
        → Every (OfBuffers (Sound (load_of_all s.mq.mq2c))) s
        → (s' : EpollServer) × (on_eventfd heap watcher_of s true ≡ some s')
          × Every (OfBuffers (Sound 0)) s'
          × (s'.mq ≡ record s.mq { mq2c = [] })
    on_eventfd-Sound s ok v =
        let (all, keeps) = on_eventfd-carry_out heap watcher_of s in
        let (s', done, v') = carry_out-Sound s s.mq.mq2c ok v in
        (s', all ∙ done, v', Keeps-result (record s.mq { mq2c = [] }) _ s' keeps (all ∙ done))
