-- ===== src/Epoll/Sound/Reading.antt =====
-- `OnRead` on any channel, of a client or of a connector, with any result of `netlib_recv`.
use mathlib.Core.Path.{subst}
use pluto_server.Prelude.{
  ℕ, ◌+◌, ◌≤◌, ◌≡◌, refl, sym, ap, ◌∙◌, arith, [], ◌∷◌, ◌++◌, Option, none, some, length,
}
use pluto_server.Prelude.Memory.{Allocator, IsAllocator}
use pluto_server.Buffer.{Buffer}
use pluto_server.Buffer.Extend.{IsValid, contents}
use pluto_server.Package.Frames.{frames}
use pluto_server.Channel.{Channel, Connector}
use pluto_server.MessageQueue.{MessageQueue, mq2s_push_close}
use pluto_server.Util.{FdType, fd_type_server, fd_type_connect, max_buf_size}
use pluto_server.Epoll.{
  EpollServer, channel_at, set_channel_at, remove_watcher, on_fd_closed, drop_channel,
  drop_connector, get_channel, find_connector,
}
use pluto_server.Epoll.Lookup.{remove_watcher-mq, channel_at_mq}
use pluto_server.Epoll.Every.{Every, OfBuffers, Every-channel_at, set_channel_at-Every, same-Every}
use pluto_server.Epoll.Every.Closing.{close_read-Every}
use pluto_server.Epoll.Read.{Received, bytes, failed, closed, on_read, read_channel}
use pluto_server.Epoll.Read.Deliver.{push_packages}
use pluto_server.Epoll.Read.Closing.{on_read_found}
use pluto_server.Epoll.Read.Safety.{roomy, on_read-Placed}
use pluto_server.Epoll.Read.Room.{make_free-HasRoom}
use pluto_server.Epoll.Sound.{Sound}

-- What a socket that has ended leaves in the queues.
abbrev pub ended : MessageQueue → FdType → ℕ → MessageQueue
ended q fd_type_server fd = mq2s_push_close q fd
ended q fd_type_connect fd = q

-- What `OnRead` leaves in the queues.
abbrev pub after_read : MessageQueue → FdType → ℕ → Channel → Received → MessageQueue
after_read q fdtype fd c (bytes (n ∷ more)) =
    push_packages q fdtype fd (frames (contents c.in_buf ++ (n ∷ more))).0
after_read q fdtype fd c other = ended q fdtype fd

-- As many bytes come as `OnRead` asks for, at most.
abbrev pub IsOffered : Received → Type 0
IsOffered (bytes news) = length news ≤ 1024
IsOffered _ = Unit {0}

drop_channel-mq :
    (s : EpollServer) (fd : ℕ) (found : Option Channel) → (drop_channel s fd found).mq ≡ s.mq
unfolding drop_channel
drop_channel-mq s fd none = refl
drop_channel-mq s fd (some c) = refl

drop_connector-mq :
    (s : EpollServer) (fd : ℕ) (found : Option Connector) → (drop_connector s fd found).mq ≡ s.mq
unfolding drop_connector
drop_connector-mq s fd none = refl
drop_connector-mq s fd (some c) = refl

on_fd_closed-mq :
    (s : EpollServer) (fdtype : FdType) (fd : ℕ)
    → (on_fd_closed s fd fdtype).mq ≡ ended s.mq fdtype fd
unfolding on_fd_closed
on_fd_closed-mq s fd_type_server fd =
    ap (λ (q : MessageQueue). mq2s_push_close q fd) (drop_channel-mq s fd (get_channel s fd))
on_fd_closed-mq s fd_type_connect fd = drop_connector-mq s fd (find_connector fd s.connector_list)

module _ {heap : Allocator} (good : IsAllocator heap) where
  ending-Every :
      (s : EpollServer) (fdtype : FdType) (fd : ℕ) (c : Channel)
      → Every (OfBuffers (Sound 0)) s
      → Sound 0 (roomy heap c).in_buf c.out_buf
      → Every (OfBuffers (Sound 0)) (
          on_fd_closed
            (remove_watcher (set_channel_at s fdtype fd (roomy heap c)) c.io_watcher)
            fd
            fdtype)
  ending-Every s fdtype fd c v ok =
      close_read-Every (Sound 0) (set_channel_at s fdtype fd (roomy heap c)) fdtype fd c.io_watcher
        (set_channel_at-Every s fdtype fd (roomy heap c) v ok)

  ending-mq :
      (s : EpollServer) (fdtype : FdType) (fd : ℕ) (c : Channel)
      → (on_fd_closed
          (remove_watcher (set_channel_at s fdtype fd (roomy heap c)) c.io_watcher)
          fd
          fdtype).mq
        ≡ ended s.mq fdtype fd
  ending-mq s fdtype fd c =
      let set = set_channel_at s fdtype fd (roomy heap c) in
      on_fd_closed-mq (remove_watcher set c.io_watcher) fdtype fd
      ∙ ap (λ (q : MessageQueue). ended q fdtype fd)
          (remove_watcher-mq set c.io_watcher ∙ channel_at_mq s fdtype fd (roomy heap c))

  -- A channel with room for what `OnRead` asks for: it does not fault, and all buffers stay valid.
  pub on_read-Sound :
      (s : EpollServer) (fdtype : FdType) (fd : ℕ) (c : Channel) (received : Received)
      → channel_at s fdtype fd ≡ some c
      → Every (OfBuffers (Sound 0)) s
      → c.in_buf.write_offset + 1024 ≤ max_buf_size
      → IsOffered received
      → (s' : EpollServer) × (on_read heap s fd fdtype received ≡ some s')
        × Every (OfBuffers (Sound 0)) s'
        × (s'.mq ≡ after_read s.mq fdtype fd c received)
  unfolding read_channel
  on_read-Sound s fdtype fd c (bytes (n ∷ more)) there v room h =
      let (valid_in, valid_out, fits) = Every-channel_at s fdtype fd c v there in
      let had = make_free-HasRoom good c.in_buf valid_in room in
      let (s', reads, (d, p)) = on_read-Placed good s fdtype fd c n more there valid_in room h in
      let made = set_channel_at s fdtype fd (roomy heap c) in
      (
        s',
        reads,
        same-Every (set_channel_at made fdtype fd d.channel) s' p.map_is p.list_is (
            set_channel_at-Every made fdtype fd d.channel
              (set_channel_at-Every s fdtype fd (roomy heap c) v (had.valid, valid_out, fits))
              (
                d.valid,
                subst IsValid (sym d.output) valid_out,
                omega (arith, ap (λ (b : Buffer). b.write_offset) d.output, fits),
              )),
        d.messages,
      )
  on_read-Sound s fdtype fd c (bytes []) there v room h =
      let (valid_in, valid_out, fits) = Every-channel_at s fdtype fd c v there in
      let had = make_free-HasRoom good c.in_buf valid_in room in
      (
        _,
        on_read_found heap s fdtype fd c (bytes []) there,
        ending-Every s fdtype fd c v (had.valid, valid_out, fits),
        ending-mq s fdtype fd c,
      )
  on_read-Sound s fdtype fd c failed there v room h =
      let (valid_in, valid_out, fits) = Every-channel_at s fdtype fd c v there in
      let had = make_free-HasRoom good c.in_buf valid_in room in
      (
        _,
        on_read_found heap s fdtype fd c failed there,
        ending-Every s fdtype fd c v (had.valid, valid_out, fits),
        ending-mq s fdtype fd c,
      )
  on_read-Sound s fdtype fd c closed there v room h =
      let (valid_in, valid_out, fits) = Every-channel_at s fdtype fd c v there in
      let had = make_free-HasRoom good c.in_buf valid_in room in
      (
        _,
        on_read_found heap s fdtype fd c closed there,
        ending-Every s fdtype fd c v (had.valid, valid_out, fits),
        ending-mq s fdtype fd c,
      )
