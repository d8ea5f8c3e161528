-- ===== src/Epoll/Read.antt =====
-- `EpollServer::OnRead`: bytes from a socket into the channel's buffer, and packages out of it to the
-- workers. The loop over packages takes fuel; `none` is undefined behaviour or fuel that ran out.
pub mod Deliver
pub mod Room
pub mod Safety
pub mod Closing
pub mod Fragments
pub mod Request
use pluto_server.Prelude.{
  ℕ, zero, suc, ◌+◌, ◌-◌, ◌%◌, ◌^◌, Bool, true, false, List, [], ◌∷◌, Option, none, some, ltb,
  if◌then◌else◌, ◌>>=◌, length,
}
use pluto_server.Prelude.Memory.{Allocator, memcpy}
use pluto_server.Buffer
use pluto_server.Buffer.{Buffer, inc_write_offset}
use pluto_server.Channel.{Channel, read_package}
use pluto_server.MessageQueue.{MessageQueue, mq2s_push}
use pluto_server.Package.{Package}
use pluto_server.Util.{
  FdType, fd_type_server, fd_type_connect, read_buf_size, mq_type_pack, mq_type_connect,
}
use pluto_server.Epoll.{
  EpollServer, channel_at, set_channel_at, remove_event, update_event, on_fd_closed, uniqid_from_fd,
}

-- What `netlib_recv` gives: -1 or 0, or some bytes.
pub data Received : Type 0 where
  failed closed : Received
  bytes : List ℕ → Received

-- The message for a package, by the type of the descriptor.
abbrev pub push_package : MessageQueue → FdType → ℕ → Package → MessageQueue
push_package mq fd_type_server fd pack = mq2s_push mq (uniqid_from_fd fd) mq_type_pack pack
push_package mq fd_type_connect fd pack = mq2s_push mq 0 mq_type_connect pack

module _ (heap : Allocator) where
  -- `while((pack = channel->ReadPackage())) …`
  unfoldable pub deliver_while :
      ℕ → FdType → ℕ → Channel → MessageQueue → Option (Channel × MessageQueue)
  deliver_while zero fdtype fd channel mq = none
  deliver_while (suc fuel) fdtype fd channel mq = do
    (pack, channel') ← read_package heap channel
    elim pack [
      | none ↦ some (channel', mq)
      | some p ↦ deliver_while fuel fdtype fd channel' (push_package mq fdtype fd p)
    ]

  -- The room made before the call of `netlib_recv`. The difference wraps.
  unfoldable pub make_free : Buffer → Buffer
  make_free in_buf =
      if ltb ((in_buf.alloc_size + 2 ^ 32 - in_buf.write_offset) % 2 ^ 32) read_buf_size
      then Buffer.extend heap in_buf read_buf_size
      else in_buf

  -- The bytes that the kernel stores behind those held.
  unfoldable pub receive : Buffer → List ℕ → Option Buffer
  receive in_buf news = do
    block ← memcpy in_buf.block in_buf.write_offset news (length news)
    some (inc_write_offset (record in_buf { block = block }) (length news))

  -- The end of `OnRead`, when bytes came. Each round takes a byte at least, so the fuel is enough.
  unfoldable pub read_bytes : EpollServer → ℕ → FdType → Channel → List ℕ → Option EpollServer
  read_bytes s fd fdtype channel news = do
    in_buf ← receive channel.in_buf news
    (channel', mq) ←
        deliver_while (suc in_buf.write_offset) fdtype fd (record channel { in_buf = in_buf }) s.mq
    some (
        update_event (record (set_channel_at s fdtype fd channel') { mq = mq }) fd
          (ltb 0 channel'.out_buf.write_offset) channel')

  -- The channel is closed on 0 and on -1 alike.
  abbrev close_read : EpollServer → ℕ → FdType → Channel → EpollServer
  close_read s fd fdtype channel = on_fd_closed (remove_event s fd channel) fd fdtype

  unfoldable pub read_channel : EpollServer → ℕ → FdType → Channel → Received → Option EpollServer
  unfolding make_free
  read_channel s fd fdtype channel received =
      let roomy = record channel { in_buf = make_free channel.in_buf } in
      let s' = set_channel_at s fdtype fd roomy in
      elim received [
        | failed ↦ some (close_read s' fd fdtype roomy)
        | closed ↦ some (close_read s' fd fdtype roomy)
        | bytes news ↦ (elim news [
          | [] ↦ some (close_read s' fd fdtype roomy)
          | b ∷ rest ↦ read_bytes s' fd fdtype roomy (b ∷ rest)
        ])
      ]

  -- `OnRead`, given what `netlib_recv` will return.
  unfoldable pub on_read : EpollServer → ℕ → FdType → Received → Option EpollServer
  on_read s fd fdtype received = elim (channel_at s fdtype fd) [
    | none ↦ some s
    | some channel ↦ read_channel s fd fdtype channel received
  ]
