-- ===== src/Epoll/Write.antt =====
-- `EpollServer::OnWrite`: the bytes of a channel's buffer to its socket, 1024 at a time. The loop takes
-- fuel; `none` is undefined behaviour or fuel that ran out.
pub mod Sending
pub mod Flush
use pluto_server.Prelude.{
  ℕ, zero, suc, ◌+◌, Bool, true, false, List, [], ◌∷◌, ◌++◌, Option, none, some, ltb, if◌then◌else◌,
  ◌>>=◌, take,
}
use pluto_server.Prelude.Memory.{load}
use pluto_server.Buffer
use pluto_server.Buffer.{Buffer}
use pluto_server.Channel.{Channel}
use pluto_server.Util.{FdType, write_buf_size}
use pluto_server.Epoll.{EpollServer, sent_to, call, channel_at, set_channel_at, update_event}

-- What `netlib_send` gives: -1, or how many bytes the kernel took.
pub data Sent : Type 0 where
  failed : Sent
  took : ℕ → Sent

abbrev pub send_size : ℕ → ℕ
send_size offset = if ltb write_buf_size offset then write_buf_size else offset

-- The buffer, the bytes that the kernel took, and whether EV_WRITE is wanted.
pub record Outcome : Type 0 where
  pub out_buf : Buffer
  pub gone : List ℕ
  pub again : Bool

-- The tests on the result of `netlib_send`; `go` is the rest of the loop. A result of 0 leaves it.
unfoldable pub after_send :
    (Buffer → List ℕ → Option Outcome) → Buffer → List ℕ → List ℕ → Sent → Option Outcome
after_send go out gone chunk failed = some (record { out_buf = out; gone = gone; again = true })
after_send go out gone chunk (took zero) =
    some (record { out_buf = out; gone = gone; again = false })
after_send go out gone chunk (took (suc n)) = do
  (len, dst, out') ← Buffer.read out none (suc n)
  go out' (gone ++ take (suc n) chunk)

module _ (send : ℕ → List ℕ → Sent) where
  -- `while(out_buf.GetWriteOffset() > 0) …`, from the round `round`.
  unfoldable pub send_while : ℕ → ℕ → Buffer → List ℕ → Option Outcome
  send_while zero round out gone = none
  send_while (suc fuel) round out gone =
      let go = send_while fuel (suc round) in
      if ltb 0 out.write_offset
      then (do
        chunk ← load out.block 0 (send_size out.write_offset)
        after_send go out gone chunk (send round chunk))
      else some (record { out_buf = out; gone = gone; again = false })

  -- `OnWrite`, given what each call of `netlib_send` will return.
  unfoldable pub on_write : EpollServer → ℕ → FdType → Option EpollServer
  on_write s fd fdtype = elim (channel_at s fdtype fd) [
    | none ↦ some s
    | some channel ↦ (do
      o ← send_while (suc channel.out_buf.write_offset) 0 channel.out_buf []
      let channel' = record channel { out_buf = o.out_buf }
      some (
          update_event (call (set_channel_at s fdtype fd channel') (sent_to fd o.gone ∷ [])) fd
            o.again channel'))
  ]
