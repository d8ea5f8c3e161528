-- ===== src/Epoll/Eventfd.antt =====
-- `EpollServer::OnEventfd`: the messages of the workers, each carried out in turn.
pub mod Delivery
pub mod Broadcasting
pub mod Drain
pub mod Connectors
pub mod Reply
use pluto_server.Prelude.{
  ℕ, zero, suc, ◌+◌, Bool, true, false, List, [], ◌∷◌, Option, none, some, ltb, ◌==◌, if◌then◌else◌,
  ◌>>=◌, length,
}
use pluto_server.Prelude.Dict
use pluto_server.Prelude.Memory.{Allocator}
use pluto_server.Buffer
use pluto_server.Channel.{Channel, Connector}
use pluto_server.MessageQueue.{
  Message, MessageQueue, Payload, TimerStruct, Broadcast, pack, timer, broad, unset, mq2c_pop,
  as_pack, as_timer, as_broad,
}
use pluto_server.Package.{Package, get_buffer, total_length}
use pluto_server.Util.{
  fd_type_server, mq_type_pack, mq_type_timer, mq_type_connect, mq_type_broadcast,
}
use pluto_server.Epoll.{
  EpollServer, Timer, timer_init, timer_start, call, get_channel, set_channel_at, update_event,
  userful_connector, update_connector, with_channel, fd_from_uniqid,
}

module _ (heap : Allocator) where
  -- A package into the buffer of a channel: the channel afterwards.
  unfoldable pub append_package : Channel → Package → Option Channel
  append_package channel p = do
    out_buf ← Buffer.write heap channel.out_buf (some (get_buffer p)) (total_length p)
    some (record channel { out_buf = out_buf })

  -- The branch for MQ_TYPE_PACK, and each round of a broadcast. A missing channel is skipped.
  unfoldable pub send_pack : EpollServer → ℕ → Package → Option EpollServer
  send_pack s uniqid p =
      let fd = fd_from_uniqid uniqid in
      elim (get_channel s fd) [
        | none ↦ some s
        | some channel ↦ (do
          channel' ← append_package channel p
          some (
              update_event (set_channel_at s fd_type_server fd channel') fd
                (ltb 0 channel'.out_buf.write_offset) channel'))
      ]

  -- `while(!uniqids.empty()) …`; the field `all` is not looked at.
  unfoldable pub send_broadcast : EpollServer → List ℕ → Package → Option EpollServer
  send_broadcast s [] p = some s
  send_broadcast s (uniqid ∷ uniqids) p = do s' ← send_pack s uniqid p; send_broadcast s' uniqids p

  -- The branch for MQ_TYPE_CONNECT: to the first connected connector, or nowhere.
  unfoldable pub send_connector : EpollServer → Package → Option EpollServer
  send_connector s p = elim (userful_connector s.connector_list) [
    | none ↦ some s
    | some connector ↦ (do
      channel ← append_package connector.channel p
      some (
          update_event
            (record s {
              connector_list =
                  update_connector (λ c. c.success) (with_channel channel) s.connector_list;
            })
            channel.fd (ltb 0 channel.out_buf.write_offset) channel))
  ]

-- The branch for MQ_TYPE_TIMER, with the watcher that `malloc` gives. The key of the new entry is 1.
unfoldable pub start_timer : EpollServer → ℕ → TimerStruct → Option EpollServer
start_timer s watcher t = do
  delay ← t.delay
  repeat_sec ← t.repeat_sec
  let entry : Timer = record { timerid = t.timerid; repeat_sec = repeat_sec; ev_timer = watcher }
  some (
      call (record s { timer_map = Dict.insert 1 entry s.timer_map })
        (timer_init watcher delay repeat_sec ∷ (timer_start watcher ∷ [])))

-- `watcher_of` gives the address that `malloc` returns for the watcher of a timer, by the timer's id.
module _ (heap : Allocator) (watcher_of : ℕ → ℕ) where
  -- One message, by its type.
  unfoldable pub on_message : EpollServer → Message → Option EpollServer
  on_message s m =
      if m.kind == mq_type_pack
      then (do uniqid ← m.uniqid; p ← as_pack m.payload; send_pack heap s uniqid p)
      else (if m.kind == mq_type_broadcast
          then (do b ← as_broad m.payload; send_broadcast heap s b.uniqids b.pack)
          else (if m.kind == mq_type_timer
              then (do t ← as_timer m.payload; start_timer s (watcher_of t.timerid) t)
              else (if m.kind == mq_type_connect
                  then (do p ← as_pack m.payload; send_connector heap s p)
                  else some s)))

  -- `while(1) { mq = MQ2C_Pop(); if (mq == NULL) break; … }` on fuel.
  unfoldable pub message_while : ℕ → EpollServer → Option EpollServer
  message_while zero s = none
  message_while (suc fuel) s = elim (mq2c_pop s.mq) [
    | none ↦ some s
    | some (m, mq) ↦ (do s' ← on_message (record s { mq = mq }) m; message_while fuel s')
  ]

  -- `OnEventfd`, given whether the read of the eventfd succeeds. No message adds another, so a round
  -- for each message and one for the end are enough.
  unfoldable pub on_eventfd : EpollServer → Bool → Option EpollServer
  on_eventfd s false = some s
  on_eventfd s true = message_while (suc (length s.mq.mq2c)) s
