-- ===== src/Epoll/Peer/Flushing.antt =====
-- `OnWrite` on the first connector.

use pluto_server.Prelude.{
  ◌⊎◌, none, ℕ, suc, ◌≡◌, refl, ap, ◌∙◌, arith, List, [], ◌∷◌, ◌++◌, some, bind_some,
}
use pluto_server.Buffer.Extend.{IsValid, contents}
use pluto_server.Channel.{Channel, Connector}
use pluto_server.Util.{fd_type_connect}
use pluto_server.Epoll.{
  EpollServer, Call, call, sent_to, update_connector, has_fd, with_channel, set_channel_at,
  update_watcher,
}
use pluto_server.Epoll.Lookup.{
  update_watcher-mq, update_watcher-channel_map, update_watcher-connector_list,
}
use pluto_server.Epoll.Write.{Sent, on_write}
use pluto_server.Epoll.Write.Flush.{update_watcher-calls, last_sent}
use pluto_server.Epoll.Write.Sending.{IsSocket, Refused, send_while-Split}
use pluto_server.Epoll.Peer.{InPlace, update_first, first_there}

-- What `OnWrite` leaves: what the kernel took and what is still held are what was held.
pub record SentOff (send : ℕ → List ℕ → Sent) (s : EpollServer) (k : Connector)
    (rest : List Connector) (fd : ℕ) (s' : EpollServer) : Type 0 where
  pub gone : List ℕ
  pub later : List Call
  pub sent : s'.calls ≡ (s.calls ++ (sent_to fd gone ∷ [])) ++ later
  pub channel : Channel
  pub placed : InPlace s k rest channel s'
  pub same_fd : channel.fd ≡ k.channel.fd
  pub quiet : last_sent fd later ≡ none
  pub finished : (channel.out_buf.write_offset ≡ 0) ⊎ Refused send
  pub conserved : gone ++ contents channel.out_buf ≡ contents k.channel.out_buf
  pub valid : IsValid channel.out_buf
  pub input : channel.in_buf ≡ k.channel.in_buf
  pub queues : s'.mq ≡ s.mq

pub on_write-SentOff :
    (send : ℕ → List ℕ → Sent)
    → IsSocket send
    → (s : EpollServer) (fd : ℕ) (k : Connector) (rest : List Connector)
    → s.connector_list ≡ k ∷ rest
    → k.channel.fd ≡ fd
    → IsValid k.channel.out_buf
    → (s' : EpollServer) × (on_write send s fd fd_type_connect ≡ some s')
      × SentOff send s k rest fd s'
unfolding on_write
on_write-SentOff send socket s fd k rest list at v =
    let c = k.channel in
    let (o, sends, split) =
      send_while-Split send socket (suc c.out_buf.write_offset) 0 c.out_buf [] v (omega arith) in
    let after : Channel = record c { out_buf = o.out_buf } in
    let set : EpollServer =
      call (set_channel_at s fd_type_connect fd after) (sent_to fd o.gone ∷ []) in
    let (later, calls, calls_quiet) = update_watcher-calls set fd o.again c.io_watcher in
    (
      update_watcher set fd o.again c.io_watcher,
      rw (first_there s fd k rest list at, on_write) (bind_some sends _ refl),
      record {
        gone = o.gone;
        later = later;
        sent = calls;
        channel = after;
        placed = record {
          stands =
              update_watcher-connector_list set fd o.again c.io_watcher
              ∙ ap (update_connector (has_fd fd) (with_channel after)) list
              ∙ update_first fd (with_channel after) k rest at;
          channels = update_watcher-channel_map set fd o.again c.io_watcher;
        };
        same_fd = refl;
        quiet = calls_quiet fd;
        finished = split.finished;
        conserved = split.conserved;
        valid = split.valid;
        input = refl;
        queues = update_watcher-mq set fd o.again c.io_watcher;
      },
    )
