-- ===== src/Epoll/Peer/Asking.antt =====
-- `OnEventfd` on a package for the first connector.

use pluto_server.Prelude.{
  ℕ, ◌+◌, ◌≤◌, ◌≡◌, refl, ap, ◌∙◌, true, List, [], ◌∷◌, ◌++◌, Option, some, Bool, if◌then◌else◌,
  bind_some, length, take, ltb,
}
use pluto_server.Prelude.Memory.{Allocator, IsAllocator}
use pluto_server.Buffer.{Buffer, write}
use pluto_server.Buffer.Extend.{IsValid, contents}
use pluto_server.Buffer.Queue.{write-Wrote}
use pluto_server.Package.{Package, get_buffer, total_length}
use pluto_server.Channel.{Channel, Connector}
use pluto_server.MessageQueue.{pack}
use pluto_server.Util.{max_buf_size, mq_type_connect}
use pluto_server.Epoll.{
  EpollServer, userful_connector, update_connector, with_channel, update_watcher,
}
use pluto_server.Epoll.Lookup.{
  update_watcher-mq, update_watcher-channel_map, update_watcher-connector_list,
}
use pluto_server.Epoll.Eventfd.{append_package, send_connector, on_message, on_eventfd}
use pluto_server.Epoll.Eventfd.Drain.{carry_out, on_eventfd-carry_out}
use pluto_server.Epoll.Peer.{InPlace}

-- What `OnEventfd` leaves of a package for the other server.
pub record Asked (s : EpollServer) (k : Connector) (rest : List Connector) (p : Package)
    (s' : EpollServer) : Type 0 where
  pub channel : Channel
  pub placed : InPlace s k rest channel s'
  pub same_fd : channel.fd ≡ k.channel.fd
  pub appended :
      contents channel.out_buf ≡ contents k.channel.out_buf ++ take (total_length p) (get_buffer p)
  pub valid : IsValid channel.out_buf
  pub input : channel.in_buf ≡ k.channel.in_buf
  pub queues : s'.mq ≡ record s.mq { mq2c = [] }

userful_first :
    (k : Connector) (rest : List Connector)
    → k.success ≡ true
    → userful_connector (k ∷ rest) ≡ some k
unfolding userful_connector
userful_first k rest h = ap (λ (b : Bool). if b then some k else userful_connector rest) h

update_userful :
    (c : Channel) (k : Connector) (rest : List Connector)
    → k.success ≡ true
    → update_connector (λ d. d.success) (with_channel c) (k ∷ rest) ≡ with_channel c k ∷ rest
unfolding update_connector
update_userful c k rest h =
    ap
      (λ (b : Bool).
        if b
        then with_channel c k ∷ rest
        else k ∷ update_connector (λ d. d.success) (with_channel c) rest)
      h

send_connector_found :
    (heap : Allocator) (s : EpollServer) (p : Package) (k : Connector) (b : Buffer)
    → userful_connector s.connector_list ≡ some k
    → write heap k.channel.out_buf (some (get_buffer p)) (total_length p) ≡ some b
    → send_connector heap s p
      ≡ some (
          update_watcher
            (record s {
              connector_list =
                  update_connector
                    (λ c. c.success)
                    (with_channel (record k.channel { out_buf = b }))
                    s.connector_list;
            })
            k.channel.fd
            (ltb 0 b.write_offset)
            k.channel.io_watcher)
unfolding send_connector append_package
send_connector_found heap s p k b there writes =
    rw (there, send_connector, append_package, writes) refl

-- A package for another server that waits alone, while the first connector is connected and has room: its
-- bytes stand behind that connector's output.
pub on_eventfd-Asked :
    {heap : Allocator}
    → IsAllocator heap
    → (watcher_of : ℕ → ℕ) (s : EpollServer) (k : Connector) (rest : List Connector)
      (uniqid : Option ℕ) (p : Package)
    → s.connector_list ≡ k ∷ rest
    → k.success ≡ true
    → s.mq.mq2c ≡ record { uniqid = uniqid; payload = pack p; kind = mq_type_connect } ∷ []
    → IsValid k.channel.out_buf
    → total_length p ≤ length (get_buffer p)
    → k.channel.out_buf.write_offset + total_length p ≤ max_buf_size
    → (s' : EpollServer) × (on_eventfd heap watcher_of s true ≡ some s') × Asked s k rest p s'
unfolding carry_out on_message
on_eventfd-Asked {heap} good watcher_of s k rest uniqid p list connected queued v held fits =
    let (b, writes, wrote) =
      write-Wrote good k.channel.out_buf (get_buffer p) (total_length p) v held fits in
    let channel : Channel = record k.channel { out_buf = b } in
    let next : EpollServer = record s { mq = record s.mq { mq2c = [] } } in
    let set : EpollServer = record next {
      connector_list = update_connector (λ c. c.success) (with_channel channel) s.connector_list;
    } in
    let sends : send_connector heap next p
        ≡ some (update_watcher set k.channel.fd (ltb 0 b.write_offset) k.channel.io_watcher) =
      send_connector_found heap next p k b
        (ap userful_connector list ∙ userful_first k rest connected) writes in
    (
      update_watcher set k.channel.fd (ltb 0 b.write_offset) k.channel.io_watcher,
      (on_eventfd-carry_out heap watcher_of s).0
          ∙ ap (carry_out heap watcher_of s) queued
          ∙ bind_some sends _ refl,
      record {
        channel = channel;
        placed = record {
          stands =
              update_watcher-connector_list set _ _ _
              ∙ ap (update_connector (λ c. c.success) (with_channel channel)) list
              ∙ update_userful channel k rest connected;
          channels = update_watcher-channel_map set _ _ _;
        };
        same_fd = refl;
        appended = wrote.appended;
        valid = wrote.valid;
        input = refl;
        queues = update_watcher-mq set _ _ _;
      },
    )
