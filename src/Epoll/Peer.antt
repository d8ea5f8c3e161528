-- ===== src/Epoll/Peer.antt =====
-- The handlers on the first connector of a server, that to the server which it asks.
pub mod Asking
pub mod Flushing
pub mod Hearing
use mathlib.Core.Path.{subst}
use pluto_server.Prelude.{
  ℕ, suc, ◌+◌, ◌≤◌, ◌≡◌, refl, sym, ap, ◌∙◌, arith, true, List, [], ◌∷◌, ◌++◌, ◌>>=◌, Option, some,
  none, Bool, ==_self, ◌==◌, if◌then◌else◌, bind_some, length, take, ltb,
}
use pluto_server.Prelude.Memory.{Allocator, IsAllocator}
use pluto_server.Buffer.{Buffer, write}
use pluto_server.Buffer.Extend.{IsValid, contents}
use pluto_server.Buffer.Queue.{write-Wrote}
use pluto_server.Package.{Package, get_buffer, total_length}
use pluto_server.Package.RoundTrip.{message, wire}
use pluto_server.Package.Frames.{frames}
use pluto_server.Channel.{Channel, Connector}
use pluto_server.MessageQueue.{Message, MessageQueue, pack, mq2s_push, push_mq2s}
use pluto_server.Util.{fd_type_connect, max_buf_size, mq_type_connect}
use pluto_server.Epoll.{
  EpollServer, Call, call, sent_to, find_connector, userful_connector, update_connector, has_fd,
  with_channel, channel_at, set_channel_at, update_watcher,
}
use pluto_server.Epoll.Lookup.{
  update_watcher-mq, update_watcher-channel_map, update_watcher-connector_list,
}
use pluto_server.Epoll.Eventfd.{append_package, send_connector, on_message, on_eventfd}
use pluto_server.Epoll.Eventfd.Drain.{carry_out, on_eventfd-carry_out}
use pluto_server.Epoll.Read.{bytes, on_read}
use pluto_server.Epoll.Read.Deliver.{push_packages}
use pluto_server.Epoll.Read.Request.{IsRequest, request-frames, sent_all}
use pluto_server.Epoll.Read.Safety.{roomy, on_read-Placed}
use pluto_server.Epoll.Write.{Sent, on_write}
use pluto_server.Epoll.Write.Flush.{update_watcher-calls}
use pluto_server.Epoll.Write.Sending.{IsSocket, send_while-Split}

pub found_first :
    (fd : ℕ) (k : Connector) (rest : List Connector)
    → k.channel.fd ≡ fd
    → find_connector fd (k ∷ rest) ≡ some k
unfolding find_connector
found_first fd k rest h =
    ap (λ (n : ℕ). if n == fd then some k else find_connector fd rest) h ∙ rw (==_self fd) refl

pub update_first :
    (fd : ℕ) (f : Connector → Connector) (k : Connector) (rest : List Connector)
    → k.channel.fd ≡ fd
    → update_connector (has_fd fd) f (k ∷ rest) ≡ f k ∷ rest
unfolding update_connector
update_first fd f k rest h =
    ap (λ (n : ℕ). if n == fd then f k ∷ rest else k ∷ update_connector (has_fd fd) f rest) h
    ∙ rw (==_self fd) refl

pub first_there :
    (s : EpollServer) (fd : ℕ) (k : Connector) (rest : List Connector)
    → s.connector_list ≡ k ∷ rest
    → k.channel.fd ≡ fd
    → channel_at s fd_type_connect fd ≡ some k.channel
first_there s fd k rest list h =
    ap (λ (found : Option Connector). found >>= (λ c. some c.channel))
      (ap (find_connector fd) list ∙ found_first fd k rest h)

-- The connector at its place, its channel changed; no channel of a client changed.
pub record InPlace (s : EpollServer) (k : Connector) (rest : List Connector) (channel : Channel)
    (s' : EpollServer) : Type 0 where
  pub stands : s'.connector_list ≡ with_channel channel k ∷ rest
  pub channels : s'.channel_map ≡ s.channel_map
