-- ===== src/Epoll/Connect/Reconnect.antt =====
-- A connection to another server that ends, and is made again.
use pluto_server.Prelude.{
  ℕ, ◌+◌, ◌≤◌, ◌≡◌, ◌≢◌, refl, ap, ◌∙◌, arith, true, false, List, [], ◌∷◌, ◌++◌, Option, none, some,
  if◌then◌else◌, length,
}
use pluto_server.Prelude.Memory.{Allocator, IsAllocator}
use pluto_server.Buffer.Extend.{IsValid, contents}
use pluto_server.Package.Frames.{frames}
use pluto_server.Channel.{Channel, Connector, set_success, set_fd, set_io_watcher}
use pluto_server.Util.{fd_type_connect, max_buf_size}
use pluto_server.Epoll.{
  EpollServer, Call, io_set, io_start, find_connector, update_connector, has_fd, with_channel,
  channel_at, set_channel_at, remove_watcher, on_fd_closed, drop_connector,
}
use pluto_server.Epoll.Peer.{update_first, found_first, first_there}
use pluto_server.Epoll.Read.{bytes, closed, on_read, read_channel}
use pluto_server.Epoll.Read.Deliver.{push_packages}
use pluto_server.Epoll.Read.Closing.{on_read_found}
use pluto_server.Epoll.Read.Safety.{roomy, on_read-Delivered}
use pluto_server.Epoll.Read.Room.{make_free-HasRoom}
use pluto_server.Epoll.Connect.{
  Attempt, Round, is_missing, with_socket, finish, try_connector, try_all, on_try_connect,
}

-- The connector of a connection that has ended.
abbrev off : Connector → Connector
off k = set_fd (set_success k false) 0

-- A round that gets a socket and a connection for it.
abbrev pub connects_to : ℕ → ℕ → Attempt
connects_to socket watcher = record { socket = socket; connected = true; watcher = some watcher }

try_connector-off :
    (k : Connector) (socket watcher : ℕ)
    → is_missing socket ≡ false
    → try_connector (off k) (connects_to socket watcher) ≡ record {
      connector = set_success (set_io_watcher (set_fd (off k) socket) watcher) true;
      events = io_set watcher socket false ∷ (io_start watcher ∷ []);
      goes_on = true;
    }
unfolding try_connector with_socket finish
try_connector-off k socket watcher h = rw h refl

remove_watcher-connector_list :
    (s : EpollServer) (w : Option ℕ) → (remove_watcher s w).connector_list ≡ s.connector_list
unfolding remove_watcher
remove_watcher-connector_list s none = refl
remove_watcher-connector_list s (some w) = refl

on_fd_closed_first :
    (s : EpollServer) (fd : ℕ) (k : Connector) (rest : List Connector)
    → s.connector_list ≡ k ∷ rest
    → k.channel.fd ≡ fd
    → (on_fd_closed s fd fd_type_connect).connector_list ≡ off k ∷ rest
unfolding on_fd_closed drop_connector
on_fd_closed_first s fd k rest list at =
    ap (λ (found : Option Connector). (drop_connector s fd found).connector_list)
      (ap (find_connector fd) list ∙ found_first fd k rest at)
    ∙ ap (update_connector (has_fd fd) off) list
    ∙ update_first fd off k rest at

-- The connector after a connection that has ended, and one that is made.
abbrev again : Allocator → Connector → ℕ → ℕ → Connector
again heap k socket watcher =
    set_success
      (set_io_watcher (set_fd (off (with_channel (roomy heap k.channel) k)) socket) watcher) true

on_try_connect_first :
    (s : EpollServer) (attempt : ℕ → Attempt) (k : Connector) (rest : List Connector)
    (socket watcher : ℕ)
    → s.connector_list ≡ off k ∷ rest
    → attempt 0 ≡ connects_to socket watcher
    → is_missing socket ≡ false
    → (rest' : List Connector) × ((on_try_connect s attempt).connector_list
        ≡ set_success (set_io_watcher (set_fd (off k) socket) watcher) true ∷ rest')
unfolding on_try_connect try_all
on_try_connect_first s attempt k rest socket watcher list first h = (
  (try_all attempt 1 rest).0,
  ap (λ cs. (try_all attempt 0 cs).0) list
      ∙ ap
          (λ (r : Round).
            let after : List Connector × List Call =
              if r.goes_on
              then (
                r.connector ∷ (try_all attempt 1 rest).0,
                r.events ++ (try_all attempt 1 rest).1,
              )
              else (r.connector ∷ rest, r.events) in
            after.0)
          (ap (try_connector (off k)) first ∙ try_connector-off k socket watcher h),
)

-- The first connector, whose input holds bytes of a package that is not complete, loses its connection and
-- gets another: what it then reads is framed behind those bytes of the connection that has ended; and its
-- output still holds what that connection did not take.
pub on_try_connect_stale :
    {heap : Allocator}
    → IsAllocator heap
    → (s : EpollServer) (fd : ℕ) (k : Connector) (rest : List Connector) (attempt : ℕ → Attempt)
      (socket watcher : ℕ) (news : List ℕ)
    → s.connector_list ≡ k ∷ rest
    → k.channel.fd ≡ fd
    → IsValid k.channel.in_buf
    → k.channel.in_buf.write_offset + 1024 ≤ max_buf_size
    → attempt 0 ≡ connects_to socket watcher
    → is_missing socket ≡ false
    → news ≢ []
    → length news ≤ 1024
    → (s1 s3 : EpollServer) × (on_read heap s fd fd_type_connect closed ≡ some s1)
      × (on_read heap (on_try_connect s1 attempt) socket fd_type_connect (bytes news) ≡ some s3)
      × (s3.mq
          ≡ push_packages
              (on_try_connect s1 attempt).mq
              fd_type_connect
              socket
              (frames (contents k.channel.in_buf ++ news)).0)
      × ((c : Channel) × (channel_at s3 fd_type_connect socket ≡ some c)
          × (c.out_buf ≡ k.channel.out_buf))
unfolding read_channel
on_try_connect_stale {heap} good s fd k rest attempt socket watcher news list at valid room first h
      some_news small =
    let made = roomy heap k.channel in
    let set = set_channel_at s fd_type_connect fd made in
    let s1 = on_fd_closed (remove_watcher set k.channel.io_watcher) fd fd_type_connect in
    let had = make_free-HasRoom good k.channel.in_buf valid room in
    let off_list : s1.connector_list ≡ off (with_channel made k) ∷ rest =
      on_fd_closed_first (remove_watcher set k.channel.io_watcher) fd (with_channel made k) rest
        (remove_watcher-connector_list set k.channel.io_watcher
          ∙ ap (update_connector (has_fd fd) (with_channel made)) list
          ∙ update_first fd (with_channel made) k rest at)
        at in
    let (rest', on_list) =
      on_try_connect_first s1 attempt (with_channel made k) rest socket watcher off_list first h in
    let (s3, reads, d) =
      on_read-Delivered good (on_try_connect s1 attempt) fd_type_connect socket
        (again heap k socket watcher).channel news
        (first_there (on_try_connect s1 attempt) socket (again heap k socket watcher) rest' on_list
          refl)
        had.valid (omega (arith, had.offset, room)) some_news small in
    (
      s1,
      s3,
      on_read_found heap s fd_type_connect fd k.channel closed (first_there s fd k rest list at),
      reads,
      d.messages
          ∙ ap
              (λ (held : List ℕ).
                push_packages (on_try_connect s1 attempt).mq fd_type_connect socket
                  (frames (held ++ news)).0)
              had.same,
      (d.channel, d.found, d.output),
    )
