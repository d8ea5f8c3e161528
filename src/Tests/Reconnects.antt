-- ===== src/Tests/Reconnects.antt =====
-- A connection to a database server that ends in the middle of a package, at concrete inputs.
use pluto_server.Prelude.{ℕ, true, ◌≡◌, refl, arith, [], ◌∷◌, ◌++◌, some}
use pluto_server.Prelude.Text.{codes}
use pluto_server.Prelude.Memory.{plain_heap, plain_heap-IsAllocator}
use pluto_server.Buffer.{Buffer}
use pluto_server.Buffer.Extend.{contents}
use pluto_server.Package.Frames.{frames}
use pluto_server.Package.RoundTrip.{wire}
use pluto_server.Channel.{Channel, Connector, new_connector, set_success, set_io_watcher}
use pluto_server.MessageQueue.{new_message_queue}
use pluto_server.Util.{fd_type_connect}
use pluto_server.Epoll.{EpollServer, channel_at}
use pluto_server.Epoll.Read.{bytes, closed, on_read}
use pluto_server.Epoll.Read.Deliver.{push_packages}
use pluto_server.Epoll.Connect.{Attempt, on_try_connect}
use pluto_server.Epoll.Connect.Reconnect.{connects_to, on_try_connect_stale}

-- Two bytes of a package have come.
abbrev part : Buffer
part = record { block = 0 ∷ (0 ∷ []); alloc_size = 2; write_offset = 2 }

abbrev connector : Connector
connector =
    let k = set_io_watcher (set_success (new_connector 6 (codes "127.0.0.1") 4000) true) 900 in
    record k { channel = record k.channel { in_buf = part } }

abbrev game : EpollServer
game = record {
  eventfd = 3;
  channel_map = [];
  timer_map = [];
  connector_list = connector ∷ [];
  mq = new_message_queue;
  calls = [];
}

abbrev attempts : ℕ → Attempt
attempts i = connects_to 8 901

on_try_connect_stale_example :
    (s1 s3 : EpollServer) × (on_read plain_heap game 6 fd_type_connect closed ≡ some s1)
    × (on_read plain_heap
          (on_try_connect s1 attempts)
          8
          fd_type_connect
          (bytes (wire 1 9 (codes "{}") []))
        ≡ some s3)
    × (s3.mq
        ≡ push_packages
            (on_try_connect s1 attempts).mq
            fd_type_connect
            8
            (frames (contents part ++ wire 1 9 (codes "{}") [])).0)
    × ((c : Channel) × (channel_at s3 fd_type_connect 8 ≡ some c)
        × (c.out_buf ≡ connector.channel.out_buf))
on_try_connect_stale_example =
    on_try_connect_stale plain_heap-IsAllocator game 6 connector [] attempts 8 901
      (wire 1 9 (codes "{}") []) refl refl (omega arith) (omega arith) refl refl (λ e. cc)
      (omega arith)
