-- ===== src/Epoll/Every/Closing.antt =====
-- `OnFdClosed` changes nothing but descriptors and places: what holds of all buffers still holds.
use pluto_server.Prelude.{ℕ, refl, false, Option, none, some}
use pluto_server.Channel.{Channel, Connector, set_success, set_fd}
use pluto_server.Util.{FdType, fd_type_server, fd_type_connect}
use pluto_server.Epoll.{
  EpollServer, get_channel, find_connector, has_fd, remove_watcher, on_fd_closed, drop_channel,
  drop_connector,
}
use pluto_server.Buffer.{Buffer}
use pluto_server.Epoll.Every.{Every, OfBuffers, remove_watcher-Every, same-Every}
use pluto_server.Epoll.Places.{All-update_connector, found-erase}

module _ (Q : Buffer → Buffer → Type 0) where
  dropped-Every :
      (s : EpollServer) (fd : ℕ) (found : Option Channel)
      → Every (OfBuffers Q) s
      → Every (OfBuffers Q) (drop_channel s fd found)
  unfolding drop_channel
  dropped-Every s fd none v = v
  dropped-Every s fd (some c) v = record {
    clients = λ other d e. v.clients other d (found-erase fd other d s.channel_map e);
    connectors = v.connectors;
  }

  disconnected-Every :
      (s : EpollServer) (fd : ℕ) (found : Option Connector)
      → Every (OfBuffers Q) s
      → Every (OfBuffers Q) (drop_connector s fd found)
  unfolding drop_connector
  disconnected-Every s fd none v = v
  disconnected-Every s fd (some c) v = record {
    clients = v.clients;
    connectors =
        All-update_connector (OfBuffers Q) (has_fd fd) (λ k. set_fd (set_success k false) 0)
          s.connector_list (λ k old. old) v.connectors;
  }

  on_fd_closed-Every :
      (s : EpollServer) (fdtype : FdType) (fd : ℕ)
      → Every (OfBuffers Q) s
      → Every (OfBuffers Q) (on_fd_closed s fd fdtype)
  unfolding on_fd_closed
  on_fd_closed-Every s fd_type_server fd v =
      same-Every (drop_channel s fd (get_channel s fd)) _ refl refl
        (dropped-Every s fd (get_channel s fd) v)
  on_fd_closed-Every s fd_type_connect fd v =
      disconnected-Every s fd (find_connector fd s.connector_list) v

  -- The end of `OnRead` on a socket that has ended.
  pub close_read-Every :
      (s : EpollServer) (fdtype : FdType) (fd : ℕ) (w : Option ℕ)
      → Every (OfBuffers Q) s
      → Every (OfBuffers Q) (on_fd_closed (remove_watcher s w) fd fdtype)
  close_read-Every s fdtype fd w v =
      on_fd_closed-Every (remove_watcher s w) fdtype fd (remove_watcher-Every s w v)
