-- ===== src/Epoll/Callbacks/Closing.antt =====
-- The two halves of `r_w_cb` when the first one closes the channel.
use pluto_server.Prelude.{ℕ, ◌≡◌, ◌⊎◌, refl, Bool, true, false, List, none, some, bind_some}
use pluto_server.Prelude.Memory.{Allocator}
use pluto_server.Channel.{Channel}
use pluto_server.Util.{fd_type_server}
use pluto_server.Epoll.{EpollServer, get_channel}
use pluto_server.Epoll.Read.{Received, failed, closed, on_read}
use pluto_server.Epoll.Read.Closing.{Closed, on_read-Closed}
use pluto_server.Epoll.Write.{Sent, on_write}
use pluto_server.Epoll.Callbacks.{read_write, r_w_cb}

on_write_missing :
    (send : ℕ → List ℕ → Sent) (s : EpollServer) (fd : ℕ)
    → get_channel s fd ≡ none
    → on_write send s fd fd_type_server ≡ some s
unfolding on_write
on_write_missing send s fd e = rw (e, on_write) refl

-- A descriptor is readable because its peer has gone, and writable or not: the callback does not fault,
-- the channel is closed once, and nothing is sent on it after that.
pub r_w_cb-Closed :
    (heap : Allocator) (s : EpollServer) (fd : ℕ) (c : Channel) (writable : Bool)
    (received : Received) (send : ℕ → List ℕ → Sent)
    → get_channel s fd ≡ some c
    → (received ≡ failed) ⊎ (received ≡ closed)
    → (s' : EpollServer) × (r_w_cb heap s fd
          (record { error = false; readable = true; writable = writable })
          received
          send
        ≡ some s')
      × (on_read heap s fd fd_type_server received ≡ some s')
      × Closed s fd s'
unfolding r_w_cb read_write
r_w_cb-Closed heap s fd c true received send e h =
    let (s', reads, end) = on_read-Closed heap s fd c received e h in
    (s', bind_some reads _ (on_write_missing send s' fd end.gone), reads, end)
r_w_cb-Closed heap s fd c false received send e h =
    let (s', reads, end) = on_read-Closed heap s fd c received e h in
    (s', bind_some reads _ refl, reads, end)
