-- ===== src/System/Safety.antt =====
-- Histories of the game server whose inputs fit have no undefined behaviour.
use pluto_server.Prelude.{some_inj, sym, ◌∙◌, ◌+◌, ◌≤◌, ℕ, ◌≡◌, sym, List, [], ◌∷◌, some, false}
use mathlib.Core.Path.{subst}
use pluto_server.Prelude.Memory.{Allocator}
use pluto_server.MessageQueue.{MessageQueue}
use pluto_server.Util.{fd_type_server, fd_type_connect}
use pluto_server.Epoll.{EpollServer}
use pluto_server.Epoll.Every.{Every}
use pluto_server.Epoll.Write.Sending.{IsSocket}
use pluto_server.Epoll.Sound.Load.{load_of_all}
use pluto_server.GameWorker.Natives.{Fits}
use pluto_server.System.{GameServer, Input, accepts, clients, connectors, wakes, calls_back, step}
use pluto_server.Epoll.{channel_at, is_negative}
use pluto_server.Epoll.Read.{Received}
use pluto_server.Epoll.Sound.Reading.{IsOffered}
use pluto_server.Channel.{Channel}
use pluto_server.Util.{max_buf_size, FdType}
use pluto_server.System.Callbacks.{HaveHeaders, FitsRead, HasRoomFor}

-- What the server relies on: of the kernel, of its peers, of the rate at which the kernel takes what is
-- sent, and of the script.
abbrev pub FitsInput : GameServer → Input → Type 0
FitsInput g (accepts ev conn_fd watcher) = is_negative conn_fd ≡ false
FitsInput g (clients fd ev received send) =
    IsSocket send × FitsRead g.server fd_type_server fd received
FitsInput g (connectors fd ev received send) =
    IsSocket send × FitsRead g.server fd_type_connect fd received
FitsInput g (wakes ev ready) = Every (HasRoomFor (load_of_all g.server.mq.mq2c)) g.server
FitsInput g (calls_back n) = Fits n
FitsInput g _ = Unit {0}

-- Each input fits where it comes.
unfoldable pub FitsAll : Allocator → (ℕ → ℕ) → GameServer → List Input → Type 0
FitsAll heap watcher_of g [] = Unit {0}
FitsAll heap watcher_of g (i ∷ is) =
    FitsInput g i
    × ((g' : GameServer) → step heap watcher_of g i ≡ some g' → FitsAll heap watcher_of g' is)

-- An input that fits, and fitting inputs in the state that it leaves.
pub fits_then :
    (heap : Allocator) (watcher_of : ℕ → ℕ) (g g1 : GameServer) (i : Input) (is : List Input)
    → step heap watcher_of g i ≡ some g1
    → FitsInput g i
    → FitsAll heap watcher_of g1 is
    → FitsAll heap watcher_of g (i ∷ is)
unfolding FitsAll
fits_then heap watcher_of g g1 i is e fits rest = (
  fits,
  λ g' e'. subst (λ (x : GameServer). FitsAll heap watcher_of x is) (some_inj (sym e ∙ e')) rest,
)

-- A read on the channel that is found.
pub fits_read :
    (s : EpollServer) (fdtype : FdType) (fd : ℕ) (received : Received) (c : Channel)
    → channel_at s fdtype fd ≡ some c
    → IsOffered received
    → c.in_buf.write_offset + 1024 ≤ max_buf_size
    → HaveHeaders c received
    → FitsRead s fdtype fd received
fits_read s fdtype fd received c there offered room headers d there' =
    subst
      (λ (x : Channel).
        IsOffered received × (x.in_buf.write_offset + 1024 ≤ max_buf_size) × HaveHeaders x received)
      (some_inj (sym there ∙ there')) (offered, room, headers)
