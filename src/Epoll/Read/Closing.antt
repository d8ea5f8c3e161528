-- ===== src/Epoll/Read/Closing.antt =====
-- `OnRead` on a connection of a client that has ended.
use pluto_server.Prelude.{
  ℕ, ◌≡◌, ◌≢◌, ◌⊎◌, inl, inr, refl, ap, ◌∙◌, arith, List, [], ◌∷◌, ◌++◌, none, some, if◌then◌else◌,
  ==_self, ◌==◌,
}
use pluto_server.Prelude.Dict
use pluto_server.Prelude.Memory.{Allocator}
use pluto_server.Channel.{Channel}
use pluto_server.MessageQueue.{MessageQueue, unset, mq2s_push_close}
use pluto_server.Util.{FdType, fd_type_server}
use pluto_server.Epoll.{
  EpollServer, channel_at, set_channel_at, get_channel, remove_watcher, on_fd_closed, drop_channel,
}
use pluto_server.Epoll.Lookup.{remove_watcher-channel_map, remove_watcher-mq}
use pluto_server.Epoll.Read.{Received, failed, closed, read_channel, on_read}
use pluto_server.Epoll.Read.Safety.{roomy}

-- What a closed channel leaves: it is not found, every other channel is as it was, and the workers get
-- one message more, that the descriptor is closed.
pub record Closed (s : EpollServer) (fd : ℕ) (s' : EpollServer) : Type 0 where
  pub gone : get_channel s' fd ≡ none
  pub others : (other : ℕ) → other ≢ fd → get_channel s' other ≡ get_channel s other
  pub told : s'.mq.mq2s ≡ s.mq.mq2s ++ (record { uniqid = some fd; payload = unset; kind = 3 } ∷ [])

on_fd_closed-Closed :
    (s : EpollServer) (fd : ℕ) (c : Channel)
    → get_channel s fd ≡ some c
    → Closed s fd (on_fd_closed s fd fd_type_server)
unfolding on_fd_closed drop_channel mq2s_push_close
on_fd_closed-Closed s fd c e = record {
  gone = rw e (Dict.find-erase fd fd s.channel_map ∙ rw (==_self fd) refl);
  others = λ other h. rw e (Dict.find-erase fd other s.channel_map ∙ ground (arith, h));
  told = rw e refl;
}

-- The state in which `OnRead` calls `OnFdClosed`: room was made, and the channel's event removed.
ending : Allocator → EpollServer → ℕ → Channel → EpollServer
ending heap s fd c = remove_watcher (set_channel_at s fd_type_server fd (roomy heap c)) c.io_watcher

ending-channels :
    (heap : Allocator) (s : EpollServer) (fd other : ℕ) (c : Channel)
    → get_channel s fd ≡ some c
    → get_channel (ending heap s fd c) other
      ≡ (if fd == other then some (roomy heap c) else get_channel s other)
unfolding ending
ending-channels heap s fd other c e =
    ap (λ (m : List (ℕ × Channel)). Dict.find other m)
      (remove_watcher-channel_map (set_channel_at s fd_type_server fd (roomy heap c)) c.io_watcher)
    ∙ Dict.find-update fd other (roomy heap c) c s.channel_map e

ending-Closed :
    (heap : Allocator) (s : EpollServer) (fd : ℕ) (c : Channel)
    → get_channel s fd ≡ some c
    → Closed s fd (on_fd_closed (ending heap s fd c) fd fd_type_server)
unfolding ending
ending-Closed heap s fd c e =
    let here : get_channel (ending heap s fd c) fd ≡ some (roomy heap c) =
      ending-channels heap s fd fd c e ∙ rw (==_self fd) refl in
    let end = on_fd_closed-Closed (ending heap s fd c) fd (roomy heap c) here in
    record {
      gone = end.gone;
      others =
          λ other h. end.others other h ∙ ending-channels heap s fd other c e ∙ ground (arith, h);
      told =
          end.told
          ∙ ap
              (λ (q : MessageQueue).
                q.mq2s ++ (record { uniqid = some fd; payload = unset; kind = 3 } ∷ []))
              (remove_watcher-mq (set_channel_at s fd_type_server fd (roomy heap c)) c.io_watcher);
    }

pub on_read_found :
    (heap : Allocator) (s : EpollServer) (fdtype : FdType) (fd : ℕ) (c : Channel)
    (received : Received)
    → channel_at s fdtype fd ≡ some c
    → on_read heap s fd fdtype received ≡ read_channel heap s fd fdtype c received
unfolding on_read
on_read_found heap s fdtype fd c received e = rw (e, on_read) refl

-- A channel of the server whose `recv` gives 0 or -1: `OnRead` does not fault; the channel is then not
-- found, every other channel is as it was, and the workers get one message, that it is closed.
pub on_read-Closed :
    (heap : Allocator) (s : EpollServer) (fd : ℕ) (c : Channel) (received : Received)
    → get_channel s fd ≡ some c
    → (received ≡ failed) ⊎ (received ≡ closed)
    → (s' : EpollServer) × (on_read heap s fd fd_type_server received ≡ some s') × Closed s fd s'
unfolding read_channel ending
on_read-Closed heap s fd c received e (inl h) = (
  on_fd_closed (ending heap s fd c) fd fd_type_server,
  on_read_found heap s fd_type_server fd c received e ∙ rw h refl,
  ending-Closed heap s fd c e,
)
on_read-Closed heap s fd c received e (inr h) = (
  on_fd_closed (ending heap s fd c) fd fd_type_server,
  on_read_found heap s fd_type_server fd c received e ∙ rw h refl,
  ending-Closed heap s fd c e,
)
