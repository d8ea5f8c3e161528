-- ===== src/Epoll/Write/Flush.antt =====
-- `OnWrite` as a whole, on a channel of the server.
use pluto_server.Prelude.{
  ℕ, suc, ◌≡◌, ◌≢◌, refl, sym, ap, ◌⊎◌, ◌==◌, if◌then◌else◌, ◌∙◌, arith, Bool, List, [], ◌∷◌, ◌++◌,
  Option, none, some, ==_self, bind_some, append-nil,
}
use pluto_server.Prelude.Dict
use pluto_server.Buffer.Extend.{IsValid, contents}
use pluto_server.Channel.{Channel}
use pluto_server.Util.{fd_type_server}
use pluto_server.Epoll.{
  EpollServer, Call, sent_to, call, get_channel, set_channel_at, update_watcher,
}
use pluto_server.Epoll.Lookup.{update_watcher-channel_map, update_watcher-mq}
use pluto_server.Epoll.Write.{Sent, on_write}
use pluto_server.Epoll.Write.Sending.{IsSocket, Refused, send_while-Split}

bytes_to : ℕ → Call → Option (List ℕ)
bytes_to fd (sent_to n bytes) = if n == fd then some bytes else none
bytes_to fd _ = none

-- The bytes that were sent on a descriptor last.
unfoldable pub last_sent : ℕ → List Call → Option (List ℕ)
unfolding bytes_to
last_sent fd [] = none
last_sent fd (c ∷ cs) = elim (last_sent fd cs) [ none ↦ bytes_to fd c | some bytes ↦ some bytes ]

pub last_sent_found :
    (fd : ℕ) (before : List Call) (bytes : List ℕ) (later : List Call)
    → last_sent fd later ≡ none
    → last_sent fd ((before ++ (sent_to fd bytes ∷ [])) ++ later) ≡ some bytes
unfolding last_sent bytes_to
last_sent_found fd [] bytes later quiet = rw (quiet, ==_self fd) refl
last_sent_found fd (c ∷ before) bytes later quiet =
    rw (last_sent_found fd before bytes later quiet) refl

-- What `OnWrite` leaves: the bytes that the kernel took, reported as sent on the descriptor, and those
-- still held by the channel are those held before, in order; some are held only if the kernel refused; all
-- else is as it was.
pub record Flushed (send : ℕ → List ℕ → Sent) (s : EpollServer) (fd : ℕ) (c : Channel)
    (s' : EpollServer) : Type 0 where
  pub gone : List ℕ
  pub later : List Call
  pub sent : s'.calls ≡ (s.calls ++ (sent_to fd gone ∷ [])) ++ later
  pub channel : Channel
  pub found : get_channel s' fd ≡ some channel
  pub quiet : last_sent fd later ≡ none
  pub finished : (channel.out_buf.write_offset ≡ 0) ⊎ Refused send
  pub conserved : gone ++ contents channel.out_buf ≡ contents c.out_buf
  pub valid : IsValid channel.out_buf
  pub input : channel.in_buf ≡ c.in_buf
  pub others : (other : ℕ) → other ≢ fd → get_channel s' other ≡ get_channel s other
  pub queues : s'.mq ≡ s.mq

pub update_watcher-calls :
    (s : EpollServer) (n : ℕ) (events : Bool) (w : Option ℕ)
    → (later : List Call) × ((update_watcher s n events w).calls ≡ s.calls ++ later)
      × ((fd : ℕ) → last_sent fd later ≡ none)
unfolding update_watcher last_sent
update_watcher-calls s n events none = ([], sym (append-nil s.calls), λ fd. refl)
update_watcher-calls s n events (some w) = (_, refl, λ fd. refl)

-- `OnWrite` on a channel of the server with a valid output, whatever a kernel that takes no more than it
-- is offered answers: it ends without fault; what it sent and what the channel still holds are, in order,
-- what the channel held, and it holds some only if the kernel refused a chunk; and no other channel and no
-- queue changes.
pub on_write-Flushed :
    (send : ℕ → List ℕ → Sent)
    → IsSocket send
    → (s : EpollServer) (fd : ℕ) (c : Channel) → get_channel s fd ≡ some c
    → IsValid c.out_buf
    → (s' : EpollServer) × (on_write send s fd fd_type_server ≡ some s') × Flushed send s fd c s'
unfolding on_write
on_write-Flushed send socket s fd c there v =
    let (o, sends, split) =
      send_while-Split send socket (suc c.out_buf.write_offset) 0 c.out_buf [] v (omega arith) in
    let after : Channel = record c { out_buf = o.out_buf } in
    let set : EpollServer =
      call (set_channel_at s fd_type_server fd after) (sent_to fd o.gone ∷ []) in
    let (later, calls, calls_quiet) = update_watcher-calls set fd o.again c.io_watcher in
    (
      update_watcher set fd o.again c.io_watcher,
      rw (there, on_write) (bind_some sends _ refl),
      record {
        gone = o.gone;
        later = later;
        sent = calls;
        channel = after;
        found =
            ap (Dict.find fd) (update_watcher-channel_map set fd o.again c.io_watcher)
            ∙ Dict.find-update fd fd after c s.channel_map there
            ∙ rw (==_self fd) refl;
        quiet = calls_quiet fd;
        finished = split.finished;
        conserved = split.conserved;
        valid = split.valid;
        input = refl;
        others = λ other h.
            ap (Dict.find other) (update_watcher-channel_map set fd o.again c.io_watcher)
            ∙ Dict.find-update fd other after c s.channel_map there
            ∙ ground (arith, h);
        queues = update_watcher-mq set fd o.again c.io_watcher;
      },
    )
