-- ===== src/System/Callbacks.antt =====
-- The callbacks of the event loop keep the server safe.
use pluto_server.Prelude.{
  ℕ, ◌+◌, ◌≤◌, ◌≡◌, refl, sym, Bool, true, false, List, [], ◌∷◌, ◌++◌, All, Option, none, some,
  Option-cases, Bool-cases, inl, inr, bind_some, branches, if◌then◌else◌,
}
use mathlib.Core.Path.{subst}
use pluto_server.Prelude.Memory.{Allocator, IsAllocator}
use pluto_server.Buffer.Extend.{contents}
use pluto_server.Package.{total_length}
use pluto_server.Package.Frames.{frames}
use pluto_server.Channel.{Channel}
use pluto_server.MessageQueue.{MessageQueue, mq2s_push_close, mq2s_push_tick, mq2s_push_timer}
use pluto_server.MessageQueue.Typed.{closed, ticked, fired}
use pluto_server.Util.{FdType, fd_type_server, fd_type_connect, max_buf_size}
use pluto_server.Epoll.{EpollServer, Timer, repeats, channel_at, on_accept, is_negative}
use pluto_server.Epoll.Connect.{Attempt, on_try_connect}
use pluto_server.Epoll.Timers.{fire, on_timer, timer_of}
use pluto_server.Epoll.Every.{
  Every, OfBuffers, Every-meet, on_accept-Every, on_timer-Every, same-Every,
}
use pluto_server.Epoll.Every.Connecting.{on_try_connect-Every}
use pluto_server.Epoll.Read.{Received, bytes, failed, closed, on_read}
use pluto_server.Epoll.Write.{Sent, on_write}
use pluto_server.Epoll.Write.Sending.{IsSocket}
use pluto_server.Epoll.Eventfd.{on_eventfd}
use pluto_server.Epoll.Callbacks.{
  Events, read_write, eventfd_cb, accept_cb, timeout_cb, init_timeout_cb,
}
use pluto_server.Epoll.Sound.{Sound, new_channel-Sound}
use pluto_server.Epoll.Sound.Reading.{IsOffered, ended, after_read, on_read-Sound}
use pluto_server.Epoll.Sound.Writing.{on_write-Sound}
use pluto_server.Epoll.Sound.Sending.{on_eventfd-Sound}
use pluto_server.Epoll.Sound.Load.{load_of_all}
use pluto_server.System.Messages.{
  IsReady, frames_in-HasBody, push_packages-IsReady, push_other-IsReady,
}

-- The buffers of all channels are valid, and the queues hold what their receivers can handle.
pub record IsSafe (s : EpollServer) : Type 0 where
  pub buffers : Every (OfBuffers (Sound 0)) s
  pub ready : IsReady s.mq

-- All frames that the bytes complete announce a header at least.
abbrev pub HaveHeaders : Channel → Received → Type 0
HaveHeaders c (bytes news) = All (λ p. 8 ≤ total_length p) (frames (contents c.in_buf ++ news)).0
HaveHeaders c _ = Unit {0}

-- The kernel gives no more than was asked for, which the channel has room for.
abbrev pub FitsRead : EpollServer → FdType → ℕ → Received → Type 0
FitsRead s fdtype fd received =
    (c : Channel)
    → channel_at s fdtype fd ≡ some c
    → IsOffered received × (c.in_buf.write_offset + 1024 ≤ max_buf_size) × HaveHeaders c received

-- Every output has room for so many bytes more.
abbrev pub HasRoomFor : ℕ → Channel → Type 0
HasRoomFor n c = c.out_buf.write_offset + n ≤ max_buf_size

-- A result that is no fault, and safe.
abbrev pub IsSafely : Option EpollServer → Type 0
IsSafely r = (s' : EpollServer) × (r ≡ some s') × IsSafe s'

module _ {heap : Allocator} (good : IsAllocator heap) where
  ended-IsReady :
      (q : MessageQueue) (fdtype : FdType) (fd : ℕ) → IsReady q → IsReady (ended q fdtype fd)
  unfolding mq2s_push_close
  ended-IsReady q fd_type_server fd v = push_other-IsReady q _ (closed fd refl refl) refl v
  ended-IsReady q fd_type_connect fd v = v

  after_read-IsReady :
      (q : MessageQueue) (fdtype : FdType) (fd : ℕ) (c : Channel) (received : Received)
      → HaveHeaders c received
      → IsReady q
      → IsReady (after_read q fdtype fd c received)
  after_read-IsReady q fdtype fd c (bytes (n ∷ more)) h v =
      push_packages-IsReady q fdtype fd _ (frames_in-HasBody _ _ h) v
  after_read-IsReady q fdtype fd c (bytes []) h v = ended-IsReady q fdtype fd v
  after_read-IsReady q fdtype fd c failed h v = ended-IsReady q fdtype fd v
  after_read-IsReady q fdtype fd c closed h v = ended-IsReady q fdtype fd v

  on_read-IsSafe :
      (s : EpollServer) (fdtype : FdType) (fd : ℕ) (received : Received)
      → FitsRead s fdtype fd received
      → IsSafe s
      → IsSafely (on_read heap s fd fdtype received)
  unfolding on_read
  on_read-IsSafe s fdtype fd received fits v = elim (Option-cases (channel_at s fdtype fd)) [
    | inl missing ↦ (s, rw (missing, on_read) refl, v)
    | inr (c, there) ↦
        let (offered, room, headers) = fits c there in
        let (s', reads, buffers, queue) =
          on_read-Sound good s fdtype fd c received there v.buffers room offered in
        (
          s',
          reads,
          record {
            buffers = buffers;
            ready =
                subst IsReady (sym queue)
                  (after_read-IsReady s.mq fdtype fd c received headers v.ready);
          },
        )
  ]

  on_write-IsSafe :
      (send : ℕ → List ℕ → Sent) (s : EpollServer) (fdtype : FdType) (fd : ℕ)
      → IsSocket send
      → IsSafe s
      → IsSafely (on_write send s fd fdtype)
  on_write-IsSafe send s fdtype fd socket v =
      let (s', writes, buffers, queue) = on_write-Sound send socket s fdtype fd v.buffers in
      (s', writes, record { buffers = buffers; ready = subst IsReady (sym queue) v.ready })

  pub read_write-IsSafe :
      (s : EpollServer) (fdtype : FdType) (fd : ℕ) (ev : Events) (received : Received)
      (send : ℕ → List ℕ → Sent)
      → IsSocket send
      → FitsRead s fdtype fd received
      → IsSafe s
      → IsSafely (read_write heap s fd fdtype ev received send)
  unfolding read_write
  read_write-IsSafe s fdtype fd ev received send socket fits v =
      branches IsSafely ev.error _ _ (λ e. (s, refl, v))
        (λ e.
          let (s1, reads, v1) : IsSafely
              (if ev.readable then on_read heap s fd fdtype received else some s) =
            branches IsSafely ev.readable _ _ (λ e. on_read-IsSafe s fdtype fd received fits v)
              (λ e. (s, refl, v)) in
          let (s2, writes, v2) : IsSafely
              (if ev.writable then on_write send s1 fd fdtype else some s1) =
            branches IsSafely ev.writable _ _ (λ e. on_write-IsSafe send s1 fdtype fd socket v1)
              (λ e. (s1, refl, v1)) in
          (s2, bind_some reads _ writes, v2))

  pub connecting-IsSafe :
      (s : EpollServer) (attempt : ℕ → Attempt) → IsSafe s → IsSafe (init_timeout_cb s attempt)
  unfolding init_timeout_cb mq2s_push_tick on_try_connect
  connecting-IsSafe s attempt v = record {
    buffers =
        same-Every (on_try_connect s attempt) _ refl refl
          (on_try_connect-Every (Sound 0) s attempt v.buffers);
    ready = push_other-IsReady s.mq _ (ticked refl) refl v.ready;
  }

  fire-IsReady : (s : EpollServer) (t : Option Timer) → IsReady s.mq → IsReady (fire s t).mq
  unfolding fire mq2s_push_timer
  fire-IsReady s none v = v
  fire-IsReady s (some t) v = elim (Bool-cases (repeats t)) [
    | inl e ↦ rw e (push_other-IsReady s.mq _ (fired _ refl refl) refl v)
    | inr e ↦ rw e (push_other-IsReady s.mq _ (fired _ refl refl) refl v)
  ]

  pub firing-IsSafe : (s : EpollServer) (watcher : ℕ) → IsSafe s → IsSafe (timeout_cb s watcher)
  unfolding timeout_cb on_timer
  firing-IsSafe s watcher v = record {
    buffers = on_timer-Every s watcher v.buffers;
    ready = fire-IsReady s (timer_of watcher s.timer_map) v.ready;
  }

  pub accepting-IsSafe :
      (s : EpollServer) (ev : Events) (conn_fd : ℕ) (watcher : Option ℕ)
      → is_negative conn_fd ≡ false
      → IsSafe s
      → IsSafely (accept_cb s ev conn_fd watcher)
  unfolding accept_cb on_accept
  accepting-IsSafe s ev conn_fd none works v =
      branches IsSafely ev.error _ _ (λ e. (s, refl, v)) (λ e. (s, refl, v))
  accepting-IsSafe s ev conn_fd (some w) works v =
      branches IsSafely ev.error _ _ (λ e. (s, refl, v))
        (λ e. (
          _,
          rw works refl,
          record {
            buffers = on_accept-Every s conn_fd w new_channel-Sound v.buffers;
            ready = v.ready;
          },
        ))

  pub waking-IsSafe :
      (watcher_of : ℕ → ℕ) (s : EpollServer) (ev : Events) (ready : Bool)
      → Every (HasRoomFor (load_of_all s.mq.mq2c)) s
      → IsSafe s
      → IsSafely (eventfd_cb heap watcher_of s ev ready)
  unfolding eventfd_cb on_eventfd
  waking-IsSafe watcher_of s ev false room v =
      branches IsSafely ev.error _ _ (λ e. (s, refl, v)) (λ e. (s, refl, v))
  waking-IsSafe watcher_of s ev true room v =
      branches IsSafely ev.error _ _ (λ e. (s, refl, v))
        (λ e.
          let n = load_of_all s.mq.mq2c in
          let (s', done, buffers, queue) = on_eventfd-Sound good watcher_of s v.ready.loop (
            Every-meet (OfBuffers (Sound 0)) (HasRoomFor n) (OfBuffers (Sound n)) s
              (λ c (valid_in, valid_out, less) fits. (valid_in, valid_out, fits)) v.buffers room) in
          (
            s',
            done,
            record {
              buffers = buffers;
              ready = subst IsReady (sym queue) (record { workers = v.ready.workers; loop = tt });
            },
          ))
