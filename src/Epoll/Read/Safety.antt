-- ===== src/Epoll/Read/Safety.antt =====
-- `OnRead` as a whole: what a delivery of bytes does, and when it is safe.
use pluto_server.Prelude.{
  ℕ, suc, ◌+◌, ◌-◌, ◌≤◌, ◌<◌, ◌≡◌, ◌≢◌, refl, sym, ap, ◌∙◌, arith, length, ltb, List, [], ◌∷◌, ◌++◌,
  none, some, lt→ltb, bind_some, ltb,
}
use pluto_server.Prelude.Dict
use pluto_server.Prelude.Memory.{Allocator, IsAllocator, memcpy-outside}
use pluto_server.Buffer.{extend}
use pluto_server.Buffer.Extend.{IsValid, contents, HasRoom, extend_past, extend-offset}
use pluto_server.Package.Frames.{frames, frames_in, frames_in-conserves}
use pluto_server.Package.Framing.{frame}
use pluto_server.Channel.{Channel}
use pluto_server.Package.{Package}
use pluto_server.MessageQueue.{MessageQueue}
use pluto_server.Util.{FdType, max_buf_size}
use pluto_server.Epoll.{EpollServer, channel_at, set_channel_at, get_channel, update_watcher}
use pluto_server.Epoll.Lookup.{
  channel_at-set, update_watcher-channel_at, update_watcher-mq, channel_at_mq,
  update_watcher-channel_map, update_watcher-connector_list, set_channel_at-others,
  with_mq-channel_at,
}
use pluto_server.Epoll.Read.{bytes, make_free, receive, read_bytes, read_channel, on_read}
use pluto_server.Epoll.Read.Deliver.{push_packages, deliver_while-frames_in, length-contents}
use pluto_server.Epoll.Read.Room.{free_size, make_free-HasRoom, receive-Stored}

-- The channel found once its buffer has room, and the rest of `OnRead` on it.
abbrev pub roomy : Allocator → Channel → Channel
roomy heap c = record c { in_buf = make_free heap c.in_buf }

on_read_bytes :
    (heap : Allocator) (s : EpollServer) (fdtype : FdType) (fd : ℕ) (c : Channel) (n : ℕ)
    (more : List ℕ)
    → channel_at s fdtype fd ≡ some c
    → on_read heap s fd fdtype (bytes (n ∷ more))
      ≡ read_bytes heap
          (set_channel_at s fdtype fd (roomy heap c))
          fd
          fdtype
          (roomy heap c)
          (n ∷ more)
unfolding on_read read_channel
on_read_bytes heap s fdtype fd c n more e = rw (e, on_read) refl

-- What a delivery leaves: the pushed messages are the frames of the bytes held and received, and the
-- channel holds the bytes that framing leaves, in which there is no frame.
pub record Delivered (s : EpollServer) (fdtype : FdType) (fd : ℕ) (c : Channel) (news : List ℕ)
    (s' : EpollServer) : Type 0 where
  pub messages : s'.mq ≡ push_packages s.mq fdtype fd (frames (contents c.in_buf ++ news)).0
  pub channel : Channel
  pub found : channel_at s' fdtype fd ≡ some channel
  pub left : contents channel.in_buf ≡ (frames (contents c.in_buf ++ news)).1
  pub complete : frame (contents channel.in_buf) (length (contents channel.in_buf)) ≡ none
  pub valid : IsValid channel.in_buf
  pub output : channel.out_buf ≡ c.out_buf
  pub others : (other : ℕ) → other ≢ fd → get_channel s' other ≡ get_channel s other

-- The channels afterwards are those before with one of them changed.
pub record Placed (s : EpollServer) (fdtype : FdType) (fd : ℕ) (c : Channel) (s' : EpollServer)
    : Type 0 where
  pub map_is : s'.channel_map ≡ (set_channel_at s fdtype fd c).channel_map
  pub list_is : s'.connector_list ≡ (set_channel_at s fdtype fd c).connector_list

module _ {heap : Allocator} (good : IsAllocator heap) where
  read_bytes-Delivered :
      (s s0 : EpollServer) (fdtype : FdType) (fd : ℕ) (c room : Channel) (news : List ℕ)
      → channel_at s0 fdtype fd ≡ some room
      → s0.mq ≡ s.mq
      → room.out_buf ≡ c.out_buf
      → ((other : ℕ) → other ≢ fd → get_channel s0 other ≡ get_channel s other)
      → HasRoom good c.in_buf 1024 room.in_buf
      → length news ≤ 1024
      → (s' : EpollServer) × (read_bytes heap s0 fd fdtype room news ≡ some s')
        × ((d : Delivered s fdtype fd c news s') × Placed s0 fdtype fd d.channel s')
  unfolding read_bytes
  read_bytes-Delivered s s0 fdtype fd c room news there same out apart had h =
      let (r, stores, stored) = receive-Stored good c.in_buf room.in_buf news had h in
      let (b, delivers, valid, left) =
        deliver_while-frames_in good (suc r.write_offset) fdtype fd (record room { in_buf = r })
          s0.mq stored.valid (omega arith) in
      let framed : frames_in (suc r.write_offset) (contents r)
          ≡ frames (contents c.in_buf ++ news) =
        ap (λ (n : ℕ). frames_in (suc n) (contents r)) (sym (length-contents r stored.valid))
        ∙ ap frames stored.appended in
      let last : Channel = record room { in_buf = b } in
      let mq = push_packages s0.mq fdtype fd (frames_in (suc r.write_offset) (contents r)).0 in
      let set = set_channel_at s0 fdtype fd last in
      (
        update_watcher (record set { mq = mq }) fd (ltb 0 room.out_buf.write_offset)
            room.io_watcher,
        bind_some stores _ (bind_some delivers _ refl),
        (
          record {
            messages =
                update_watcher-mq (record set { mq = mq }) fd (ltb 0 room.out_buf.write_offset)
                  room.io_watcher
                ∙ ap (λ (ps : List Package). push_packages s0.mq fdtype fd ps)
                    (ap (λ (fs : List Package × List ℕ). fs.0) framed)
                ∙ ap
                    (λ (q : MessageQueue).
                      push_packages q fdtype fd (frames (contents c.in_buf ++ news)).0)
                    same;
            channel = last;
            found =
                update_watcher-channel_at (record set { mq = mq }) fd fd
                  (ltb 0 room.out_buf.write_offset) room.io_watcher fdtype
                ∙ with_mq-channel_at set mq fdtype fd
                ∙ channel_at-set s0 fdtype fd room last there refl;
            left = left ∙ ap (λ (fs : List Package × List ℕ). fs.1) framed;
            complete =
                rw (left ∙ ap (λ (fs : List Package × List ℕ). fs.1) framed)
                  (frames_in-conserves (suc (length (contents c.in_buf ++ news)))
                    (contents c.in_buf ++ news) (omega arith)).1;
            valid = valid;
            output = out;
            others = λ other n.
                ap (Dict.find other) (
                  update_watcher-channel_map (record set { mq = mq }) fd
                    (ltb 0 room.out_buf.write_offset) room.io_watcher)
                ∙ set_channel_at-others s0 fdtype fd other last n
                ∙ apart other n;
          },
          record {
            map_is =
                update_watcher-channel_map (record set { mq = mq }) fd
                  (ltb 0 room.out_buf.write_offset) room.io_watcher;
            list_is =
                update_watcher-connector_list (record set { mq = mq }) fd
                  (ltb 0 room.out_buf.write_offset) room.io_watcher;
          },
        ),
      )

  -- The same, with where the channels are.
  pub on_read-Placed :
      (s : EpollServer) (fdtype : FdType) (fd : ℕ) (c : Channel) (n : ℕ) (more : List ℕ)
      → channel_at s fdtype fd ≡ some c
      → IsValid c.in_buf
      → c.in_buf.write_offset + 1024 ≤ max_buf_size
      → length (n ∷ more) ≤ 1024
      → (s' : EpollServer) × (on_read heap s fd fdtype (bytes (n ∷ more)) ≡ some s')
        × ((d : Delivered s fdtype fd c (n ∷ more) s') × Placed
              (set_channel_at s fdtype fd (roomy heap c))
              fdtype
              fd
              d.channel
              s')
  on_read-Placed s fdtype fd c n more there v room h =
      let (s', reads, d) =
        read_bytes-Delivered s (set_channel_at s fdtype fd (roomy heap c)) fdtype fd c
          (roomy heap c) (n ∷ more) (channel_at-set s fdtype fd c (roomy heap c) there refl)
          (channel_at_mq s fdtype fd (roomy heap c)) refl
          (λ other n. set_channel_at-others s fdtype fd other (roomy heap c) n)
          (make_free-HasRoom good c.in_buf v room) h in
      (s', on_read_bytes heap s fdtype fd c n more there ∙ reads, d)

  -- `OnRead` on a channel whose bytes leave room for 1024 more, when up to 1024 bytes come: it does
  -- not fault; it pushes exactly the frames of the bytes held and received, in order; and the channel
  -- keeps the bytes that framing leaves, in which there is no frame, with its output untouched.
  pub on_read-Delivered :
      (s : EpollServer) (fdtype : FdType) (fd : ℕ) (c : Channel) (news : List ℕ)
      → channel_at s fdtype fd ≡ some c
      → IsValid c.in_buf
      → c.in_buf.write_offset + 1024 ≤ max_buf_size
      → news ≢ []
      → length news ≤ 1024
      → (s' : EpollServer) × (on_read heap s fd fdtype (bytes news) ≡ some s')
        × Delivered s fdtype fd c news s'
  on_read-Delivered s fdtype fd c [] there v room some_bytes h = absurd (some_bytes refl)
  on_read-Delivered s fdtype fd c (n ∷ more) there v room some_bytes h =
      let (s', reads, both) = on_read-Placed s fdtype fd c n more there v room h in
      (s', reads, both.0)

-- Where the bytes held leave less than 1024 under the limit, `OnRead` still offers the kernel 1024: a
-- delivery that crosses the limit is written behind the end of the allocation.
pub on_read_overruns :
    (heap : Allocator) (s : EpollServer) (fdtype : FdType) (fd : ℕ) (c : Channel) (news : List ℕ)
    → channel_at s fdtype fd ≡ some c
    → IsValid c.in_buf
    → length news ≤ 1024
    → max_buf_size < c.in_buf.write_offset + length news
    → on_read heap s fd fdtype (bytes news) ≡ none
unfolding read_bytes receive make_free
on_read_overruns heap s fdtype fd c [] there v h over = absurd (omega arith)
on_read_overruns heap s fdtype fd c (n ∷ more) there v h over =
    on_read_bytes heap s fdtype fd c n more there
    ∙ rw
        (
          free_size c.in_buf v,
          lt→ltb (c.in_buf.alloc_size - c.in_buf.write_offset) 1024 (omega arith),
          extend-offset heap c.in_buf 1024,
          memcpy-outside (extend heap c.in_buf 1024).block c.in_buf.write_offset (n ∷ more)
              (suc (length more))
              (omega (
                arith,
                ap (λ (block : List ℕ). length block)
                    (extend_past heap c.in_buf 1024 (omega arith) (omega arith)),
              )),
        )
        refl
