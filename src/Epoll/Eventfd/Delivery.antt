-- ===== src/Epoll/Eventfd/Delivery.antt =====
-- What the event loop does with the messages of the workers.
use pluto_server.Prelude.{
  ℕ, ◌+◌, ◌≤◌, ◌≡◌, ◌≢◌, refl, ap, ◌∙◌, arith, ◌++◌, none, some, ==_self, ltb, length, take,
}
use pluto_server.Prelude.Dict
use pluto_server.Prelude.Memory.{Allocator, IsAllocator}
use pluto_server.Buffer.Extend.{IsValid, contents}
use pluto_server.Buffer.Queue.{write-Wrote}
use pluto_server.Channel.{Channel}
use pluto_server.Package.{Package, get_buffer, total_length}
use pluto_server.Util.{fd_type_server, max_buf_size}
use pluto_server.Epoll.{EpollServer, get_channel, set_channel_at, update_watcher}
use pluto_server.Epoll.Lookup.{update_watcher-channel_map, update_watcher-mq}
use pluto_server.Epoll.Eventfd.{append_package, send_pack}

-- What sending to a channel leaves: that channel holds the package's bytes behind its own, every other
-- channel is as it was, and so are the queues.
pub record Sent (s : EpollServer) (fd : ℕ) (c : Channel) (p : Package) (s' : EpollServer)
    : Type 0 where
  pub channel : Channel
  pub found : get_channel s' fd ≡ some channel
  pub appended :
      contents channel.out_buf ≡ contents c.out_buf ++ take (total_length p) (get_buffer p)
  pub valid : IsValid channel.out_buf
  pub input : channel.in_buf ≡ c.in_buf
  pub others : (other : ℕ) → other ≢ fd → get_channel s' other ≡ get_channel s other
  pub queues : s'.mq ≡ s.mq

-- A package for a channel that is there and has room for it is appended to that channel's output and to
-- nothing else, without fault.
pub send_pack-Sent :
    {heap : Allocator}
    → IsAllocator heap
    → (s : EpollServer) (fd : ℕ) (c : Channel) (p : Package) → get_channel s fd ≡ some c
    → IsValid c.out_buf
    → total_length p ≤ length (get_buffer p)
    → c.out_buf.write_offset + total_length p ≤ max_buf_size
    → (s' : EpollServer) × (send_pack heap s fd p ≡ some s') × Sent s fd c p s'
unfolding send_pack append_package
send_pack-Sent {heap} good s fd c p there v held fits =
    let (b, writes, wrote) =
      write-Wrote good c.out_buf (get_buffer p) (total_length p) v held fits in
    let after : Channel = record c { out_buf = b } in
    let set = set_channel_at s fd_type_server fd after in
    (
      update_watcher set fd (ltb 0 b.write_offset) c.io_watcher,
      rw (there, send_pack, append_package, writes) refl,
      record {
        channel = after;
        found =
            ap (Dict.find fd)
              (update_watcher-channel_map set fd (ltb 0 b.write_offset) c.io_watcher)
            ∙ Dict.find-update fd fd after c s.channel_map there
            ∙ rw (==_self fd) refl;
        appended = wrote.appended;
        valid = wrote.valid;
        input = refl;
        others = λ other h.
            ap (Dict.find other)
              (update_watcher-channel_map set fd (ltb 0 b.write_offset) c.io_watcher)
            ∙ Dict.find-update fd other after c s.channel_map there
            ∙ ground (arith, h);
        queues = update_watcher-mq set fd (ltb 0 b.write_offset) c.io_watcher;
      },
    )

-- A package for a descriptor that has no channel is dropped.
pub send_pack_missing :
    (heap : Allocator) (s : EpollServer) (fd : ℕ) (p : Package)
    → get_channel s fd ≡ none
    → send_pack heap s fd p ≡ some s
unfolding send_pack
send_pack_missing heap s fd p e = rw (e, send_pack) refl
