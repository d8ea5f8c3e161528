-- ===== src/Epoll/Read/Fragments.antt =====
-- `OnRead` called twice: how the stream was cut up by the network makes no difference to the packages.
use pluto_server.Prelude.{
  ℕ, suc, ◌+◌, ◌≤◌, ◌≡◌, ◌≢◌, refl, sym, ap, ◌∙◌, arith, List, [], ◌∷◌, ◌++◌, append_assoc, length,
  length-append, some,
}
use pluto_server.Prelude.Memory.{Allocator, IsAllocator}
use pluto_server.Buffer.Extend.{IsValid, contents}
use pluto_server.Package.{Package}
use pluto_server.Package.Frames.{frames, wire_bytes, frames_in-conserves, frames-append}
use pluto_server.Channel.{Channel}
use pluto_server.MessageQueue.{MessageQueue}
use pluto_server.Util.{FdType, max_buf_size}
use pluto_server.Epoll.{EpollServer, channel_at}
use pluto_server.Epoll.Read.{bytes, on_read, push_package}
use pluto_server.Epoll.Read.Deliver.{push_packages, length-contents}
use pluto_server.Epoll.Read.Safety.{Delivered, on_read-Delivered}

push_packages-append :
    (mq : MessageQueue) (fdtype : FdType) (fd : ℕ) (ps qs : List Package)
    → push_packages (push_packages mq fdtype fd ps) fdtype fd qs
      ≡ push_packages mq fdtype fd (ps ++ qs)
push_packages-append mq fdtype fd [] qs = refl
push_packages-append mq fdtype fd (p ∷ ps) qs =
    push_packages-append (push_package mq fdtype fd p) fdtype fd ps qs

-- What framing leaves is no longer than what it was given.
rest-le : (q : List ℕ) → length (frames q).1 ≤ length q
rest-le q = omega (
  arith,
  length-append (wire_bytes (frames q).0) (frames q).1,
  ap (λ (bytes : List ℕ). length bytes) (frames_in-conserves (suc (length q)) q (omega arith)).0,
)

-- Two deliveries, where the first leaves the room that the second needs, do what one delivery of all
-- their bytes would: the packages pushed are the frames of all bytes held and received, in order, and
-- the channel keeps the bytes that framing leaves of them. No call faults.
pub on_read_fragments :
    {heap : Allocator}
    → IsAllocator heap
    → (s : EpollServer) (fdtype : FdType) (fd : ℕ) (c : Channel) (news more : List ℕ)
    → channel_at s fdtype fd ≡ some c
    → IsValid c.in_buf
    → c.in_buf.write_offset + length news + 1024 ≤ max_buf_size
    → news ≢ []
    → more ≢ []
    → length news ≤ 1024
    → length more ≤ 1024
    → (s1 s2 : EpollServer) × (on_read heap s fd fdtype (bytes news) ≡ some s1)
      × (on_read heap s1 fd fdtype (bytes more) ≡ some s2)
      × Delivered s fdtype fd c (news ++ more) s2
on_read_fragments good s fdtype fd c news more there v room some_news some_more h h' =
    let (s1, reads1, d1) =
      on_read-Delivered good s fdtype fd c news there v (omega arith) some_news h in
    let q = contents c.in_buf ++ news in
    let fits : d1.channel.in_buf.write_offset + 1024 ≤ max_buf_size = omega (
      arith,
      length-contents d1.channel.in_buf d1.valid,
      length-contents c.in_buf v,
      ap (λ (bytes : List ℕ). length bytes) d1.left,
      rest-le q,
      length-append (contents c.in_buf) news,
    ) in
    let (s2, reads2, d2) =
      on_read-Delivered good s1 fdtype fd d1.channel more d1.found d1.valid fits some_more h' in
    let all : frames (contents c.in_buf ++ (news ++ more))
        ≡ ((frames q).0 ++ (frames ((frames q).1 ++ more)).0, (frames ((frames q).1 ++ more)).1) =
      ap frames (sym (append_assoc (contents c.in_buf) news more)) ∙ frames-append q more in
    (
      s1,
      s2,
      reads1,
      reads2,
      record {
        messages = rw all (
            d2.messages
            ∙ rw (d1.messages, d1.left)
                (push_packages-append s.mq fdtype fd (frames q).0
                  (frames ((frames q).1 ++ more)).0));
        channel = d2.channel;
        found = d2.found;
        left = rw all (d2.left ∙ rw d1.left refl);
        complete = d2.complete;
        valid = d2.valid;
        output = d2.output ∙ d1.output;
        others = λ other n. d2.others other n ∙ d1.others other n;
      },
    )
