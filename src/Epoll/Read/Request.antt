-- ===== src/Epoll/Read/Request.antt =====
-- `OnRead` on a request that comes in one piece.

use pluto_server.Prelude.{
  ℕ, ◌+◌, ◌^◌, ◌≤◌, ◌<◌, ◌≡◌, ◌≢◌, refl, sym, ap, ◌∙◌, arith, List, [], ◌∷◌, ◌++◌, some, some_inj,
  length, take, drop, drop_all, length-append,
}
use pluto_server.Prelude.Memory.{Allocator, IsAllocator}
use pluto_server.Buffer.Extend.{IsValid, contents}
use pluto_server.Channel.{Channel}
use pluto_server.Stream.Integers.{IsPlain16, IsPlain32}
use pluto_server.Package.{Package, body_text}
use pluto_server.Package.Body.{IsText}
use pluto_server.Package.Framing.{frame, read_pdu-frame}
use pluto_server.Package.Frames.{frames, frames_in, frames_in_step, frames_in_end}
use pluto_server.Package.RoundTrip.{message, wire, read_pdu-wire}
use pluto_server.MessageQueue.{Message, MessageQueue, pack, mq2s_push, push_mq2s}
use pluto_server.Util.{fd_type_server, mq_type_pack}
use pluto_server.Epoll.{EpollServer, get_channel}
use pluto_server.Epoll.Read.{bytes, on_read}
use pluto_server.Epoll.Read.Deliver.{push_packages}
use pluto_server.Epoll.Read.Safety.{on_read-Delivered}

-- A request that the wire carries as it is.
pub record IsRequest (command_id sub_id : ℕ) (text : List ℕ) : Type 0 where
  pub is_text : IsText text
  pub command_small : command_id < 2 ^ 15
  pub sub_small : sub_id < 2 ^ 15
  pub plain_length : IsPlain32 (8 + length text)
  pub plain_command : IsPlain16 command_id
  pub plain_sub : IsPlain16 sub_id
  pub short : 8 + length text ≤ 1024

-- The message that the workers get of it.
abbrev pub request : ℕ → ℕ → ℕ → List ℕ → Message
request fd command_id sub_id text = record {
  uniqid = some fd;
  payload = pack (message command_id sub_id text 0);
  kind = mq_type_pack;
}

module _ {heap : Allocator} (good : IsAllocator heap) (command_id sub_id : ℕ) (text : List ℕ)
    (r : IsRequest command_id sub_id text) where
  pub sent_all : length (wire command_id sub_id text []) ≡ 8 + length text
  sent_all = omega (arith, length-append text [])

  pub request-frame :
      (frame (wire command_id sub_id text []) (length (wire command_id sub_id text []))
        ≡ some (message command_id sub_id text 0))
      × (body_text (message command_id sub_id text 0) ≡ some text)
  request-frame =
      let whole = wire command_id sub_id text [] in
      let short : length whole < 2 ^ 31 = omega (arith, sent_all, r.short) in
      let (reads, body) =
        read_pdu-wire good command_id sub_id text [] r.is_text short r.command_small r.sub_small
          r.plain_length r.plain_command r.plain_sub in
      (
        some_inj
            (sym (read_pdu-frame good whole (length whole) (omega arith) (omega arith)) ∙ reads),
        body,
      )

  pub request-frames :
      frames (wire command_id sub_id text []) ≡ (message command_id sub_id text 0 ∷ [], [])
  request-frames =
      let whole = wire command_id sub_id text [] in
      let rest : drop (8 + length text) whole ≡ [] =
        drop_all (8 + length text) whole (omega (arith, sent_all)) in
      frames_in_step (length whole) whole (message command_id sub_id text 0) request-frame.0
      ∙ ap (λ (x : List Package × List ℕ). (message command_id sub_id text 0 ∷ x.0, x.1))
          (ap (frames_in (length whole)) rest ∙ frames_in_end (length whole) [] refl)

-- A queue with one request.
with_request :
    (q : MessageQueue) (fd command_id sub_id : ℕ) (text : List ℕ)
    → mq2s_push q fd mq_type_pack (message command_id sub_id text 0)
      ≡ push_mq2s q (request fd command_id sub_id text)
unfolding mq2s_push
with_request q fd command_id sub_id text = refl

-- What reading the request leaves.
pub record Received (s : EpollServer) (fd : ℕ) (c : Channel) (m : Message) (s1 : EpollServer)
    : Type 0 where
  pub queued : s1.mq ≡ push_mq2s s.mq m
  pub channel : Channel
  pub found : get_channel s1 fd ≡ some channel
  pub emptied : contents channel.in_buf ≡ []
  pub valid : IsValid channel.in_buf
  pub output : channel.out_buf ≡ c.out_buf
  pub others : (other : ℕ) → other ≢ fd → get_channel s1 other ≡ get_channel s other

pub on_read-Received :
    {heap : Allocator}
    → IsAllocator heap
    → (s : EpollServer) (fd : ℕ) (c : Channel) (command_id sub_id : ℕ) (text : List ℕ)
    → get_channel s fd ≡ some c
    → IsValid c.in_buf
    → c.in_buf.write_offset ≡ 0
    → IsRequest command_id sub_id text
    → (s1 : EpollServer) × (on_read heap s fd fd_type_server
          (bytes (wire command_id sub_id text []))
        ≡ some s1)
      × Received s fd c (request fd command_id sub_id text) s1
on_read-Received good s fd c command_id sub_id text there valid empty r =
    let news = wire command_id sub_id text [] in
    let (s1, reads, d) =
      on_read-Delivered good s fd_type_server fd c news there valid (omega arith) (λ e. cc)
        (omega (arith, sent_all good command_id sub_id text r, r.short)) in
    let framed : frames (contents c.in_buf ++ news) ≡ (message command_id sub_id text 0 ∷ [], []) =
      ap (λ n. frames (take n c.in_buf.block ++ news)) empty
      ∙ request-frames good command_id sub_id text r in
    (
      s1,
      reads,
      record {
        queued =
            d.messages
            ∙ ap (λ (x : List Package × List ℕ). push_packages s.mq fd_type_server fd x.0) framed
            ∙ with_request s.mq fd command_id sub_id text;
        channel = d.channel;
        found = d.found;
        emptied = d.left ∙ ap (λ (x : List Package × List ℕ). x.1) framed;
        valid = d.valid;
        output = d.output;
        others = d.others;
      },
    )
