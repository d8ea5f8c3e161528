-- ===== src/Epoll/Peer/Hearing.antt =====
-- `OnRead` on the first connector, of a package that comes in one piece.

use pluto_server.Prelude.{ℕ, ◌≡◌, refl, ap, ◌∙◌, arith, List, [], ◌∷◌, ◌++◌, some, take}
use pluto_server.Prelude.Memory.{Allocator, IsAllocator}
use pluto_server.Buffer.Extend.{IsValid, contents}
use pluto_server.Package.{Package}
use pluto_server.Package.RoundTrip.{message, wire}
use pluto_server.Package.Frames.{frames}
use pluto_server.Channel.{Channel, Connector}
use pluto_server.MessageQueue.{Message, MessageQueue, pack, mq2s_push, push_mq2s}
use pluto_server.Util.{fd_type_connect, mq_type_connect}
use pluto_server.Epoll.{EpollServer, update_connector, has_fd, with_channel}
use pluto_server.Epoll.Read.{bytes, on_read}
use pluto_server.Epoll.Read.Deliver.{push_packages}
use pluto_server.Epoll.Read.Request.{IsRequest, request-frames, sent_all}
use pluto_server.Epoll.Read.Safety.{roomy, on_read-Placed}
use pluto_server.Epoll.Peer.{InPlace, update_first, first_there}

-- The message that the workers get of a package of another server.
abbrev pub reply_message : ℕ → ℕ → List ℕ → Message
reply_message command_id sub_id text = record {
  uniqid = some 0;
  payload = pack (message command_id sub_id text 0);
  kind = mq_type_connect;
}

with_reply :
    (q : MessageQueue) (fd command_id sub_id : ℕ) (text : List ℕ)
    → push_packages q fd_type_connect fd (message command_id sub_id text 0 ∷ [])
      ≡ push_mq2s q (reply_message command_id sub_id text)
unfolding mq2s_push
with_reply q fd command_id sub_id text = refl

-- What `OnRead` leaves of a package that comes in one piece.
pub record Heard (s : EpollServer) (k : Connector) (rest : List Connector) (m : Message)
    (s' : EpollServer) : Type 0 where
  pub queued : s'.mq ≡ push_mq2s s.mq m
  pub channel : Channel
  pub placed : InPlace s k rest channel s'
  pub emptied : contents channel.in_buf ≡ []
  pub valid : IsValid channel.in_buf
  pub output : channel.out_buf ≡ k.channel.out_buf

pub on_read-Heard :
    {heap : Allocator}
    → IsAllocator heap
    → (s : EpollServer) (fd : ℕ) (k : Connector) (rest : List Connector) (command_id sub_id : ℕ)
      (text : List ℕ)
    → s.connector_list ≡ k ∷ rest
    → k.channel.fd ≡ fd
    → IsValid k.channel.in_buf
    → k.channel.in_buf.write_offset ≡ 0
    → IsRequest command_id sub_id text
    → (s' : EpollServer) × (on_read heap s fd fd_type_connect
          (bytes (wire command_id sub_id text []))
        ≡ some s')
      × Heard s k rest (reply_message command_id sub_id text) s'
on_read-Heard {heap} good s fd k rest command_id sub_id text list at valid empty r =
    let news = wire command_id sub_id text [] in
    let c = k.channel in
    let (s1, reads, (d, p)) =
      on_read-Placed good s fd_type_connect fd c _ _ (first_there s fd k rest list at) valid
        (omega arith) (omega (arith, sent_all good command_id sub_id text r, r.short)) in
    let framed : frames (contents c.in_buf ++ news) ≡ (message command_id sub_id text 0 ∷ [], []) =
      ap (λ n. frames (take n c.in_buf.block ++ news)) empty
      ∙ request-frames good command_id sub_id text r in
    (
      s1,
      reads,
      record {
        queued =
            d.messages
            ∙ ap (λ (x : List Package × List ℕ). push_packages s.mq fd_type_connect fd x.0) framed
            ∙ with_reply s.mq fd command_id sub_id text;
        channel = d.channel;
        placed = record {
          stands =
              p.list_is
              ∙ ap (update_connector (has_fd fd) (with_channel d.channel)) (
                  ap (update_connector (has_fd fd) (with_channel (roomy heap c))) list
                  ∙ update_first fd (with_channel (roomy heap c)) k rest at)
              ∙ update_first fd (with_channel d.channel) (with_channel (roomy heap c) k) rest at;
          channels = p.map_is;
        };
        emptied = d.left ∙ ap (λ (x : List Package × List ℕ). x.1) framed;
        valid = d.valid;
        output = d.output;
      },
    )
