-- ===== src/Epoll/Eventfd/Connectors.antt =====
-- What `OnEventfd` does with a message for another server.
use pluto_server.Prelude.{
  ℕ, ◌+◌, ◌≤◌, ◌≡◌, refl, sym, ap, ◌∙◌, Bool, List, [], ◌∷◌, ◌++◌, Option, some, some_inj,
  Bool-cases, inl, inr, length, take, ltb, if◌then◌else◌,
}
use pluto_server.Prelude.Memory.{Allocator, IsAllocator}
use pluto_server.Buffer.Extend.{IsValid, contents}
use pluto_server.Buffer.Queue.{write-Wrote}
use pluto_server.Channel.{Channel, Connector}
use pluto_server.Package.{Package, get_buffer, total_length}
use pluto_server.Util.{max_buf_size, mq_type_connect}
use pluto_server.MessageQueue.{pack}
use pluto_server.Epoll.{
  EpollServer, userful_connector, update_connector, update_watcher, with_channel,
}
use pluto_server.Epoll.Lookup.{
  update_watcher-mq, update_watcher-channel_map, update_watcher-connector_list,
}
use pluto_server.Epoll.Eventfd.{append_package, send_connector, on_message}

-- Where the first connected connector stands, and what changing it changes.
record Stands (cs : List Connector) (k : Connector) : Type 0 where
  before : List Connector
  after : List Connector
  at : cs ≡ before ++ (k ∷ after)
  changed :
      (f : Connector → Connector) → update_connector (λ c. c.success) f cs ≡ before ++ (f k ∷ after)

userful_connector-Stands :
    (cs : List Connector) (k : Connector) → userful_connector cs ≡ some k → Stands cs k
unfolding userful_connector update_connector
userful_connector-Stands [] k e = cc
userful_connector-Stands (c ∷ cs) k e =
    let test : Bool → Option Connector = λ b. if b then some c else userful_connector cs in
    let next : (Connector → Connector) → Bool → List Connector =
      λ f b. if b then f c ∷ cs else c ∷ update_connector (λ x. x.success) f cs in
    elim (Bool-cases c.success) [
      | inl connected ↦
          let same : c ≡ k = some_inj (sym (ap test connected) ∙ e) in
          record {
            before = [];
            after = cs;
            at = ap (λ x. x ∷ cs) same;
            changed = λ f. ap (next f) connected ∙ ap (λ x. f x ∷ cs) same;
          }
      | inr apart ↦
          let later = userful_connector-Stands cs k (sym (ap test apart) ∙ e) in
          record {
            before = c ∷ later.before;
            after = later.after;
            at = ap (λ x. c ∷ x) later.at;
            changed = λ f. ap (next f) apart ∙ ap (λ x. c ∷ x) (later.changed f);
          }
    ]

-- What sending to a connector leaves: its place and its address are as they were, the package's bytes stand
-- behind its output, and no other connector, no channel and no queue has changed.
pub record SentOn (s : EpollServer) (k : Connector) (p : Package) (s' : EpollServer) : Type 0 where
  pub before : List Connector
  pub after : List Connector
  pub stood : s.connector_list ≡ before ++ (k ∷ after)
  pub channel : Channel
  pub stands : s'.connector_list ≡ before ++ (with_channel channel k ∷ after)
  pub appended :
      contents channel.out_buf ≡ contents k.channel.out_buf ++ take (total_length p) (get_buffer p)
  pub valid : IsValid channel.out_buf
  pub input : channel.in_buf ≡ k.channel.in_buf
  pub channels : s'.channel_map ≡ s.channel_map
  pub queues : s'.mq ≡ s.mq

-- A message for another server, while one is connected whose output is valid and has room for it: it does
-- not fault, and appends the package to the output of the first connected one, which stays connected at
-- its place, and changes no other connector, no channel and no queue.
pub on_message-SentOn :
    {heap : Allocator}
    → IsAllocator heap
    → (watcher_of : ℕ → ℕ) (s : EpollServer) (k : Connector) (p : Package) (uniqid : Option ℕ)
    → userful_connector s.connector_list ≡ some k
    → IsValid k.channel.out_buf
    → total_length p ≤ length (get_buffer p)
    → k.channel.out_buf.write_offset + total_length p ≤ max_buf_size
    → (s' : EpollServer) × (on_message heap watcher_of s
          (record { uniqid = uniqid; payload = pack p; kind = mq_type_connect })
        ≡ some s')
      × SentOn s k p s'
unfolding on_message send_connector append_package
on_message-SentOn good watcher_of s k p uniqid there v held fits =
    let (b, writes, wrote) =
      write-Wrote good k.channel.out_buf (get_buffer p) (total_length p) v held fits in
    let stands = userful_connector-Stands s.connector_list k there in
    let channel : Channel = record k.channel { out_buf = b } in
    let set : EpollServer = record s {
      connector_list = update_connector (λ c. c.success) (with_channel channel) s.connector_list;
    } in
    (
      update_watcher set k.channel.fd (ltb 0 b.write_offset) k.channel.io_watcher,
      rw (there, send_connector, append_package, writes) refl,
      record {
        before = stands.before;
        after = stands.after;
        stood = stands.at;
        channel = channel;
        stands = update_watcher-connector_list set _ _ _ ∙ stands.changed (with_channel channel);
        appended = wrote.appended;
        valid = wrote.valid;
        input = refl;
        channels = update_watcher-channel_map set _ _ _;
        queues = update_watcher-mq set _ _ _;
      },
    )
