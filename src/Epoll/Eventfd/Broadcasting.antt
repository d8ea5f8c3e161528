-- ===== src/Epoll/Eventfd/Broadcasting.antt =====
-- `OnEventfd`: whom a broadcast reaches.
use pluto_server.Prelude.{
  ℕ, ◌+◌, ◌≤◌, ◌≡◌, ◌≢◌, ◌==◌, refl, sym, ap, ◌∙◌, arith, Bool, List, [], ◌∷◌, ◌++◌, Option, none,
  some, some_inj, length, length-append, length-take, append_assoc, append-nil, All, ℕ_discrete,
  inl, inr, Option-cases, bind_some, if◌then◌else◌,
}
use mathlib.Core.Path.{subst}
use pluto_server.Prelude.Memory.{Allocator, IsAllocator}
use pluto_server.Buffer.Extend.{IsValid, contents}
use pluto_server.Channel.{Channel}
use pluto_server.MessageQueue.{broad}
use pluto_server.Util.{mq_type_broadcast, max_buf_size}
use pluto_server.Package.{Package, get_buffer, total_length}
use pluto_server.Package.Arrival.{sent_bytes}
use pluto_server.Epoll.{EpollServer, get_channel}
use pluto_server.Epoll.Eventfd.{send_broadcast, on_message}
use pluto_server.Epoll.Eventfd.Delivery.{Sent, send_pack-Sent, send_pack_missing}

-- The bytes, once for each time that the list names the descriptor.
abbrev pub copies : ℕ → List ℕ → List ℕ → List ℕ
copies fd [] b = []
copies fd (x ∷ fds) b = if fd == x then b ++ copies fd fds b else copies fd fds b

copies_here : (fd x : ℕ) (fds b : List ℕ) → fd ≡ x → copies fd (x ∷ fds) b ≡ b ++ copies fd fds b
copies_here fd x fds b same = ground (arith, same)

copies_apart : (fd x : ℕ) (fds b : List ℕ) → fd ≢ x → copies fd (x ∷ fds) b ≡ copies fd fds b
copies_apart fd x fds b apart = ground (arith, apart)

-- The output of each open channel is valid and has room for its copies.
abbrev pub HasRoom : EpollServer → List ℕ → List ℕ → Type 0
HasRoom s fds b =
    (fd : ℕ) (c : Channel)
    → get_channel s fd ≡ some c
    → IsValid c.out_buf × (length (contents c.out_buf) + length (copies fd fds b) ≤ max_buf_size)

-- The copies stand behind what each open channel held, and nothing else has changed.
pub record Reached (s : EpollServer) (fds b : List ℕ) (s' : EpollServer) : Type 0 where
  pub listed :
      (fd : ℕ) (c : Channel)
      → get_channel s fd ≡ some c
      → (c' : Channel) × (get_channel s' fd ≡ some c')
        × (contents c'.out_buf ≡ contents c.out_buf ++ copies fd fds b)
        × IsValid c'.out_buf
        × (c'.in_buf ≡ c.in_buf)
  pub unlisted : (fd : ℕ) → All (λ x. fd ≢ x) fds → get_channel s' fd ≡ get_channel s fd
  pub missing : (fd : ℕ) → get_channel s fd ≡ none → get_channel s' fd ≡ none
  pub queues : s'.mq ≡ s.mq

-- A round that finds no channel leaves the room.
room_skips :
    (s : EpollServer) (x : ℕ) (fds b : List ℕ)
    → get_channel s x ≡ none
    → HasRoom s (x ∷ fds) b
    → HasRoom s fds b
room_skips s x fds b absent room fd c there =
    let (v, fits) = room fd c there in
    (
      v,
      subst (λ n. length (contents c.out_buf) + length n ≤ max_buf_size)
          (copies_apart fd x fds b (λ same. cc)) fits,
    )

-- A round that finds none changes nothing.
skipping-Reached :
    (s : EpollServer) (x : ℕ) (fds b : List ℕ) (s' : EpollServer)
    → get_channel s x ≡ none
    → Reached s fds b s'
    → Reached s (x ∷ fds) b s'
skipping-Reached s x fds b s' absent r = record {
  listed = λ fd c there.
      let (c', found, holds, v, input) = r.listed fd c there in
      (
        c',
        found,
        holds ∙ ap (λ n. contents c.out_buf ++ n) (sym (copies_apart fd x fds b (λ same. cc))),
        v,
        input,
      );
  unlisted = λ fd apart. r.unlisted fd apart.1;
  missing = r.missing;
  queues = r.queues;
}

-- The room that is left when the package has gone to the channel found.
room_sends :
    (s s1 : EpollServer) (x : ℕ) (fds : List ℕ) (p : Package) (c : Channel)
    → get_channel s x ≡ some c
    → Sent s x c p s1
    → HasRoom s (x ∷ fds) (sent_bytes p)
    → HasRoom s1 fds (sent_bytes p)
room_sends s s1 x fds p c there sent room fd d found = elim (ℕ_discrete fd x) [
  | yes same ↦
      let it : d ≡ sent.channel = some_inj (sym found ∙ (ap (get_channel s1) same ∙ sent.found)) in
      let (v, fits) = room fd c (ap (get_channel s) same ∙ there) in
      let now : length (contents sent.channel.out_buf)
          ≡ length (contents c.out_buf) + length (sent_bytes p) =
        ap length sent.appended ∙ length-append (contents c.out_buf) (sent_bytes p) in
      let all : length (copies fd (x ∷ fds) (sent_bytes p))
          ≡ length (sent_bytes p) + length (copies fd fds (sent_bytes p)) =
        ap length (copies_here fd x fds (sent_bytes p) same)
        ∙ length-append (sent_bytes p) (copies fd fds (sent_bytes p)) in
      subst
        (λ (y : Channel).
          IsValid y.out_buf
          × (length (contents y.out_buf) + length (copies fd fds (sent_bytes p)) ≤ max_buf_size))
        (sym it) (sent.valid, omega (arith, now, all, fits))
  | no apart ↦
      let (v, fits) = room fd d (sym (sent.others fd apart) ∙ found) in
      (
        v,
        subst (λ n. length (contents d.out_buf) + length n ≤ max_buf_size)
            (copies_apart fd x fds (sent_bytes p) apart) fits,
      )
]

sending-Reached :
    (s s1 s' : EpollServer) (x : ℕ) (fds : List ℕ) (p : Package) (c : Channel)
    → get_channel s x ≡ some c
    → Sent s x c p s1
    → Reached s1 fds (sent_bytes p) s'
    → Reached s (x ∷ fds) (sent_bytes p) s'
sending-Reached s s1 s' x fds p c there sent r = record {
  listed = λ fd d found. elim (ℕ_discrete fd x) [
    | yes same ↦
        let (c', found', holds, v, input) =
          r.listed fd sent.channel (ap (get_channel s1) same ∙ sent.found) in
        let it : d ≡ c = some_inj (sym found ∙ (ap (get_channel s) same ∙ there)) in
        (
          c',
          found',
          holds
              ∙ (ap (λ n. n ++ copies fd fds (sent_bytes p)) sent.appended
                  ∙ (append_assoc (contents c.out_buf) (sent_bytes p) (copies fd fds (sent_bytes p))
                      ∙ (ap (λ n. contents c.out_buf ++ n)
                            (sym (copies_here fd x fds (sent_bytes p) same))
                          ∙ ap
                              (λ (y : Channel).
                                contents y.out_buf ++ copies fd (x ∷ fds) (sent_bytes p))
                              (sym it)))),
          v,
          input ∙ (sent.input ∙ ap (λ (y : Channel). y.in_buf) (sym it)),
        )
    | no apart ↦
        let (c', found', holds, v, input) = r.listed fd d (sent.others fd apart ∙ found) in
        (
          c',
          found',
          holds
              ∙ ap (λ n. contents d.out_buf ++ n)
                  (sym (copies_apart fd x fds (sent_bytes p) apart)),
          v,
          input,
        )
  ];
  unlisted = λ fd apart. r.unlisted fd apart.1 ∙ sent.others fd apart.0;
  missing = λ fd absent. r.missing fd (sent.others fd (λ same. cc) ∙ absent);
  queues = r.queues ∙ sent.queues;
}

module _ {heap : Allocator} (good : IsAllocator heap) where
  send_broadcast-Reached :
      (s : EpollServer) (fds : List ℕ) (p : Package)
      → total_length p ≤ length (get_buffer p)
      → HasRoom s fds (sent_bytes p)
      → (s' : EpollServer) × (send_broadcast heap s fds p ≡ some s')
        × Reached s fds (sent_bytes p) s'
  unfolding send_broadcast
  send_broadcast-Reached s [] p held room = (
    s,
    refl,
    record {
      listed = λ fd c there.
          (c, there, sym (append-nil (contents c.out_buf)), (room fd c there).0, refl);
      unlisted = λ fd apart. refl;
      missing = λ fd absent. absent;
      queues = refl;
    },
  )
  send_broadcast-Reached s (x ∷ fds) p held room = elim (Option-cases (get_channel s x)) [
    | inl absent ↦
        let (s', sends, r) =
          send_broadcast-Reached s fds p held (room_skips s x fds (sent_bytes p) absent room) in
        (
          s',
          bind_some (send_pack_missing heap s x p absent) _ sends,
          skipping-Reached s x fds (sent_bytes p) s' absent r,
        )
    | inr (c, there) ↦
        let (v, fits) = room x c there in
        let all : length (copies x (x ∷ fds) (sent_bytes p))
            ≡ length (sent_bytes p) + length (copies x fds (sent_bytes p)) =
          ap length (copies_here x x fds (sent_bytes p) refl)
          ∙ length-append (sent_bytes p) (copies x fds (sent_bytes p)) in
        let (s1, first, sent) = send_pack-Sent good s x c p there v held (
          omega (
            arith,
            all,
            fits,
            held,
            v,
            length-take (total_length p) (get_buffer p),
            length-take c.out_buf.write_offset c.out_buf.block,
          )) in
        let (s', sends, r) =
          send_broadcast-Reached s1 fds p held (room_sends s s1 x fds p c there sent room) in
        (s', bind_some first _ sends, sending-Reached s s1 s' x fds p c there sent r)
  ]

  -- A broadcast of a package that its block holds, where the output of each open channel is valid and has
  -- room for its copies: whatever its `all` says, nothing faults; each open channel whose descriptor is in
  -- the list then holds, behind what it held, the bytes of the package once for each time that it is there;
  -- a channel that is not in the list is as it was; none has opened and no input has changed; and the queues
  -- are as they were.
  pub send_broadcast_reaches :
      (watcher_of : ℕ → ℕ) (s : EpollServer) (uniqid : Option ℕ) (all : Bool) (uniqids : List ℕ)
      (p : Package)
      → total_length p ≤ length (get_buffer p)
      → HasRoom s uniqids (sent_bytes p)
      → (s' : EpollServer) × (on_message heap watcher_of s (record {
        uniqid = uniqid;
        payload = broad (record { all = all; uniqids = uniqids; pack = p });
        kind = mq_type_broadcast;
      })
          ≡ some s')
        × Reached s uniqids (sent_bytes p) s'
  unfolding on_message
  send_broadcast_reaches watcher_of s uniqid all uniqids p held room =
      send_broadcast-Reached s uniqids p held room
