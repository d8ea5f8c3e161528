-- ===== src/Epoll/Callbacks/Histories.antt =====
-- Histories of the sockets of clients: connections accepted and closed, bytes read and written, packages
-- sent and timers fired, in any order.
use pluto_server.Prelude.{
  ℕ, ◌+◌, ◌≤◌, ◌≡◌, ◌≢◌, ◌⊎◌, inl, inr, refl, sym, ap, ◌∙◌, arith, List, [], Option, none, some,
  some_inj, ℕ_discrete, length, Option-cases, Bool-cases, branches,
}
use mathlib.Core.Path.{subst}
use pluto_server.Prelude.Dict
use pluto_server.Prelude.Memory.{Allocator, IsAllocator}
use pluto_server.Buffer.Extend.{IsValid, empty-IsValid}
use pluto_server.Package.{Package, total_length, get_buffer}
use pluto_server.Channel.{Channel, new_channel}
use pluto_server.Util.{fd_type_server, max_buf_size}
use pluto_server.Epoll.{EpollServer, Timer, repeats, get_channel, on_accept, is_negative}
use pluto_server.Epoll.Read.{Received, bytes, closed, failed, on_read}
use pluto_server.Epoll.Read.Closing.{on_read-Closed}
use pluto_server.Epoll.Read.Safety.{on_read-Delivered}
use pluto_server.Epoll.Write.{Sent, on_write}
use pluto_server.Epoll.Write.Sending.{IsSocket}
use pluto_server.Epoll.Write.Flush.{on_write-Flushed}
use pluto_server.Epoll.Eventfd.{send_pack}
use pluto_server.Epoll.Eventfd.Delivery.{send_pack-Sent}
use pluto_server.Epoll.Timers.{on_timer, fire, timer_of}

-- Both buffers of every client are valid.
unfoldable pub IsSound : EpollServer → Type 0
IsSound s =
    (fd : ℕ) (c : Channel) → get_channel s fd ≡ some c → IsValid c.in_buf × IsValid c.out_buf

-- One channel changed to a valid one, and the others left as they were.
changed-IsSound :
    (s s' : EpollServer) (fd : ℕ) (c : Channel)
    → IsSound s
    → get_channel s' fd ≡ some c
    → IsValid c.in_buf × IsValid c.out_buf
    → ((other : ℕ) → other ≢ fd → get_channel s' other ≡ get_channel s other)
    → IsSound s'
unfolding IsSound
changed-IsSound s s' fd c sound here valid others other d there = elim (ℕ_discrete other fd) [
  | yes e ↦
      let same : c ≡ d = some_inj (sym here ∙ ap (get_channel s') (sym e) ∙ there) in
      subst (λ (x : Channel). IsValid x.in_buf × IsValid x.out_buf) same valid
  | no n ↦ sound other d (sym (others other n) ∙ there)
]

-- One channel removed, and the others left as they were.
removed-IsSound :
    (s s' : EpollServer) (fd : ℕ)
    → IsSound s
    → get_channel s' fd ≡ none
    → ((other : ℕ) → other ≢ fd → get_channel s' other ≡ get_channel s other)
    → IsSound s'
unfolding IsSound
removed-IsSound s s' fd sound gone others other d there = elim (ℕ_discrete other fd) [
  | yes e ↦ let never : none ≡ some d = sym gone ∙ ap (get_channel s') (sym e) ∙ there in cc
  | no n ↦ sound other d (sym (others other n) ∙ there)
]

inserted-IsSound :
    (s s' : EpollServer) (fd : ℕ) (new : Channel)
    → IsSound s
    → s'.channel_map ≡ Dict.insert fd new s.channel_map
    → IsValid new.in_buf × IsValid new.out_buf
    → IsSound s'
unfolding IsSound
inserted-IsSound s s' fd new sound e valid other d there =
    let now : Dict.find other (Dict.insert fd new s.channel_map) ≡ some d =
      sym (ap (Dict.find other) e) ∙ there in
    let split = sym (Dict.find-insert fd other new s.channel_map) ∙ now in
    elim (ℕ_discrete fd other) [
      | yes same ↦ elim (Option-cases (Dict.find fd s.channel_map)) [
        | inl absent ↦
            let added : new ≡ d = some_inj (ground (arith, split, absent, same)) in
            subst (λ (x : Channel). IsValid x.in_buf × IsValid x.out_buf) added valid
        | inr (w, present) ↦ sound other d (ground (arith, split, present, same))
      ]
      | no n ↦ sound other d (ground (arith, split, n))
    ]

accepted-IsSound :
    (s s' : EpollServer) (fd : ℕ) (watcher : Option ℕ)
    → IsSound s
    → on_accept s fd watcher ≡ some s'
    → IsSound s'
unfolding on_accept
accepted-IsSound s s' fd none sound e = subst IsSound (some_inj e) sound
accepted-IsSound s s' fd (some w) sound e =
    branches (λ r. r ≡ some s' → IsSound s') (is_negative fd) _ _ (λ _ e'. cc)
      (λ _ e'. subst IsSound (some_inj e') (
        inserted-IsSound s _ fd (new_channel fd (some w) fd_type_server) sound refl
          (empty-IsValid, empty-IsValid)))
      e

fire-channel_map : (s : EpollServer) (t : Option Timer) → (fire s t).channel_map ≡ s.channel_map
unfolding fire
fire-channel_map s none = refl
fire-channel_map s (some t) = elim (Bool-cases (repeats t)) [
  | inl e ↦ rw e refl
  | inr e ↦ rw e refl
]

timer-IsSound : (s : EpollServer) (watcher : ℕ) → IsSound s → IsSound (on_timer s watcher)
unfolding IsSound on_timer
timer-IsSound s watcher sound other d there =
    sound other d
      (sym (ap (Dict.find other) (fire-channel_map s (timer_of watcher s.timer_map))) ∙ there)

module _ (heap : Allocator) where
  -- One callback on a client's socket, one package of the workers, or one timer. A read and a package
  -- need the room that the buffers have under the limit.
  pub data Step (s : EpollServer) : EpollServer → Type 0 where
    accepts :
        {s' : EpollServer} (fd : ℕ) (watcher : Option ℕ)
        → on_accept s fd watcher ≡ some s'
        → Step s s'
    reads :
        {s' : EpollServer} (fd : ℕ) (c : Channel) (news : List ℕ)
        → get_channel s fd ≡ some c
        → c.in_buf.write_offset + 1024 ≤ max_buf_size
        → news ≢ []
        → length news ≤ 1024
        → on_read heap s fd fd_type_server (bytes news) ≡ some s'
        → Step s s'
    closes :
        {s' : EpollServer} (fd : ℕ) (c : Channel) (received : Received)
        → get_channel s fd ≡ some c
        → (received ≡ failed) ⊎ (received ≡ closed)
        → on_read heap s fd fd_type_server received ≡ some s'
        → Step s s'
    writes :
        {s' : EpollServer} (fd : ℕ) (c : Channel) (send : ℕ → List ℕ → Sent)
        → get_channel s fd ≡ some c
        → IsSocket send
        → on_write send s fd fd_type_server ≡ some s'
        → Step s s'
    sends :
        {s' : EpollServer} (fd : ℕ) (c : Channel) (p : Package)
        → get_channel s fd ≡ some c
        → total_length p ≤ length (get_buffer p)
        → c.out_buf.write_offset + total_length p ≤ max_buf_size
        → send_pack heap s fd p ≡ some s'
        → Step s s'
    fires : (watcher : ℕ) → Step s (on_timer s watcher)

  pub data Reach (s : EpollServer) : EpollServer → Type 0 where
    here : Reach s s
    next : {t u : EpollServer} → Reach s t → Step t u → Reach s u

module _ {heap : Allocator} (good : IsAllocator heap) where
  Step-IsSound : {s s' : EpollServer} → Step heap s s' → IsSound s → IsSound s'
  unfolding IsSound
  Step-IsSound {s} {s'} (accepts fd watcher e) sound = accepted-IsSound s s' fd watcher sound e
  Step-IsSound {s} {s'} (fires watcher) sound = timer-IsSound s watcher sound
  Step-IsSound {s} {s'} (reads fd c news there room some_news small e) sound =
      let (s1, e', d) =
        on_read-Delivered good s fd_type_server fd c news there (sound fd c there).0 room some_news
          small in
      subst IsSound (some_inj (sym e' ∙ e)) (
        changed-IsSound s s1 fd d.channel sound d.found
          (d.valid, subst IsValid (sym d.output) (sound fd c there).1) d.others)
  Step-IsSound {s} {s'} (closes fd c received there end e) sound =
      let (s1, e', d) = on_read-Closed heap s fd c received there end in
      subst IsSound (some_inj (sym e' ∙ e)) (removed-IsSound s s1 fd sound d.gone d.others)
  Step-IsSound {s} {s'} (writes fd c send there socket e) sound =
      let (s1, e', d) = on_write-Flushed send socket s fd c there (sound fd c there).1 in
      subst IsSound (some_inj (sym e' ∙ e)) (
        changed-IsSound s s1 fd d.channel sound d.found
          (subst IsValid (sym d.input) (sound fd c there).0, d.valid) d.others)
  Step-IsSound {s} {s'} (sends fd c p there held fits e) sound =
      let (s1, e', d) = send_pack-Sent good s fd c p there (sound fd c there).1 held fits in
      subst IsSound (some_inj (sym e' ∙ e)) (
        changed-IsSound s s1 fd d.channel sound d.found
          (subst IsValid (sym d.input) (sound fd c there).0, d.valid) d.others)

  -- In every history that keeps to the room of the buffers, from a state whose clients' buffers are valid,
  -- such as one with no client, the buffers of all clients stay valid.
  pub Reach-IsSound : {s s' : EpollServer} → IsSound s → Reach heap s s' → IsSound s'
  Reach-IsSound sound here = sound
  Reach-IsSound sound (next r st) = Step-IsSound st (Reach-IsSound sound r)
