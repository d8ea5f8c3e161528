-- ===== src/Epoll/Every.antt =====
-- What holds of every channel: of each client's, and of each connector's.
pub mod Closing
pub mod Connecting
use pluto_server.Prelude.{
  ℕ, suc, ◌+◌, ◌≤◌, ◌≡◌, ◌≢◌, ◌⊎◌, inl, inr, refl, sym, ap, ◌∙◌, arith, Bool, true, false, List, [],
  ◌∷◌, ◌++◌, All, Option, none, some, some_inj, Option-cases, Bool-cases, branches, ◌==◌,
  if◌then◌else◌,
}
use mathlib.Core.Path.{subst}
use pluto_server.Prelude.Dict
use pluto_server.Channel.{Channel, Connector, new_channel, set_success, set_fd}
use pluto_server.Util.{FdType, fd_type_server, fd_type_connect}
use pluto_server.Epoll.{
  EpollServer, Timer, repeats, get_channel, channel_at, set_channel_at, find_connector,
  userful_connector, update_connector, has_fd, with_channel, update_watcher, remove_watcher,
  add_channel, add_event, on_fd_closed, drop_channel, drop_connector,
}
use pluto_server.Buffer.{Buffer}
use pluto_server.Epoll.{Call}
use pluto_server.Epoll.Connect.{
  Attempt, Round, is_missing, with_socket, finish, try_connector, try_all, on_try_connect,
}
use pluto_server.Epoll.Timers.{fire, on_timer, timer_of}
use pluto_server.Epoll.Places.{
  found-update, found-insert, found-erase, All-update_connector, found-All, userful-All, All-meet,
}

pub record Every (P : Channel → Type 0) (s : EpollServer) : Type 0 where
  pub clients : (fd : ℕ) (c : Channel) → get_channel s fd ≡ some c → P c
  pub connectors : All (λ (k : Connector). P k.channel) s.connector_list

pub Every-meet :
    (P Q R : Channel → Type 0) (s : EpollServer)
    → ((c : Channel) → P c → Q c → R c)
    → Every P s
    → Every Q s
    → Every R s
Every-meet P Q R s f v w = record {
  clients = λ fd c e. f c (v.clients fd c e) (w.clients fd c e);
  connectors = All-meet P Q R s.connector_list f v.connectors w.connectors;
}

pub Every-weaken :
    (P Q : Channel → Type 0) (s : EpollServer) → ((c : Channel) → P c → Q c) → Every P s → Every Q s
Every-weaken P Q s f v = Every-meet P P Q s (λ c p again. f c p) v v

-- What holds of the buffers alone, whatever the descriptor and the watcher.
abbrev pub OfBuffers : (Buffer → Buffer → Type 0) → Channel → Type 0
OfBuffers Q c = Q c.in_buf c.out_buf

module _ {P : Channel → Type 0} where
  -- The first connected connector is one of them, and is changed in place.
  pub Every-userful :
      (s : EpollServer) (k : Connector)
      → Every P s
      → userful_connector s.connector_list ≡ some k
      → P k.channel
  Every-userful s k v e = userful-All P k s.connector_list e v.connectors

  pub set_userful-Every :
      (s : EpollServer) (c : Channel)
      → Every P s
      → P c
      → Every P (record s {
        connector_list = update_connector (λ k. k.success) (with_channel c) s.connector_list;
      })
  set_userful-Every s c v new = record {
    clients = v.clients;
    connectors =
        All-update_connector P (λ k. k.success) (with_channel c) s.connector_list (λ k old. new)
          v.connectors;
  }

  -- The channel of a handler is one of them.
  pub Every-channel_at :
      (s : EpollServer) (fdtype : FdType) (fd : ℕ) (c : Channel)
      → Every P s
      → channel_at s fdtype fd ≡ some c
      → P c
  Every-channel_at s fd_type_server fd c v e = v.clients fd c e
  Every-channel_at s fd_type_connect fd c v e =
      elim (Option-cases (find_connector fd s.connector_list)) [
        | inl missing ↦ cc
        | inr (k, there) ↦
            subst P (some_inj (rw there at e))
              (found-All P fd k s.connector_list there v.connectors)
      ]

  pub set_channel_at-Every :
      (s : EpollServer) (fdtype : FdType) (fd : ℕ) (c : Channel)
      → Every P s
      → P c
      → Every P (set_channel_at s fdtype fd c)
  set_channel_at-Every s fd_type_server fd c v new = record {
    clients = λ other d e. elim (found-update fd other c d s.channel_map e) [
      | inl same ↦ subst P same new
      | inr old ↦ v.clients other d old
    ];
    connectors = v.connectors;
  }
  set_channel_at-Every s fd_type_connect fd c v new = record {
    clients = v.clients;
    connectors =
        All-update_connector P (has_fd fd) (with_channel c) s.connector_list (λ k old. new)
          v.connectors;
  }

  -- A handler that leaves both maps alone.
  pub same-Every :
      (s s' : EpollServer)
      → s'.channel_map ≡ s.channel_map
      → s'.connector_list ≡ s.connector_list
      → Every P s
      → Every P s'
  same-Every s s' map list v = record {
    clients = λ fd c e. v.clients fd c (sym (ap (Dict.find fd) map) ∙ e);
    connectors = subst (All (λ (k : Connector). P k.channel)) (sym list) v.connectors;
  }

  pub update_watcher-Every :
      (s : EpollServer) (fd : ℕ) (events : Bool) (w : Option ℕ)
      → Every P s
      → Every P (update_watcher s fd events w)
  unfolding update_watcher
  update_watcher-Every s fd events none v = v
  update_watcher-Every s fd events (some w) v = same-Every s _ refl refl v

  pub remove_watcher-Every :
      (s : EpollServer) (w : Option ℕ) → Every P s → Every P (remove_watcher s w)
  unfolding remove_watcher
  remove_watcher-Every s none v = v
  remove_watcher-Every s (some w) v = same-Every s _ refl refl v

  pub on_accept-Every :
      (s : EpollServer) (fd w : ℕ)
      → ((fd : ℕ) (w : Option ℕ) (t : FdType) → P (new_channel fd w t))
      → Every P s
      → Every P (add_channel (add_event s w fd false) w fd fd_type_server)
  on_accept-Every s fd w new v = record {
    clients = λ other d e.
        elim (found-insert fd other (new_channel fd (some w) fd_type_server) d s.channel_map e) [
          | inl same ↦ subst P same (new fd (some w) fd_type_server)
          | inr old ↦ v.clients other d old
        ];
    connectors = v.connectors;
  }

-- A timer leaves the channels alone.
module _ {P : Channel → Type 0} where
  fire-Every : (s : EpollServer) (t : Option Timer) → Every P s → Every P (fire s t)
  unfolding fire
  fire-Every s none v = v
  fire-Every s (some t) v = elim (Bool-cases (repeats t)) [
    | inl e ↦ rw e (same-Every s _ refl refl v)
    | inr e ↦ rw e (same-Every s _ refl refl v)
  ]

  pub on_timer-Every : (s : EpollServer) (watcher : ℕ) → Every P s → Every P (on_timer s watcher)
  unfolding on_timer
  on_timer-Every s watcher v = fire-Every s (timer_of watcher s.timer_map) v
