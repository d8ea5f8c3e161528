-- ===== src/Epoll/Lookup.antt =====
-- Looking up channels after the state has changed.
use pluto_server.Prelude.{
  ℕ, ◌≡◌, ◌≢◌, refl, sym, ap, ◌∙◌, arith, Bool, List, [], ◌∷◌, Option, none, some, ==_self,
  some_inj, Option-cases, ◌⊎◌, inl, inr,
}
use pluto_server.Prelude.Dict
use pluto_server.Channel.{Channel, Connector}
use pluto_server.MessageQueue.{MessageQueue}
use pluto_server.Util.{FdType, fd_type_server, fd_type_connect}
use pluto_server.Epoll.{
  get_channel, EpollServer, channel_at, set_channel_at, find_connector, update_connector, has_fd,
  with_channel, update_watcher, remove_watcher,
}

find_connector-update :
    (fd : ℕ) (channel : Channel) (c : Connector) (cs : List Connector)
    → find_connector fd cs ≡ some c
    → channel.fd ≡ fd
    → find_connector fd (update_connector (has_fd fd) (with_channel channel) cs)
      ≡ some (with_channel channel c)
unfolding find_connector update_connector
find_connector-update fd channel c [] e h = cc
find_connector-update fd channel c (d ∷ cs) e h =
    ground (arith, find_connector-update fd channel c cs)

find_connector-fd :
    (fd : ℕ) (c : Connector) (cs : List Connector)
    → find_connector fd cs ≡ some c
    → c.channel.fd ≡ fd
unfolding find_connector
find_connector-fd fd c [] e = cc
find_connector-fd fd c (d ∷ cs) e = ground (arith, find_connector-fd fd c cs)

-- A channel changed in place is the one found afterwards.
pub channel_at-set :
    (s : EpollServer) (fdtype : FdType) (fd : ℕ) (c c' : Channel)
    → channel_at s fdtype fd ≡ some c
    → c'.fd ≡ c.fd
    → channel_at (set_channel_at s fdtype fd c') fdtype fd ≡ some c'
channel_at-set s fd_type_server fd c c' e h =
    Dict.find-update fd fd c' c s.channel_map e ∙ rw (==_self fd) refl
channel_at-set s fd_type_connect fd c c' e h =
    found (Option-cases (find_connector fd s.connector_list))
  where
    found :
        ((find_connector fd s.connector_list ≡ none)
          ⊎ ((k : Connector) × (find_connector fd s.connector_list ≡ some k)))
        → channel_at (set_channel_at s fd_type_connect fd c') fd_type_connect fd ≡ some c'
    found (inl missing) = cc
    found (inr (k, there)) =
        let same : k.channel ≡ c = some_inj (rw there at e) in
        let here : c'.fd ≡ fd =
          h
          ∙ sym (ap (λ (x : Channel). x.fd) same)
          ∙ find_connector-fd fd k s.connector_list there in
        rw (find_connector-update fd c' k s.connector_list there here) refl

-- The calls of libev leave the rest of the state alone.
pub update_watcher-channel_at :
    (s : EpollServer) (fd n : ℕ) (events : Bool) (w : Option ℕ) (fdtype : FdType)
    → channel_at (update_watcher s n events w) fdtype fd ≡ channel_at s fdtype fd
unfolding update_watcher
update_watcher-channel_at s fd n events none fdtype = refl
update_watcher-channel_at s fd n events (some w) fd_type_server = refl
update_watcher-channel_at s fd n events (some w) fd_type_connect = refl

pub update_watcher-mq :
    (s : EpollServer) (n : ℕ) (events : Bool) (w : Option ℕ)
    → (update_watcher s n events w).mq ≡ s.mq
unfolding update_watcher
update_watcher-mq s n events none = refl
update_watcher-mq s n events (some w) = refl

pub update_watcher-connector_list :
    (s : EpollServer) (n : ℕ) (events : Bool) (w : Option ℕ)
    → (update_watcher s n events w).connector_list ≡ s.connector_list
unfolding update_watcher
update_watcher-connector_list s n events none = refl
update_watcher-connector_list s n events (some w) = refl

pub update_watcher-channel_map :
    (s : EpollServer) (n : ℕ) (events : Bool) (w : Option ℕ)
    → (update_watcher s n events w).channel_map ≡ s.channel_map
unfolding update_watcher
update_watcher-channel_map s n events none = refl
update_watcher-channel_map s n events (some w) = refl

pub remove_watcher-channel_map :
    (s : EpollServer) (w : Option ℕ) → (remove_watcher s w).channel_map ≡ s.channel_map
unfolding remove_watcher
remove_watcher-channel_map s none = refl
remove_watcher-channel_map s (some w) = refl

pub remove_watcher-mq : (s : EpollServer) (w : Option ℕ) → (remove_watcher s w).mq ≡ s.mq
unfolding remove_watcher
remove_watcher-mq s none = refl
remove_watcher-mq s (some w) = refl

-- The record of the descriptor in a channel that is found by it as a connector.
pub channel_at_mq :
    (s : EpollServer) (fdtype : FdType) (fd : ℕ) (c : Channel)
    → (set_channel_at s fdtype fd c).mq ≡ s.mq
channel_at_mq s fd_type_server fd c = refl
channel_at_mq s fd_type_connect fd c = refl

pub with_mq-channel_at :
    (s : EpollServer) (mq : MessageQueue) (fdtype : FdType) (fd : ℕ)
    → channel_at (record s { mq = mq }) fdtype fd ≡ channel_at s fdtype fd
with_mq-channel_at s mq fd_type_server fd = refl
with_mq-channel_at s mq fd_type_connect fd = refl

-- Changing a channel in place leaves the other channels alone.
pub set_channel_at-others :
    (s : EpollServer) (fdtype : FdType) (fd other : ℕ) (c : Channel)
    → other ≢ fd
    → get_channel (set_channel_at s fdtype fd c) other ≡ get_channel s other
set_channel_at-others s fd_type_server fd other c h =
    Dict.find-update_other fd other c s.channel_map h
set_channel_at-others s fd_type_connect fd other c h = refl
