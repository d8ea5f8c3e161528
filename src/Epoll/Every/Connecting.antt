-- ===== src/Epoll/Every/Connecting.antt =====
-- `OnTryConnect` leaves the buffers of all channels alone.
use pluto_server.Prelude.{ℕ, suc, inl, inr, List, [], ◌∷◌, All, Option-cases, Bool-cases, branches}
use pluto_server.Channel.{Connector, set_fd}
use pluto_server.Epoll.{EpollServer}
use pluto_server.Buffer.{Buffer}
use pluto_server.Epoll.{Call}
use pluto_server.Epoll.Connect.{
  Attempt, Round, is_missing, with_socket, finish, try_connector, try_all, on_try_connect,
}
use pluto_server.Epoll.Every.{Every, OfBuffers}

module _ (Q : Buffer → Buffer → Type 0) where
  finish-kept :
      (c : Connector) (a : Attempt)
      → OfBuffers Q c.channel
      → OfBuffers Q (finish c a).connector.channel
  unfolding finish
  finish-kept c a h = elim (Bool-cases a.connected) [
    | inl made ↦ elim (Option-cases a.watcher) [
      | inl e ↦ rw (made, e) h
      | inr (w, e) ↦ rw (made, e) h
    ]
    | inr not_made ↦ rw not_made h
  ]

  try_connector-kept :
      (c : Connector) (a : Attempt)
      → OfBuffers Q c.channel
      → OfBuffers Q (try_connector c a).connector.channel
  unfolding try_connector with_socket
  try_connector-kept c a h =
      branches (λ (r : Round). OfBuffers Q r.connector.channel) c.success _ _ (λ on. h)
        (λ off. elim (Bool-cases (is_missing c.channel.fd)) [
          | inl none_yet ↦ elim (Bool-cases (is_missing a.socket)) [
            | inl no_socket ↦ rw (none_yet, no_socket) h
            | inr socket ↦ rw (none_yet, socket) (finish-kept (set_fd c a.socket) a h)
          ]
          | inr has_one ↦ rw has_one (finish-kept c a h)
        ])

  try_all-kept :
      (attempt : ℕ → Attempt) (i : ℕ) (cs : List Connector)
      → All (λ (k : Connector). OfBuffers Q k.channel) cs
      → All (λ (k : Connector). OfBuffers Q k.channel) (try_all attempt i cs).0
  unfolding try_all
  try_all-kept attempt i [] h = tt
  try_all-kept attempt i (c ∷ cs) h =
      branches
        (λ (r : List Connector × List Call). All (λ (k : Connector). OfBuffers Q k.channel) r.0)
        (try_connector c (attempt i)).goes_on _ _
        (λ on. (try_connector-kept c (attempt i) h.0, try_all-kept attempt (suc i) cs h.1))
        (λ off. (try_connector-kept c (attempt i) h.0, h.1))

  pub on_try_connect-Every :
      (s : EpollServer) (attempt : ℕ → Attempt)
      → Every (OfBuffers Q) s
      → Every (OfBuffers Q) (on_try_connect s attempt)
  unfolding on_try_connect
  on_try_connect-Every s attempt v = record {
    clients = v.clients;
    connectors = try_all-kept attempt 0 s.connector_list v.connectors;
  }
