-- ===== src/Startup/Connecting.antt =====
-- `GameServer::Thread_Socket_CB` on its list of database servers.
use mathlib.Core.Path.{subst}
use pluto_server.Prelude.{
  ℕ, suc, ◌%◌, ◌^◌, ◌≡◌, refl, sym, ap, ◌∙◌, true, false, List, [], ◌∷◌, ◌++◌, append_assoc,
  append-nil, map, All, Option, none, some, bind_some, Option-cases, inl, inr, if◌then◌else◌, ◌>>=◌,
}
use pluto_server.Prelude.Text.{codes}
use pluto_server.Util.{split}
use pluto_server.Channel.{Connector, new_connector}
use pluto_server.Epoll.{EpollServer, is_negative}
use pluto_server.Epoll.Connect.{connect_ip_port}
use pluto_server.Json
use pluto_server.Json.{CJson, JsonHelper}
use pluto_server.Config.{IpPort, get_server_port, get_server_ip_port, get_db_list}
use pluto_server.Startup.{
  Opened, serve_on, connect_all, with_port, connect_list, game_socket_thread,
}

-- A helper that has parsed its text.
abbrev pub read_helper : (c : CJson) → CJson.Item c → List ℕ → JsonHelper (CJson.Item c)
read_helper c root text = record { json = some root; parsed = true; str_json = text }

-- The item of an item.
abbrev pub item2 : (c : CJson) → CJson.Item c → List ℕ → List ℕ → Option (CJson.Item c)
item2 c root node1 node2 = do o ← c.get_object_item root node1; c.get_object_item o node2

-- A server of the configuration, and where its section holds its address.
pub record Address : Type 0 where
  pub name : List ℕ
  pub ip : List ℕ
  pub port : ℕ

pub record HasServer (c : CJson) (root : CJson.Item c) (server : Address) : Type 0 where
  pub ip_item : CJson.Item c
  pub has_ip : item2 c root server.name (codes "ip") ≡ some ip_item
  pub is_ip : c.valuestring ip_item ≡ some server.ip
  pub port_item : CJson.Item c
  pub has_port : item2 c root server.name (codes "port") ≡ some port_item
  pub is_port : c.valueint port_item ≡ server.port

-- The items that `Thread_Socket_CB` reads for itself.
pub record HasList (c : CJson) (root : CJson.Item c) (server_name list : List ℕ) : Type 0 where
  pub port_item : CJson.Item c
  pub has_port : item2 c root server_name (codes "port") ≡ some port_item
  pub list_item : CJson.Item c
  pub has_list : c.get_object_item root (codes "db_list") ≡ some list_item
  pub is_list : c.valuestring list_item ≡ some list

-- A connector for each server, not yet connected; one whose socket failed has descriptor 0.
abbrev pub connectors : (ℕ → ℕ) → ℕ → List Address → List Connector
connectors sockets i [] = []
connectors sockets i (server ∷ servers) =
    new_connector (if is_negative (sockets i) then 0 else sockets i) server.ip
      (server.port % 2 ^ 16)
    ∷ connectors sockets (suc i) servers

module _ (c : CJson) (root : CJson.Item c) (text : List ℕ) where
  get_server_ip_port-HasServer :
      (server : Address)
      → HasServer c root server
      → get_server_ip_port c (read_helper c root text) server.name
        ≡ some (
          read_helper c root text,
          record { found = true; ip = server.ip; port = some (server.port % 2 ^ 16) },
        )
  unfolding get_server_ip_port Json.get_string2 Json.get_int2 Json.find_item2 Json.parse_get
      Json.string_of Json.int_of
  get_server_ip_port-HasServer server h = rw (h.has_ip, h.is_ip, h.has_port, h.is_port) refl

  connect_all-connectors :
      (s : EpollServer) (sockets : ℕ → ℕ) (i : ℕ) (servers : List Address)
      → All (HasServer c root) servers
      → connect_all c (read_helper c root text) s sockets i (map (λ (x : Address). x.name) servers)
        ≡ some (record s { connector_list = s.connector_list ++ connectors sockets i servers })
  unfolding connect_all connect_ip_port
  connect_all-connectors s sockets i [] h =
      ap (λ cs. some (record s { connector_list = cs })) (sym (append-nil s.connector_list))
  connect_all-connectors s sockets i (server ∷ servers) h =
      bind_some (get_server_ip_port-HasServer server h.0) _ (
        connect_all-connectors (connect_ip_port s server.ip (server.port % 2 ^ 16) (sockets i))
          sockets (suc i) servers h.1
        ∙ ap (λ cs. some (record s { connector_list = cs })) (append_assoc s.connector_list _ _))

  get_db_list-HasList :
      (server_name list : List ℕ) (h : HasList c root server_name list)
      → get_db_list c (read_helper c root text)
        ≡ some (read_helper c root text, some (split list (b',' ∷ [])))
  unfolding get_db_list Json.get_string Json.find_item Json.parse_get Json.string_of
  get_db_list-HasList server_name list h = rw (h.has_list, h.is_list) refl

  get_server_port-HasList :
      (server_name list : List ℕ) (h : HasList c root server_name list)
      → get_server_port c server_name (read_helper c root text)
        ≡ (read_helper c root text, some (c.valueint h.port_item % 2 ^ 16))
  unfolding get_server_port Json.get_int2 Json.find_item2 Json.parse_get Json.int_of
  get_server_port-HasList server_name list h = rw h.has_port refl

  -- The part of the thread behind the items that it reads for itself.
  game_socket_thread-HasList :
      (server_name list : List ℕ) (h : HasList c root server_name list) (s : EpollServer)
      (sockets : ℕ → ℕ) (o : Opened)
      → game_socket_thread c server_name (read_helper c root text) s sockets o ≡ (
          connect_all c (read_helper c root text) s sockets 0 (split list (b',' ∷ [])) >>= λ s'.
          some (serve_on s' o))
  unfolding game_socket_thread with_port connect_list
  game_socket_thread-HasList server_name list h s sockets o =
      ap (λ (r : JsonHelper (CJson.Item c) × Option ℕ). with_port c r.0 s sockets o r.1)
        (get_server_port-HasList server_name list h)
      ∙ bind_some (get_db_list-HasList server_name list h) _ refl

  -- The socket thread of a game server whose configuration has its port and a list of servers that each have
  -- an ip and a port: before it opens its own port, it adds one connector for each name of the list, in
  -- order, with that server's address, the port cut to 16 bits; it does not fault.
  pub game_socket_thread-connectors :
      (server_name list : List ℕ) (servers : List Address) (s : EpollServer) (sockets : ℕ → ℕ)
      (o : Opened)
      → HasList c root server_name list
      → split list (b',' ∷ []) ≡ map (λ (x : Address). x.name) servers
      → All (HasServer c root) servers
      → game_socket_thread c server_name (read_helper c root text) s sockets o
        ≡ some (
            serve_on
              (record s { connector_list = s.connector_list ++ connectors sockets 0 servers })
              o)
  game_socket_thread-connectors server_name list servers s sockets o h names all =
      game_socket_thread-HasList server_name list h s sockets o
      ∙ bind_some
          (ap (connect_all c (read_helper c root text) s sockets 0) names
            ∙ connect_all-connectors s sockets 0 servers all)
          _ refl

  -- Reading the address of a server leaves a helper that was read as it is.
  Kept : Option (JsonHelper (CJson.Item c) × IpPort) → Type 0
  Kept none = Unit {0}
  Kept (some (h, p)) = h ≡ read_helper c root text

  get_server_ip_port-Kept :
      (name : List ℕ) → Kept (get_server_ip_port c (read_helper c root text) name)
  unfolding get_server_ip_port Json.get_string2 Json.get_int2 Json.find_item2 Json.parse_get
      Json.string_of Json.int_of Kept
  get_server_ip_port-Kept name = elim (Option-cases (item2 c root name (codes "ip"))) [
    | inl e ↦ rw e refl
    | inr (i, e) ↦ elim (Option-cases (c.valuestring i)) [
      | inl e1 ↦ rw (e, e1) tt
      | inr (ip, e1) ↦ rw (e, e1) refl
    ]
  ]

  get_server_ip_port_missing :
      (name : List ℕ)
      → c.get_object_item root name ≡ none
      → get_server_ip_port c (read_helper c root text) name
        ≡ some (read_helper c root text, record { found = false; ip = []; port = none })
  unfolding get_server_ip_port Json.get_string2 Json.find_item2 Json.parse_get Json.string_of
  get_server_ip_port_missing name e = rw e refl

  -- A name with no section is fatal, whatever stands before it.
  connect_all_missing :
      (s : EpollServer) (sockets : ℕ → ℕ) (i : ℕ) (before : List (List ℕ)) (name : List ℕ)
      (after : List (List ℕ))
      → c.get_object_item root name ≡ none
      → connect_all c (read_helper c root text) s sockets i (before ++ (name ∷ after)) ≡ none
  unfolding connect_all Kept
  connect_all_missing s sockets i [] name after e =
      bind_some (get_server_ip_port_missing name e) _ refl
  connect_all_missing s sockets i (first ∷ before) name after e =
      elim (Option-cases (get_server_ip_port c (read_helper c root text) first)) [
        | inl fault ↦ rw fault refl
        | inr ((h, p), reads) ↦
            let same : h ≡ read_helper c root text =
              subst Kept reads (get_server_ip_port-Kept first) in
            bind_some reads _ (elim (Option-cases p.port) [
              | inl unset ↦ rw unset refl
              | inr (port, set) ↦ bind_some set _ (
                  ap
                    (λ h'.
                      connect_all c h' (connect_ip_port s p.ip port (sockets i)) sockets (suc i)
                        (before ++ (name ∷ after)))
                    same
                  ∙ connect_all_missing (connect_ip_port s p.ip port (sockets i)) sockets (suc i)
                      before name after e)
            ])
      ]

  -- One name of the list has no section in the configuration, as the empty name that an empty list yields:
  -- the thread reads a port that was never set.
  pub game_socket_thread_missing :
      (server_name list : List ℕ) (s : EpollServer) (sockets : ℕ → ℕ) (o : Opened)
      (before : List (List ℕ)) (name : List ℕ) (after : List (List ℕ))
      → HasList c root server_name list
      → split list (b',' ∷ []) ≡ before ++ (name ∷ after)
      → c.get_object_item root name ≡ none
      → game_socket_thread c server_name (read_helper c root text) s sockets o ≡ none
  game_socket_thread_missing server_name list s sockets o before name after h names e =
      game_socket_thread-HasList server_name list h s sockets o
      ∙ ap (λ r. r >>= λ s'. some (serve_on s' o))
          (ap (connect_all c (read_helper c root text) s sockets 0) names
            ∙ connect_all_missing s sockets 0 before name after e)
