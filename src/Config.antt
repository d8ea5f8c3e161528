-- ===== src/Config.antt =====
-- common/base_server.h, common/base_server.cpp, common/config_reader.h and common/config_reader.cpp: the
-- configuration of a server, from the bytes of its file to the fields that it reads. An `int` is its
-- pattern; the field of a variable that may be unset is an Option. `none` as a result is undefined
-- behaviour.
pub mod Reading
use pluto_server.Prelude.{
  ℕ, ◌+◌, ◌-◌, ◌%◌, ◌^◌, Bool, true, false, List, [], ◌∷◌, ◌++◌, Option, none, some, length, take,
  drop, if◌then◌else◌, ◌>>=◌, leb,
}
use pluto_server.Prelude.Text.{codes, atoi}
use pluto_server.Util.{split}
use pluto_server.Package.{c_string}
use pluto_server.Json
use pluto_server.Json.{CJson, JsonHelper, from_text, get_chars, get_int2}
use pluto_server.Logger.{Logger, set_log_level, set_log_path}
use pluto_server.DbConn.{ConnParam}

-- `class ConfigReader`. `load_success_` is set at the end of `_LoadFile` alone.
pub record ConfigReader : Type 0 where
  pub load_success : Option Bool
  pub buffer : Option (List ℕ)

-- An `int` as a `size_t`.
abbrev pub size_of_int : ℕ → ℕ
size_of_int size = if leb (2 ^ 31) size then 2 ^ 64 - 2 ^ 32 + size else size

-- What `fread` of `size` bytes leaves in the block.
unfoldable pub fread_into : List ℕ → ℕ → List ℕ → List ℕ
fread_into block size content = let bytes = take size content in bytes ++ drop (length bytes) block

-- `_LoadFile`, given the file's bytes, if `fopen` succeeds, and what `malloc` gives. A short read is only
-- printed.
unfoldable pub load_file : Option (List ℕ) → (ℕ → Option (List ℕ)) → ConfigReader
load_file none malloc = record { load_success = none; buffer = none }
load_file (some content) malloc =
    let size = size_of_int (length content % 2 ^ 32) in
    elim (malloc size) [
      | none ↦ record { load_success = none; buffer = none }
      | some block ↦ record {
        load_success = some true;
        buffer = some (fread_into block size content);
      }
    ]

-- `GetAllConfig`.
abbrev pub get_all_config : ConfigReader → Option (List ℕ)
get_all_config r = r.buffer

-- What `GetServerIpPort` leaves in its arguments.
pub record IpPort : Type 0 where
  pub found : Bool
  pub ip : List ℕ
  pub port : Option ℕ

-- What `GetSqlParam` leaves in its arguments; each text is empty before.
pub record SqlParam : Type 0 where
  pub found : Bool
  pub host : List ℕ
  pub user : List ℕ
  pub passwd : List ℕ
  pub db : List ℕ
  pub port : Option ℕ

-- `ConnectDB(host.c_str(), …, (unsigned int)port)`: the arguments, if the port was set.
abbrev pub conn_param : SqlParam → Option ConnParam
conn_param p = do
  port ← p.port
  some (record { host = p.host; user = p.user; passwd = p.passwd; db = p.db; port = port })

module _ (c : CJson) where
  -- `JsonHelper json_hp(config)`: the text up to the first NUL of the block.
  unfoldable pub helper_of : Option (List ℕ) → Option (JsonHelper (CJson.Item c))
  helper_of config = do block ← config; text ← c_string block; some (from_text c text)

  -- `SetLogConfig`: the helper and the logger afterwards, and the result. A level that is no string has
  -- no text for `atoi`.
  unfoldable pub set_log_config :
      JsonHelper (CJson.Item c) → Logger → Option (JsonHelper (CJson.Item c) × Logger × Bool)
  set_log_config h logger =
      let (h1, log_level) = get_chars c h (codes "log_level") in
      elim log_level [
        | none ↦ some (h1, logger, false)
        | some level ↦ (do
          (h2, ok, log_path) ← Json.get_string c h1 (codes "log_path")
          if ok
              then (do
                text ← level
                number ← atoi text
                some (h2, set_log_path (set_log_level logger number) log_path, true))
              else some (h2, logger, false))
      ]

  -- `SetWorkNum`, of `server_name_` and `worker_num_`.
  unfoldable pub set_work_num :
      List ℕ → JsonHelper (CJson.Item c) → ℕ → JsonHelper (CJson.Item c) × ℕ × Bool
  set_work_num server_name h worker_num =
      let (h', ok, n) = get_int2 c h server_name (codes "worker_num") in
      (h', (if ok then n else worker_num), ok)

  -- `GetServerPort`: the port, if there is one.
  unfoldable pub get_server_port :
      List ℕ → JsonHelper (CJson.Item c) → JsonHelper (CJson.Item c) × Option ℕ
  get_server_port server_name h =
      let (h', ok, port) = get_int2 c h server_name (codes "port") in
      (h', (if ok then some (port % 2 ^ 16) else none))

  -- `GetServerIpPort`.
  unfoldable pub get_server_ip_port :
      JsonHelper (CJson.Item c) → List ℕ → Option (JsonHelper (CJson.Item c) × IpPort)
  get_server_ip_port h name = do
    (h1, ok, ip) ← Json.get_string2 c h name (codes "ip")
    if ok
        then (let (h2, has_port, port) = get_int2 c h1 name (codes "port") in
            some (
              h2,
              record {
                found = has_port;
                ip = ip;
                port = if has_port then some (port % 2 ^ 16) else none;
              },
            ))
        else some (h1, record { found = false; ip = ip; port = none })

  -- `GetDBlist`: the names, if there is an item.
  unfoldable pub get_db_list :
      JsonHelper (CJson.Item c) → Option (JsonHelper (CJson.Item c) × Option (List (List ℕ)))
  get_db_list h = do
    (h', ok, str) ← Json.get_string c h (codes "db_list")
    some (h', (if ok then some (split str (b',' ∷ [])) else none))

  -- One test of `GetSqlParam`, and what follows it.
  unfoldable pub sql_text :
      List ℕ
      → (JsonHelper (CJson.Item c) → List ℕ → Option (JsonHelper (CJson.Item c) × SqlParam))
      → (List ℕ → SqlParam)
      → JsonHelper (CJson.Item c)
      → Option (JsonHelper (CJson.Item c) × SqlParam)
  sql_text node more failed h = do
    (h', ok, text) ← Json.get_string2 c h (codes "mysql") node
    if ok then more h' text else some (h', failed text)

  -- `GetSqlParam`.
  unfoldable pub get_sql_param :
      JsonHelper (CJson.Item c) → Option (JsonHelper (CJson.Item c) × SqlParam)
  get_sql_param =
      sql_text (codes "host")
        (λ h1 host.
          sql_text (codes "user")
            (λ h2 user.
              sql_text (codes "passwd")
                (λ h3 passwd.
                  sql_text (codes "db")
                    (λ h4 db.
                      let (h5, ok, port) = get_int2 c h4 (codes "mysql") (codes "port") in
                      some (h5, param ok host user passwd db (some port)))
                    (λ db. param false host user passwd db none) h3)
                (λ passwd. param false host user passwd [] none) h2)
            (λ user. param false host user [] [] none) h1)
        (λ host. param false host [] [] [] none)
    where
      param : Bool → List ℕ → List ℕ → List ℕ → List ℕ → Option ℕ → SqlParam
      param found host user passwd db port = record {
        found = found;
        host = host;
        user = user;
        passwd = passwd;
        db = db;
        port = port;
      }
