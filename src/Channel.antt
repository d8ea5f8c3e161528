-- ===== src/Channel.antt =====
-- common/channel.h, common/channel.cpp, common/connector.h and common/connector.cpp. A watcher of
-- libev is known by its address alone; what the program has libev do with it is recorded where it does.
use pluto_server.Prelude.{ℕ, Bool, false, List, Option, none, some, ◌>>=◌}
use pluto_server.Prelude.Memory.{Allocator}
use pluto_server.Buffer
use pluto_server.Buffer.{Buffer}
use pluto_server.Package.{Package, read_pdu, total_length}
use pluto_server.Util.{FdType, fd_type_connect}

-- `fd` is the bit pattern of an `int`; `io_watcher` is `none` for NULL.
pub record Channel : Type 0 where
  pub fd : ℕ
  pub io_watcher : Option ℕ
  pub fdtype : FdType
  pub in_buf : Buffer
  pub out_buf : Buffer

-- `Channel::Channel`.
abbrev pub new_channel : ℕ → Option ℕ → FdType → Channel
new_channel fd io_watcher fdtype = record {
  fd = fd;
  io_watcher = io_watcher;
  fdtype = fdtype;
  in_buf = Buffer.empty;
  out_buf = Buffer.empty;
}

-- The rest of `ReadPackage`, by what `ReadPdu` returned.
unfoldable pub consume : Channel → Option Package → Option (Option Package × Channel)
consume c none = some (none, c)
consume c (some pack) = do
  (len, dst, in_buf) ← Buffer.read c.in_buf none (total_length pack)
  some (some pack, record c { in_buf = in_buf })

-- `ReadPackage`: the package or NULL, and the channel.
unfoldable pub read_package : Allocator → Channel → Option (Option Package × Channel)
unfolding consume
read_package heap c = do pack ← read_pdu heap c.in_buf.block c.in_buf.write_offset; consume c pack

-- `class Connector : public Channel`.
pub record Connector : Type 0 where
  pub channel : Channel
  pub server_ip : List ℕ
  pub port : ℕ
  pub success : Bool

-- `Connector::Connector`.
abbrev pub new_connector : ℕ → List ℕ → ℕ → Connector
new_connector fd server_ip port = record {
  channel = new_channel fd none fd_type_connect;
  server_ip = server_ip;
  port = port;
  success = false;
}

-- `SetSuccess`, `SetFd` and `SetIoWatcher`.
abbrev pub set_success : Connector → Bool → Connector
set_success c success = record c { success = success }

abbrev pub set_fd : Connector → ℕ → Connector
set_fd c fd = record c { channel = record c.channel { fd = fd } }

abbrev pub set_io_watcher : Connector → ℕ → Connector
set_io_watcher c watcher = record c { channel = record c.channel { io_watcher = some watcher } }
