-- ===== src/Logger.antt =====
-- common/logger.h and common/logger.cpp. Of the C library come, as arguments, the day that `strftime`
-- writes for "%Y%m%d", the time of day that `gettimeofday` gives as a text, and the message that
-- `vsnprintf` would write with no limit. What is written goes to `written`, file by file in one order.
pub mod Files
pub mod Line
use Prim.Native.Nat.{bit_and}
use pluto_server.Prelude.{
  ℕ, ◌+◌, ◌-◌, ◌%◌, ◌^◌, ltb, ◌==◌, not, Bool, true, false, List, [], ◌∷◌, ◌++◌, Option, none, some,
  length, take, if◌then◌else◌, ◌&&◌,
}
use pluto_server.Prelude.Text.{codes}
use pluto_server.Prelude.TextMap.{text_eq}
use pluto_server.Util.{log_debug, log_info, log_warning, log_error, log_all, max_log_buff_size}

-- `class Logger`. `opened` is the name under which the stream is open.
pub record Logger : Type 0 where
  pub path : List ℕ
  pub file : List ℕ
  pub server_name : List ℕ
  pub log_level : ℕ
  pub opened : Option (List ℕ)
  pub written : List (List ℕ × List ℕ)
  pub printed : List (List ℕ)

-- `Logger::Logger`, and the setters.
abbrev pub new_logger : Logger
new_logger = record {
  path = [];
  file = [];
  server_name = [];
  log_level = log_all;
  opened = none;
  written = [];
  printed = [];
}

abbrev pub set_log_path : Logger → List ℕ → Logger
set_log_path l path = record l { path = path }

-- The argument, an `int` of the caller, goes to `uint16_t`.
abbrev pub set_log_level : Logger → ℕ → Logger
set_log_level l log_level = record l { log_level = log_level % 2 ^ 16 }

abbrev pub set_server_name : Logger → List ℕ → Logger
set_server_name l name = record l { server_name = name }

-- `IsSetPath`, of `path_`.
unfoldable pub is_set_path : List ℕ → Bool
is_set_path [] = false
is_set_path (b ∷ path) = true

-- `szTemp`: the day with one of two endings, 12 bytes in an array of 16.
unfoldable pub day_file : ℕ → List ℕ → List ℕ
day_file log_type day = day ++ (if log_type == log_error then codes ".err" else codes ".log")

-- The name to open; `snprintf` cuts it to an array of 256.
unfoldable pub file_name : List ℕ → List ℕ → List ℕ → List ℕ
file_name path server_name temp =
    if is_set_path path then take 255 (path ++ (server_name ++ (codes "_" ++ temp))) else temp

-- The tests of `NewLine`: the stream is open, for this file.
unfoldable pub keeps_open : Logger → List ℕ → Bool
keeps_open l temp = elim l.opened [ none ↦ false | some name ↦ text_eq l.file temp ]

-- `open`, given which names can be opened.
unfoldable pub reopen : (List ℕ → Bool) → Logger → List ℕ → Logger
reopen opens l temp =
    let name = file_name l.path l.server_name temp in
    record l { file = temp; opened = if opens name then some name else none }

-- `NewLine`.
unfoldable pub new_line : (List ℕ → Bool) → Logger → ℕ → List ℕ → Logger
unfolding day_file file_name keeps_open reopen
new_line opens l log_type day =
    let temp = day_file log_type day in if keeps_open l temp then l else reopen opens l temp

-- `<< szTmp << EndLine`, which is lost on a stream that is not open.
abbrev pub put_at : Option (List ℕ) → Logger → List ℕ → Logger
put_at none l line = l
put_at (some name) l line = record l { written = l.written ++ ((name, line) ∷ []) }

unfoldable pub put_line : Logger → List ℕ → Logger
put_line l line = put_at l.opened l line

-- `_Log` into an array of `size`: the text in it.
unfoldable pub log_text : ℕ → List ℕ → List ℕ → List ℕ → List ℕ
log_text size hmsu section msg =
    let head = take 8 hmsu ++ (codes "[" ++ (section ++ codes "]")) in
    let n1 = length head in
    if ltb 0 n1 && ltb n1 size then head ++ take (size - n1 - 1) msg else take (size - 1) head

-- The switch of `Log2File`.
unfoldable pub section_of : ℕ → List ℕ
section_of log_type =
    if log_type == log_debug
    then codes "DEBUG  "
    else (if log_type == log_info
        then codes "INFO   "
        else (if log_type == log_warning
            then codes "WARNING"
            else (if log_type == log_error then codes "ERROR  " else codes "UNDEFINE")))

-- `Log2File`.
unfoldable pub log_to_file : (List ℕ → Bool) → Logger → ℕ → List ℕ → List ℕ → List ℕ → Logger
unfolding put_line
log_to_file opens l log_type day hmsu msg =
    if bit_and l.log_level log_type == 0
    then l
    else (let line = log_text max_log_buff_size hmsu (section_of log_type) msg in
        if is_set_path l.path
        then put_line (new_line opens l log_type day) line
        else record l { printed = l.printed ++ (line ∷ []) })

-- `LogDebug`, `LogInfo`, `LogWarning` and `LogError` are `Log2File` with these types.
pub data Severity : Type 0 where
  debug info warning error : Severity

abbrev pub type_of : Severity → ℕ
type_of debug = log_debug
type_of info = log_info
type_of warning = log_warning
type_of error = log_error
