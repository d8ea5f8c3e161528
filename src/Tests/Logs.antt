-- ===== src/Tests/Logs.antt =====
-- logger.cpp at concrete inputs.
use pluto_server.Prelude.{◌-◌, ◌<◌, ◌≡◌, refl, true, List, [], ◌∷◌, ◌++◌, length, take}
use pluto_server.Prelude.Text.{codes}
use pluto_server.Util.{log_debug, log_info, log_error, max_log_buff_size}
use pluto_server.Logger.{Logger, new_logger, log_text, section_of, is_set_path}
use pluto_server.Logger.Line.{head_of, log_text-line}
use pluto_server.Logger.Files.{LogCall, run, entries, run-entries}

log_text-line_example :
    (log_text max_log_buff_size (codes "12:00:00") (section_of log_info) (codes "started")
      ≡ head_of (codes "12:00:00") (section_of log_info)
        ++ take
            (max_log_buff_size - length (head_of (codes "12:00:00") (section_of log_info)) - 1)
            (codes "started"))
    × (length
          (log_text max_log_buff_size (codes "12:00:00") (section_of log_info) (codes "started"))
        < max_log_buff_size)
log_text-line_example = log_text-line (codes "12:00:00") (codes "started") log_info refl

-- A logger that lets through all but debugging, over midnight.
abbrev logger : Logger
logger = record new_logger { path = codes "log/"; server_name = codes "game"; log_level = 0xfe }

abbrev over_midnight : List LogCall
over_midnight =
    record { log_type = log_info; day = codes "20180101"; hmsu = codes "23:59:59"; msg = codes "a" }
    ∷ (record {
      log_type = log_debug;
      day = codes "20180102";
      hmsu = codes "00:00:00";
      msg = codes "b";
    }
        ∷ (record {
          log_type = log_error;
          day = codes "20180102";
          hmsu = codes "00:00:01";
          msg = codes "c";
        }
            ∷ []))

path_set : is_set_path (codes "log/") ≡ true
unfolding is_set_path
path_set = refl

run-entries_example :
    (run (λ name. true) logger over_midnight).written
    ≡ logger.written ++ entries (codes "log/") (codes "game") 0xfe over_midnight
run-entries_example =
    run-entries (codes "log/") (codes "game") 0xfe path_set (λ name. refl) logger over_midnight
      (record { path_is = refl; server_is = refl; level_is = refl; stream = λ name e. cc })
