-- ===== src/Logging.antt =====
-- src/common/Logger.cc, and the configuration path of src/main.cc. spdlog keeps no state that the model
-- needs beyond the loggers that the class holds and spdlog's registry and level; whether the log file
-- opens is a parameter.
use mathlib.Core.Option
pub mod Sanitize
pub mod Levels
pub mod Late
mod Tests
use trade_reconcile_system.Base.{
  Bool, List, Option, [], false, if◌then◌else◌, leb, length, ltb, map, none, some, true, ℕ, ◌&&◌,
  ◌++◌, ◌==◌, ◌||◌, ◌∷◌,
}
use trade_reconcile_system.Base.Bytes.{Bytes, codes, str_eq}

pub data Level : Type 0 where
  trace_level debug_level info_level warn_level err_level critical_level off_level : Level

pub data Sink : Type 0 where
  console_sink file_sink : Sink

-- spdlog::async_logger
pub record SpdLogger : Type 0 where
  pub logger_name : Bytes
  pub outputs : List Sink
  pub pattern_text : Bytes
  pub log_level : Level
  pub flush_level : Level

-- The flag of `call_once`, the four static members, and spdlog's registry and global level.
pub record Logging : Type 0 where
  pub init_done : Bool
  pub logger : Option SpdLogger
  pub pool : Bool
  pub sinks : List Sink
  pub shutdown_flag : Bool
  pub registered : Bool
  pub global_level : Level

abbrev pub fresh_logging : Logging
fresh_logging = record {
  init_done = false;
  logger = none;
  pool = false;
  sinks = [];
  shutdown_flag = false;
  registered = false;
  global_level = info_level;
}

abbrev pub base_pattern : Bytes
base_pattern = codes "[%Y-%m-%d %H:%M:%S.%e][%l][-] %v"

abbrev pub root_name : Bytes
root_name = codes "trade"

abbrev pub max_request_id_len : ℕ
max_request_id_len = 64

-- `doInit`: without the file, the console alone.
unfoldable pub do_init : Bool → Level → Logging → Logging
do_init file_opens level s =
    let outputs : List Sink = console_sink ∷ (if file_opens then file_sink ∷ [] else []) in
    record s {
      logger = some (record {
        logger_name = root_name;
        outputs = outputs;
        pattern_text = base_pattern;
        log_level = level;
        flush_level = err_level;
      });
      pool = true;
      sinks = outputs;
      registered = true;
      global_level = level;
    }

unfoldable pub call_once : Bool → Level → Logging → Logging
unfolding do_init
call_once file_opens level s =
    if s.init_done then s else record (do_init file_opens level s) { init_done = true }

set_level : Level → SpdLogger → SpdLogger
set_level level l = record l { log_level = level }

-- `Logger::init`
unfoldable pub init : Bool → Level → Logging → Logging
unfolding call_once set_level
init file_opens level s =
    let t = call_once file_opens level s in
    record t { logger = Option.map (set_level level) t.logger; global_level = level }

unfoldable pub ensure_initialized : Bool → Logging → Logging
unfolding init
ensure_initialized file_opens s = if s.shutdown_flag then s else init file_opens debug_level s

-- `Logger::get`
unfoldable pub get_logger : Bool → Logging → Option SpdLogger × Logging
unfolding ensure_initialized
get_logger file_opens s = let t = ensure_initialized file_opens s in (t.logger, t)

allowed_in_id : ℕ → Bool
allowed_in_id c =
    leb b'0' c && leb c b'9'
    || leb b'a' c && leb c b'z'
    || leb b'A' c && leb c b'Z'
    || c == b'-'
    || c == b'_'

-- The loop of `sanitizeRequestId`: the whole id is void when one byte is not allowed.
copy_allowed : Bytes → Bytes → Bytes
unfolding allowed_in_id
copy_allowed out [] = out
copy_allowed out (c ∷ raw) = if allowed_in_id c then copy_allowed (out ++ c ∷ []) raw else []

is_empty : Bytes → Bool
is_empty [] = true
is_empty (c ∷ s) = false

unfoldable pub sanitize_request_id : Bytes → Bytes
unfolding copy_allowed is_empty
sanitize_request_id raw =
    if is_empty raw || ltb max_request_id_len (length raw) then [] else copy_allowed [] raw

-- A logger, or none, or the call of a member of the logger that is not there.
pub data Lookup : Type 0 where
  returned : Option SpdLogger → Lookup
  dereferences_null : Lookup

request_logger : List Sink → Bytes → SpdLogger → SpdLogger
request_logger outputs safe root = record {
  logger_name = root_name ++ b'.' ∷ safe;
  outputs = outputs;
  pattern_text = codes "[%Y-%m-%d %H:%M:%S.%e][%l][" ++ safe ++ codes "] %v";
  log_level = root.log_level;
  flush_level = err_level;
}

-- The warning about an illegal id goes to the root logger, and the level of the new one is the root's.
unfoldable pub look_up : Logging → Bytes → Bytes → Lookup
unfolding request_logger
look_up s [] [] = returned s.logger
look_up s (c ∷ raw) [] = elim s.logger [ none ↦ dereferences_null | some l ↦ returned (some l) ]
look_up s raw (c ∷ safe) = elim s.logger [
  | none ↦ dereferences_null
  | some l ↦ returned (some (request_logger s.sinks (c ∷ safe) l))
]

-- `Logger::withRequestId`
unfoldable pub with_request_id : Bool → Bytes → Logging → Lookup × Logging
unfolding ensure_initialized look_up sanitize_request_id
with_request_id file_opens raw s =
    let t = ensure_initialized file_opens s in (look_up t raw (sanitize_request_id raw), t)

-- `Logger::shutdown`
unfoldable pub shutdown : Logging → Logging
shutdown s = record s {
  shutdown_flag = true;
  logger = none;
  pool = false;
  sinks = [];
  registered = false;
}

-- The loop of `parseConfigPath` over the arguments after the program's name; `takes_value` after a
-- `--config` that has one.
config_from : Bool → Bytes → List Bytes → Bytes
config_from takes_value path [] = path
config_from true path (arg ∷ args) = config_from false arg args
config_from false path (arg ∷ args) = config_from (str_eq arg (codes "--config")) path args

unfoldable pub parse_config_path : List Bytes → Bytes
unfolding config_from
parse_config_path args = config_from false (codes "./config/config.json") args
