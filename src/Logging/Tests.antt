-- ===== src/Logging/Tests.antt =====
-- A process that starts, logs and shuts down, and witnesses.
use trade_reconcile_system.Base.{All, List, [], refl, some, true, ◌∷◌, ◌≡◌}
use trade_reconcile_system.Base.Bytes.{Bytes, codes, str_eq}
use trade_reconcile_system.Logging.{
  SpdLogger, call_once, debug_level, dereferences_null, do_init, ensure_initialized, fresh_logging,
  get_logger, info_level, init, parse_config_path, sanitize_request_id, shutdown, with_request_id,
}
use trade_reconcile_system.Logging.Late.{with_request_id-late}
use trade_reconcile_system.Logging.Levels.{
  LogCall, get_call, get_logger-debug, init_call, perform, perform_all,
}
use trade_reconcile_system.Logging.Sanitize.{IsSafeByte, sanitize_request_id-IsSafe}
use trade_reconcile_system.RequestId.{is_valid_request_id}

abbrev started : List LogCall
started = init_call true info_level ∷ get_call true ∷ []

abbrev long_id : Bytes
long_id = codes "0123456789abcdef"

accepted_id : is_valid_request_id long_id ≡ true
unfolding is_valid_request_id
accepted_id = refl

-- One illegal byte voids the id.
voided : sanitize_request_id (codes "abc%d") ≡ []
unfolding sanitize_request_id
voided = refl

-- A `--config` without a value is no option, and the last one counts.
config_paths :
    (parse_config_path (codes "--config" ∷ codes "a" ∷ codes "--config" ∷ codes "b" ∷ [])
      ≡ codes "b")
    × (parse_config_path (codes "--config" ∷ []) ≡ codes "./config/config.json")
unfolding parse_config_path str_eq
config_paths = (refl, refl)

sanitize_request_id-IsSafe_example : All IsSafeByte (sanitize_request_id long_id)
sanitize_request_id-IsSafe_example = sanitize_request_id-IsSafe long_id

get_logger-debug_example :
    (l : SpdLogger) × ((get_logger true (perform_all started fresh_logging)).0 ≡ some l)
    × (l.log_level ≡ debug_level)
get_logger-debug_example = get_logger-debug started true

started_once : (perform_all started fresh_logging).init_done ≡ true
unfolding perform_all perform init call_once do_init get_logger ensure_initialized
started_once = refl

with_request_id-late_example :
    (with_request_id true
      (b'a' ∷ [])
      (perform_all (get_call true ∷ []) (shutdown (perform_all started fresh_logging)))).0
    ≡ dereferences_null
with_request_id-late_example =
    with_request_id-late (perform_all started fresh_logging) (get_call true ∷ []) true b'a' []
      started_once
