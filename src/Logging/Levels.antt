-- ===== src/Logging/Levels.antt =====
-- The class before `shutdown`, after any sequence of its calls (src/common/Logger.cc).
use trade_reconcile_system.Base.{
  Bool, List, [], ap, false, if◌then◌else◌, inl, inr, refl, some, sym, true, ◌∙◌, ◌∷◌, ◌≡◌, ◌⊎◌,
}
use trade_reconcile_system.Base.Bytes.{Bytes}
use trade_reconcile_system.Logging.{
  Level, Logging, SpdLogger, call_once, debug_level, do_init, ensure_initialized, fresh_logging,
  get_logger, init, look_up, request_logger, returned, sanitize_request_id, set_level,
  with_request_id,
}

pub data LogCall : Type 0 where
  init_call : Bool → Level → LogCall
  get_call : Bool → LogCall
  request_call : Bool → Bytes → LogCall

unfoldable pub perform : LogCall → Logging → Logging
unfolding init get_logger with_request_id
perform (init_call file_opens level) s = init file_opens level s
perform (get_call file_opens) s = (get_logger file_opens s).1
perform (request_call file_opens raw) s = (with_request_id file_opens raw s).1

unfoldable pub perform_all : List LogCall → Logging → Logging
unfolding perform
perform_all [] s = s
perform_all (c ∷ calls) s = perform_all calls (perform c s)

-- Not shut down, and with a root logger from the first initialisation on.
abbrev IsServing : Logging → Type 0
IsServing s =
    (s.shutdown_flag ≡ false) × ((s.init_done ≡ false) ⊎ ((l : SpdLogger) × (s.logger ≡ some l)))

-- Initialised with this level.
abbrev IsAt : Level → Logging → Type 0
IsAt level s =
    (s.shutdown_flag ≡ false) × ((l : SpdLogger) × (s.logger ≡ some l) × (l.log_level ≡ level))

-- The root logger that there is after `call_once`.
once-held :
    (b file_opens : Bool) (level : Level) (s : Logging)
    → s.init_done ≡ b
    → IsServing s
    → let t = if b then s else record (do_init file_opens level s) { init_done = true } in
      (t.shutdown_flag ≡ false) × ((l : SpdLogger) × (t.logger ≡ some l))
unfolding do_init
once-held true file_opens level s e (running, inl not_yet) = cc
once-held true file_opens level s e (running, inr has_logger) = (running, has_logger)
once-held false file_opens level s e (running, h) = (running, (_, refl))

init-IsAt :
    (file_opens : Bool) (level : Level) (s : Logging)
    → IsServing s
    → IsAt level (init file_opens level s)
unfolding init call_once set_level
init-IsAt file_opens level s h =
    let (running, (l, e)) = once-held s.init_done file_opens level s refl h in
    (running, (record l { log_level = level }, rw e refl, refl))

ensured :
    (b file_opens : Bool) (s : Logging)
    → s.shutdown_flag ≡ b
    → IsServing s
    → IsAt debug_level (if b then s else init file_opens debug_level s)
ensured true file_opens s e h = cc (sym e ∙ h.0)
ensured false file_opens s e h = init-IsAt file_opens debug_level s h

ensure_initialized-IsAt :
    (file_opens : Bool) (s : Logging)
    → IsServing s
    → IsAt debug_level (ensure_initialized file_opens s)
unfolding ensure_initialized
ensure_initialized-IsAt file_opens s h = ensured s.shutdown_flag file_opens s refl h

IsAt-IsServing : (level : Level) (s : Logging) → IsAt level s → IsServing s
IsAt-IsServing level s (running, (l, there_now, at)) = (running, inr (l, there_now))

perform-IsServing : (c : LogCall) (s : Logging) → IsServing s → IsServing (perform c s)
unfolding perform get_logger with_request_id
perform-IsServing (init_call file_opens level) s h =
    IsAt-IsServing level (init file_opens level s) (init-IsAt file_opens level s h)
perform-IsServing (get_call file_opens) s h =
    IsAt-IsServing debug_level (ensure_initialized file_opens s)
      (ensure_initialized-IsAt file_opens s h)
perform-IsServing (request_call file_opens raw) s h =
    IsAt-IsServing debug_level (ensure_initialized file_opens s)
      (ensure_initialized-IsAt file_opens s h)

perform_all-IsServing :
    (calls : List LogCall) (s : Logging) → IsServing s → IsServing (perform_all calls s)
unfolding perform_all
perform_all-IsServing [] s h = h
perform_all-IsServing (c ∷ calls) s h =
    perform_all-IsServing calls (perform c s) (perform-IsServing c s h)

reached-IsServing : (calls : List LogCall) → IsServing (perform_all calls fresh_logging)
reached-IsServing calls = perform_all-IsServing calls fresh_logging (refl, inl refl)

-- After any calls of `init`, `get` and `withRequestId`, `get` answers with a logger of level debug,
-- whatever level `init` was given.
pub get_logger-debug :
    (calls : List LogCall) (file_opens : Bool)
    → (l : SpdLogger) × ((get_logger file_opens (perform_all calls fresh_logging)).0 ≡ some l)
      × (l.log_level ≡ debug_level)
unfolding get_logger
get_logger-debug calls file_opens =
    (ensure_initialized-IsAt file_opens (perform_all calls fresh_logging)
      (reached-IsServing calls)).1

looked_up :
    (s : Logging) (raw safe : Bytes)
    → IsServing s
    → ((l : SpdLogger) × (s.logger ≡ some l))
    → (l : SpdLogger) × (look_up s raw safe ≡ returned (some l))
unfolding look_up
looked_up s [] [] h (l, e) = (l, ap returned e)
looked_up s (c ∷ raw) [] h (l, e) = (l, rw e refl)
looked_up s raw (c ∷ safe) h (l, e) = (request_logger s.sinks (c ∷ safe) l, rw e refl)

-- After any calls without `shutdown`, `withRequestId` answers with a logger for every id.
pub with_request_id-serves :
    (calls : List LogCall) (file_opens : Bool) (raw : Bytes)
    → (l : SpdLogger) × ((with_request_id file_opens raw (perform_all calls fresh_logging)).0
        ≡ returned (some l))
unfolding with_request_id
with_request_id-serves calls file_opens raw =
    let s = ensure_initialized file_opens (perform_all calls fresh_logging) in
    let at =
      ensure_initialized-IsAt file_opens (perform_all calls fresh_logging)
        (reached-IsServing calls) in
    let (l, e, level) = at.1 in
    looked_up s raw (sanitize_request_id raw) (IsAt-IsServing debug_level s at) (l, e)
