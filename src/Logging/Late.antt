-- ===== src/Logging/Late.antt =====
-- The class after `shutdown` (src/common/Logger.cc), while threads of the pool may still log.
use trade_reconcile_system.Base.{
  Bool, List, [], false, if◌then◌else◌, none, refl, sym, true, ℕ, ◌∙◌, ◌∷◌, ◌≡◌,
}
use trade_reconcile_system.Base.Bytes.{Bytes}
use trade_reconcile_system.Logging.{
  Level, Logging, call_once, dereferences_null, do_init, ensure_initialized, get_logger, init,
  look_up, sanitize_request_id, set_level, shutdown, with_request_id,
}
use trade_reconcile_system.Logging.Levels.{
  LogCall, get_call, init_call, perform, perform_all, request_call,
}

-- Shut down after an initialisation: there is no root logger, and none will be made.
abbrev IsShut : Logging → Type 0
IsShut s = (s.shutdown_flag ≡ true) × (s.init_done ≡ true) × (s.logger ≡ none)

ensure_initialized-shut :
    (file_opens : Bool) (s : Logging) → IsShut s → ensure_initialized file_opens s ≡ s
unfolding ensure_initialized
ensure_initialized-shut file_opens s h = rw (h.0) refl

once-IsShut :
    (b file_opens : Bool) (level : Level) (s : Logging)
    → s.init_done ≡ b
    → IsShut s
    → IsShut (if b then s else record (do_init file_opens level s) { init_done = true })
once-IsShut true file_opens level s e h = h
once-IsShut false file_opens level s e h = cc (sym e ∙ h.1)

init-IsShut :
    (file_opens : Bool) (level : Level) (s : Logging) → IsShut s → IsShut (init file_opens level s)
unfolding init call_once set_level
init-IsShut file_opens level s h =
    let (shut, initialised, gone) = once-IsShut s.init_done file_opens level s refl h in
    (shut, initialised, rw gone refl)

perform-IsShut : (c : LogCall) (s : Logging) → IsShut s → IsShut (perform c s)
unfolding perform get_logger with_request_id
perform-IsShut (init_call file_opens level) s h = init-IsShut file_opens level s h
perform-IsShut (get_call file_opens) s h = rw (ensure_initialized-shut file_opens s h) h
perform-IsShut (request_call file_opens raw) s h = rw (ensure_initialized-shut file_opens s h) h

perform_all-IsShut : (calls : List LogCall) (s : Logging) → IsShut s → IsShut (perform_all calls s)
unfolding perform_all
perform_all-IsShut [] s h = h
perform_all-IsShut (c ∷ calls) s h = perform_all-IsShut calls (perform c s) (perform-IsShut c s h)

looked_up_late :
    (s : Logging) (c : ℕ) (raw safe : Bytes)
    → s.logger ≡ none
    → look_up s (c ∷ raw) safe ≡ dereferences_null
unfolding look_up
looked_up_late s c raw [] e = rw e refl
looked_up_late s c raw (d ∷ safe) e = rw e refl

-- After `shutdown` of an initialised logger, and any further calls, `withRequestId` with an id that is
-- not empty calls a member of the root logger that is no longer there.
pub with_request_id-late :
    (s : Logging) (calls : List LogCall) (file_opens : Bool) (c : ℕ) (raw : Bytes)
    → s.init_done ≡ true
    → (with_request_id file_opens (c ∷ raw) (perform_all calls (shutdown s))).0 ≡ dereferences_null
unfolding with_request_id shutdown
with_request_id-late s calls file_opens c raw initialised =
    let late = perform_all-IsShut calls (shutdown s) (refl, initialised, refl) in
    rw (ensure_initialized-shut file_opens (perform_all calls (shutdown s)) late) (
      looked_up_late (perform_all calls (shutdown s)) c raw (sanitize_request_id (c ∷ raw))
        (late.2))
