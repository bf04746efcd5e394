-- ===== src/Controllers/AdminTests.antt =====
-- Requests of an operator, and a witness. Each member of a parsed body is the text of an action.
use trade_reconcile_system.Base.{[], false, none, refl, some, true, ◌+◌, ◌∷◌, ◌≡◌}
use trade_reconcile_system.Base.Bytes.{codes, str_eq}
use trade_reconcile_system.Base.Int.{pos}
use trade_reconcile_system.Controllers.{HttpRequest, HttpResponse, Server, submits_task}
use trade_reconcile_system.Controllers.Admin.{
  get_diffs, handle_handle_diff, handle_list_diffs, post_handle_diff,
}
use trade_reconcile_system.Controllers.Unanswered.{list_failure, post_handle_diff-unanswered}
use trade_reconcile_system.Db.{Db}
use trade_reconcile_system.Db.Monad.{Env, World, db_exception, done, thrown}
use trade_reconcile_system.Ids.{fresh_generator}
use trade_reconcile_system.Models.Json.{JsonReader}
use trade_reconcile_system.Reconcile.{verified}
use trade_reconcile_system.ReconcileService.Diffs.{action_status}
use trade_reconcile_system.RequestId.{post}

abbrev reader : JsonReader (Unit {0})
reader = record {
  takes_keys = λ json. true;
  is_member = λ json key. true;
  at = λ json key. tt;
  is_numeric = λ json. false;
  is_string = λ json. true;
  as_int = λ json. none;
  as_int64 = λ json. none;
  as_string = λ json. some (codes "verify");
  as_bool = λ json. none;
}

abbrev failed_page : HttpResponse
failed_page = record { http_status = 500; is_json = false; response_text = [] }

abbrev server : Server (Unit {0})
server = record {
  reader = reader;
  write_http = λ j. codes "{}";
  sha256 = λ s. 31 ∷ [];
  exception_response = failed_page;
}

abbrev env : Env
env = record {
  clock = λ n. 1704067200000 + n;
  rounds = 5;
  db_now = 1704067200;
  write_compact = λ j. codes "{}";
  write_styled = λ j. codes "{ }";
}

abbrev request : HttpRequest (Unit {0})
request = record {
  filtered = record { method = post; header = []; attribute = none };
  json = some tt;
  request_body = codes "{...}";
  parameter = λ key. codes "R1";
}

abbrev no_rows : Db
no_rows = record {
  products = [];
  orders = [];
  idempotents = [];
  accounts = [];
  flows = [];
  payments = [];
  messages = [];
  notifies = [];
  batches = [];
  diffs = [];
}

-- The database goes away before the next statement.
abbrev faulty : World
faulty = record {
  committed = no_rows;
  working = no_rows;
  finished = false;
  generator = fresh_generator;
  faults = true ∷ [];
}

submits_listing : handle_list_diffs server request ≡ submits_task (codes "R1")
unfolding handle_list_diffs
submits_listing = refl

submits_handling : handle_handle_diff server request ≡ submits_task (codes "verify", codes "verify")
unfolding handle_handle_diff
submits_handling = refl

verifies : action_status (codes "verify") ≡ some verified
unfolding action_status str_eq
verifies = refl

post_handle_diff-unanswered_example :
    (get_diffs server true request faulty
      ≡ (done (list_failure server faulty [] refl (codes "R1")), record faulty { faults = [] }))
    × (post_handle_diff server env (pos 3) true request faulty
        ≡ (thrown db_exception, record faulty { faults = [] }))
post_handle_diff-unanswered_example =
    post_handle_diff-unanswered server faulty [] refl env (pos 3) request request (codes "R1")
      (codes "verify") (codes "verify") submits_listing submits_handling verifies
