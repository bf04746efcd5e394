-- ===== src/Controllers/Samples.antt =====
-- A server, a shop and bodies for the tests of the interfaces. A parsed body is a number or a text for each
-- key, and a digest of one byte stands for the ones of OpenSSL.

use trade_reconcile_system.Base.{Bool, Option, [], false, none, some, true, ◌+◌, ◌∷◌}
use trade_reconcile_system.Base.Bytes.{Bytes, codes}
use trade_reconcile_system.Base.Int.{pos, ℤ}
use trade_reconcile_system.Channel.{Settings}
use trade_reconcile_system.Controllers.{HttpRequest, HttpResponse, Server}
use trade_reconcile_system.Db.{Db, ProductRow}
use trade_reconcile_system.Db.Monad.{Env, World}
use trade_reconcile_system.Ids.{fresh_generator}
use trade_reconcile_system.Models.Json.{JsonReader}
use trade_reconcile_system.RequestId.{post}

pub data Sample : Type 0 where
  int_value : ℤ → Sample
  text_value : Bytes → Sample
  absent_value : Sample
  sample_members : (Bytes → Option ℤ) → (Bytes → Option Bytes) → Sample

abbrev pub value_of : Option ℤ → Option Bytes → Sample
value_of (some n) t = int_value n
value_of none (some t) = text_value t
value_of none none = absent_value

abbrev pub there : Sample → Bool
there absent_value = false
there _ = true

abbrev pub sample_at : Sample → Bytes → Sample
sample_at (sample_members ints texts) key = value_of (ints key) (texts key)
sample_at _ key = absent_value

abbrev pub int_of : Sample → Option ℤ
int_of (int_value n) = some n
int_of _ = none

abbrev pub bytes_of : Sample → Option Bytes
bytes_of (text_value s) = some s
bytes_of _ = none

abbrev pub sample_reader : JsonReader Sample
sample_reader = record {
  takes_keys = λ json. true;
  is_member = λ json key. there (sample_at json key);
  at = sample_at;
  is_numeric = λ json. elim (int_of json) [ none ↦ false | some _ ↦ true ];
  is_string = λ json. elim (bytes_of json) [ none ↦ false | some _ ↦ true ];
  as_int = int_of;
  as_int64 = int_of;
  as_string = bytes_of;
  as_bool = λ json. some false;
}

abbrev pub exception_page : HttpResponse
exception_page = record { http_status = 500; is_json = false; response_text = [] }

abbrev pub sample_server : Server Sample
sample_server = record {
  reader = sample_reader;
  write_http = λ j. codes "{}";
  sha256 = λ s. 31 ∷ [];
  exception_response = exception_page;
}

abbrev pub sample_env : Env
sample_env = record {
  clock = λ n. 1704067200000 + n;
  rounds = 5;
  db_now = 1704067200;
  write_compact = λ j. codes "{}";
  write_styled = λ j. codes "{ }";
}

abbrev pub sample_phone : ProductRow
sample_phone = record {
  id = 7;
  product_no = codes "P7";
  name = codes "sample_phone";
  price = pos 39900;
  stock = 5;
  version = 0;
  status = 1;
}

abbrev pub sample_shop : Db
sample_shop = record {
  products = sample_phone ∷ [];
  orders = [];
  idempotents = [];
  accounts = [];
  flows = [];
  payments = [];
  messages = [];
  notifies = [];
  batches = [];
  diffs = [];
}

abbrev pub sample_start : World
sample_start = record {
  committed = sample_shop;
  working = sample_shop;
  finished = false;
  generator = fresh_generator;
  faults = [];
}

-- A digest of one byte stands for OpenSSL's.
abbrev pub sample_settings : Settings
sample_settings = record {
  hmac = λ key data_. 31 ∷ [];
  secret = some (codes "s");
  exchange = none;
  routing_key_notify = none;
}

abbrev pub no_texts : Bytes → Option Bytes
no_texts key = none

abbrev pub request_with : Option Sample → HttpRequest Sample
request_with json = record {
  filtered = record {
    method = post;
    header = codes "0123456789abcdef";
    attribute = some (codes "0123456789abcdef");
  };
  json = json;
  request_body = codes "{...}";
  parameter = λ key. [];
}
