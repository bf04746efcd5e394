-- ===== src/Config/Tests.antt =====
-- A configuration whose section names no port, and a witness.
use trade_reconcile_system.Base.{Bool, false, none, refl, some, true, ◌↔◌, ◌≡◌}
use trade_reconcile_system.Base.Bytes.{Bytes, codes, str_eq}
use trade_reconcile_system.Base.Int.{pos}
use trade_reconcile_system.Config.{
  MqConfig, all_values, consumer_config, default_mq_config, int_or, load_mq_config, text_or,
}
use trade_reconcile_system.Config.Ports.{consumer_config-load_mq_config}
use trade_reconcile_system.Models.Json.{JsonReader}

-- The whole configuration, its section, and a text in it.
data Value : Type 0 where
  whole section_value text_value : Value

abbrev at_key : Value → Bytes → Value
at_key whole key = section_value
at_key _ key = text_value

abbrev has_key : Value → Bytes → Bool
has_key whole key = str_eq key (codes "rabbitmq")
has_key section_value key = str_eq key (codes "host")
has_key text_value key = false

abbrev reader : JsonReader Value
reader = record {
  takes_keys = λ j. true;
  is_member = has_key;
  at = at_key;
  is_numeric = λ j. false;
  is_string = λ j. true;
  as_int = λ j. none;
  as_int64 = λ j. none;
  as_string = λ j. some (codes "mq");
  as_bool = λ j. none;
}

abbrev relay_side : MqConfig
relay_side = record default_mq_config { host = codes "mq" }

abbrev consumer_side : MqConfig
consumer_side = record {
  host = codes "mq";
  port = pos 5673;
  user = codes "guest";
  password = codes "guest";
  vhost = codes "/";
}

relay_loads : load_mq_config reader whole ≡ some relay_side
unfolding load_mq_config all_values text_or int_or default_mq_config str_eq
relay_loads = refl

consumer_reads : consumer_config reader whole ≡ some consumer_side
unfolding consumer_config all_values text_or int_or str_eq
consumer_reads = refl

section_there : has_key whole (codes "rabbitmq") ≡ true
unfolding str_eq
section_there = refl

consumer_config-load_mq_config_example :
    (relay_side ≡ consumer_side) ↔ (has_key section_value (codes "port") ≡ true)
consumer_config-load_mq_config_example =
    consumer_config-load_mq_config reader whole section_there relay_loads consumer_reads
