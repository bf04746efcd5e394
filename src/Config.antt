-- ===== src/Config.antt =====
-- How the two ends of the message queue read their part of the configuration: `loadMqConfig` of
-- src/tasks/MessageRelayTask.cc with the defaults of src/utils/MqClient.h, and `connectAndSubscribe`
-- and `readConfigString` of src/consumer/NotifyConsumer.cc. The configuration is a value of jsoncpp.
pub mod Ports
mod Tests
use trade_reconcile_system.Base.{Option, if◌then◌else◌, none, not, some}
use trade_reconcile_system.Base.Bytes.{Bytes, codes}
use trade_reconcile_system.Base.Int.{pos, ℤ}
use trade_reconcile_system.Models.Json.{JsonReader}

pub record MqConfig : Type 0 where
  pub host : Bytes
  pub port : ℤ
  pub user : Bytes
  pub password : Bytes
  pub vhost : Bytes

unfoldable pub default_mq_config : MqConfig
default_mq_config = record {
  host = codes "127.0.0.1";
  port = pos 5672;
  user = codes "guest";
  password = codes "guest";
  vhost = codes "/";
}

-- The five values, when none of their conversions throws.
unfoldable pub all_values :
    Option Bytes → Option ℤ → Option Bytes → Option Bytes → Option Bytes → Option MqConfig
all_values (some host) (some port) (some user) (some password) (some vhost) =
    some (record { host = host; port = port; user = user; password = password; vhost = vhost })
all_values _ _ _ _ _ = none

module _ {J : Type 0} (reader : JsonReader J) where
  unfoldable pub text_or : J → Bytes → Bytes → Option Bytes
  text_or section key fallback =
      if not (reader.takes_keys section)
      then none
      else if reader.is_member section key
      then reader.as_string (reader.at section key)
      else some fallback

  unfoldable pub int_or : J → Bytes → ℤ → Option ℤ
  int_or section key fallback =
      if not (reader.takes_keys section)
      then none
      else if reader.is_member section key
      then reader.as_int (reader.at section key)
      else some fallback

  unfoldable pub load_mq_config : J → Option MqConfig
  unfolding all_values text_or int_or default_mq_config
  load_mq_config config =
      let section = reader.at config (codes "rabbitmq") in
      if not (reader.takes_keys config)
      then none
      else if reader.is_member config (codes "rabbitmq")
      then all_values (text_or section (codes "host") default_mq_config.host)
          (int_or section (codes "port") default_mq_config.port)
          (text_or section (codes "user") default_mq_config.user)
          (text_or section (codes "password") default_mq_config.password)
          (text_or section (codes "vhost") default_mq_config.vhost)
      else some default_mq_config

  -- The reading in `connectAndSubscribe`, which takes the section without asking for it.
  unfoldable pub consumer_config : J → Option MqConfig
  unfolding all_values text_or int_or
  consumer_config config =
      let section = reader.at config (codes "rabbitmq") in
      if not (reader.takes_keys config)
      then none
      else all_values (text_or section (codes "host") (codes "127.0.0.1"))
          (int_or section (codes "port") (pos 5673))
          (text_or section (codes "user") (codes "guest"))
          (text_or section (codes "password") (codes "guest"))
          (text_or section (codes "vhost") (codes "/"))

  -- `readConfigString`
  unfoldable pub read_config_string : J → Bytes → Bytes → Option Bytes
  unfolding text_or
  read_config_string config key fallback =
      let section = reader.at config (codes "rabbitmq") in
      if not (reader.takes_keys config)
      then none
      else if reader.is_member config (codes "rabbitmq")
      then text_or section key fallback
      else some fallback
