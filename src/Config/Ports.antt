-- ===== src/Config/Ports.antt =====
-- Whether the relay and the consumer talk to the same broker.
use trade_reconcile_system.Base.{
  Bool, Bool-cases, Option, ap, arith, false, if◌then◌else◌, inl, inr, none, not, refl, some,
  some_inj, sym, true, ◌↔◌, ◌∙◌, ◌≡◌, ◌≢◌,
}
use trade_reconcile_system.Base.Bytes.{Bytes, codes}
use trade_reconcile_system.Base.Int.{pos, pos_part, ℤ}
use trade_reconcile_system.Config.{
  MqConfig, all_values, consumer_config, default_mq_config, int_or, load_mq_config, text_or,
}
use trade_reconcile_system.Models.Json.{JsonReader}

all_values-port :
    (h : Option Bytes) (p : Option ℤ) (u w v : Option Bytes) {c : MqConfig}
    → all_values h p u w v ≡ some c
    → p ≡ some c.port
unfolding all_values
all_values-port none p u w v e = cc
all_values-port (some h) none u w v e = cc
all_values-port (some h) (some p) none w v e = cc
all_values-port (some h) (some p) (some u) none v e = cc
all_values-port (some h) (some p) (some u) (some w) none e = cc
all_values-port (some h) (some p) (some u) (some w) (some v) e =
    ap (λ (c : MqConfig). some c.port) (some_inj e)

port_values : pos 5672 ≢ pos 5673
port_values e = omega (arith, ap pos_part e)

-- A value that was read has passed the look at its object.
unless_none :
    {A : Type 0} (b : Bool) {o : Option A} {a : A}
    → (if not b then none else o) ≡ some a
    → o ≡ some a
unless_none true e = e
unless_none false e = cc

module _ {J : Type 0} (reader : JsonReader J) where
  ports_differ :
      (section : J) {n m : ℤ}
      → reader.is_member section (codes "port") ≡ false
      → int_or reader section (codes "port") (pos 5672) ≡ some n
      → int_or reader section (codes "port") (pos 5673) ≡ some m
      → n ≢ m
  unfolding int_or
  ports_differ section missing e f same = port_values (
      some_inj (rw missing at (unless_none (reader.takes_keys section) e))
      ∙ same
      ∙ sym (some_inj (rw missing at (unless_none (reader.takes_keys section) f))))

  int_or-there :
      (section : J) (n m : ℤ)
      → reader.is_member section (codes "port") ≡ true
      → int_or reader section (codes "port") n ≡ int_or reader section (codes "port") m
  unfolding int_or
  int_or-there section n m there = rw there refl

  abbrev section_of : J → J
  section_of config = reader.at config (codes "rabbitmq")

  -- `loadMqConfig`, when there is a section.
  load_section :
      (config : J) {a : MqConfig}
      → reader.is_member config (codes "rabbitmq") ≡ true
      → load_mq_config reader config ≡ some a
      → all_values
          (text_or reader (section_of config) (codes "host") (codes "127.0.0.1"))
          (int_or reader (section_of config) (codes "port") (pos 5672))
          (text_or reader (section_of config) (codes "user") (codes "guest"))
          (text_or reader (section_of config) (codes "password") (codes "guest"))
          (text_or reader (section_of config) (codes "vhost") (codes "/"))
        ≡ some a
  unfolding load_mq_config default_mq_config
  load_section config there loads = rw there at (unless_none (reader.takes_keys config) loads)

  -- When the configuration has the section and no value of it fails to convert, the relay and the consumer
  -- read the same broker if and only if the section names the port.
  pub consumer_config-load_mq_config :
      (config : J) {a b : MqConfig}
      → reader.is_member config (codes "rabbitmq") ≡ true
      → load_mq_config reader config ≡ some a
      → consumer_config reader config ≡ some b
      → (a ≡ b) ↔ (reader.is_member (reader.at config (codes "rabbitmq")) (codes "port") ≡ true)
  unfolding consumer_config
  consumer_config-load_mq_config config {a} {b} there loads reads =
      let section = section_of config in
      let relay_reads = load_section config there loads in
      let consumer_reads = unless_none (reader.takes_keys config) reads in
      (
        λ same. elim (Bool-cases (reader.is_member section (codes "port"))) [
          | inl named ↦ named
          | inr missing ↦ absurd (
              ports_differ section missing (all_values-port _ _ _ _ _ relay_reads)
                (all_values-port _ _ _ _ _ consumer_reads) (ap (λ (c : MqConfig). c.port) same))
        ],
        λ named. some_inj (
            sym relay_reads
            ∙ ap
                (λ port.
                  all_values (text_or reader section (codes "host") (codes "127.0.0.1")) port
                    (text_or reader section (codes "user") (codes "guest"))
                    (text_or reader section (codes "password") (codes "guest"))
                    (text_or reader section (codes "vhost") (codes "/")))
                (int_or-there section (pos 5672) (pos 5673) named)
            ∙ consumer_reads),
      )
