-- ===== src/Models/Json.antt =====
-- The Json::Value that a run of assignments `v["key"] = value` builds, as the members in the order
-- of the assignments. jsoncpp's writers and parsers are parameters where they are used.
use trade_reconcile_system.Base.{Bool, Option, String}
use trade_reconcile_system.Base.Bytes.{Bytes}
use trade_reconcile_system.Base.Int.{ℤ}

mutual
  pub data Json : Type 0 where
    null : Json
    number : ℤ → Json
    text : Bytes → Json
    phrase : String → Json
    object : Members → Json
    array : Items → Json

  pub data Members : Type 0 where
    end : Members
    member : String → Json → Members → Members

  pub data Items : Type 0 where
    nil : Items
    item : Json → Items → Items

-- The members of Json::Value that the code calls on a value it has not built; `none` where one throws
-- Json::LogicError. `takes_keys` holds of null and of objects: on every other value `isMember` and
-- `operator[]` of a key throw, so the code that calls them asks it first.
pub record JsonReader (J : Type 0) : Type 0 where
  pub takes_keys : J → Bool
  pub is_member : J → Bytes → Bool
  pub at : J → Bytes → J
  pub is_numeric : J → Bool
  pub is_string : J → Bool
  pub as_int : J → Option ℤ
  pub as_int64 : J → Option ℤ
  pub as_string : J → Option Bytes
  pub as_bool : J → Option Bool
