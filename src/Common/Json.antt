-- ===== src/Common/Json.antt =====
-- Values as Python's `json` reads them. Numbers are the natural numbers; a list and a dict inside a
-- value are data types of their own.
use nmos_common.Common.{ℕ, String, Bool}

mutual
  pub data Json : Type 0 where
    null : Json
    bool : Bool → Json
    int : ℕ → Json
    str : String → Json
    list : Items → Json
    dict : Fields → Json

  pub data Items : Type 0 where
    nil : Items
    item : Json → Items → Items

  pub data Fields : Type 0 where
    end : Fields
    field : String → Json → Fields → Fields
