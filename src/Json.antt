-- ===== src/Json.antt =====
-- JSON values as Go decodes them into `any`: numbers stay texts (`decoder.UseNumber`), and a
-- `map[string]any` is the list of its entries.
use safeops_agent.Prelude.{String, Bool}

mutual
  pub data Json : Type 0 where
    null : Json
    bool : Bool → Json
    num : String → Json
    str : String → Json
    arr : Items → Json
    obj : Fields → Json

  pub data Items : Type 0 where
    nil : Items
    cons : Json → Items → Items

  pub data Fields : Type 0 where
    end : Fields
    field : String → Json → Fields → Fields
