-- ===== src/Json.antt =====
-- The JSON documents that rows carry (`dict[str, Any]` columns of
-- packages/backend/platform-core/src/anytoolai_platform_core). The modelled code stores and passes
-- them, reads them by key and tests their truth; a float stands as its `repr`, and `negative n` is
-- the integer -(n + 1).
pub mod Dict
pub mod Entries
use anytoolai_platform.Prelude.{ℕ, String, Bool}

mutual
  pub data Json : Type 0 where
    null : Json
    boolean : Bool → Json
    integer : ℕ → Json
    negative : ℕ → Json
    float : String → Json
    text : String → Json
    array : Items → Json
    object : Fields → Json

  pub data Items : Type 0 where
    nil : Items
    cons : Json → Items → Items

  pub data Fields : Type 0 where
    empty : Fields
    field : String → Json → Fields → Fields
