-- ===== src/Runtime/Json.antt =====
-- JSON documents, as encoding/json builds them from tagged structs.
use memcached_operator.Prelude.{String}

mutual
  pub data Json : Type 0 where
    text : String → Json
    null : Json
    array : Items → Json
    object : Members → Json

  pub data Items : Type 0 where
    nil : Items
    cons : Json → Items → Items

  pub data Members : Type 0 where
    end : Members
    member : String → Json → Members → Members
