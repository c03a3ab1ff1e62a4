-- ===== src/Json.antt =====
-- JSON values, and what encoding/json does with them when it fills a Go struct. The text of a
-- value (its parser and printer) is a parameter of the modules that use it.
pub mod Decode
use claude_cowork_service.Base.{ℕ, Bytes, Bool}

mutual
  pub data Json : Type 0 where
    null : Json
    bool : Bool → Json
    -- An integer literal: its sign (true for a minus) and its digits.
    int : Bool → ℕ → Json
    -- Any other number literal, by its text.
    frac : Bytes → Json
    str : Bytes → Json
    arr : Items → Json
    obj : Fields → Json

  pub data Items : Type 0 where
    nil : Items
    cons : Json → Items → Items

  pub data Fields : Type 0 where
    end : Fields
    field : Bytes → Json → Fields → Fields
