-- ===== src/Base/Json.antt =====
-- The values that `JSON.parse` returns and `JSON.stringify` takes.
pub mod Written
use mathlib.Core.Option.{Option, none, some}
use mathlib.Core.Bool.{Bool}
use fuck_chat_control.Base.Tests.{if◌then◌else◌}
use fuck_chat_control.Base.Eq.{Str, str_beq}

-- A number is kept as its literal. An object's own properties have different names.
mutual
  pub data Json : Type 0 where
    null : Json
    bool : Bool → Json
    num : Str → Json
    text : Str → Json
    arr : Items → Json
    obj : Fields → Json

  pub data Items : Type 0 where
    nil : Items
    cons : Json → Items → Items

  pub data Fields : Type 0 where
    end : Fields
    field : Str → Json → Fields → Fields

unfoldable pub find : Str → Fields → Option Json
find k end = none
find k (field j v fs) = if str_beq j k then some v else find k fs

-- `value[k]` for a name that no prototype has: `undefined` is `none`.
unfoldable pub property : Str → Json → Option Json
unfolding find
property k (obj fs) = find k fs
property k _ = none
