-- ===== src/Base/Json.antt =====
-- JSON values. A number is an integer (`nat`, or `negative n` for -(n + 1)) or `fraction`.
use Prim.Native.Nat.{ℕ}
use Prim.Native.String.{String}
use mathlib.Core.Bool.{Bool}
use mathlib.Core.Option.{Option, none, some}
use creative_backend.Base.Tests.{◌==◌, if◌then◌else◌}

mutual
  pub data Json : Type 0 where
    null fraction : Json
    bool : Bool → Json
    nat negative : ℕ → Json
    str : String → Json
    arr : Items → Json
    obj : Fields → Json

  pub data Items : Type 0 where
    nil : Items
    cons : Json → Items → Items

  pub data Fields : Type 0 where
    end : Fields
    field : String → Json → Fields → Fields

-- `object[key]`, `none` for `undefined`
abbrev pub get : String → Fields → Option Json
get k end = none
get k (field j v fs) = if j == k then some v else get k fs

-- the value of a string property
abbrev pub as_text : Option Json → Option String
as_text (some (str s)) = some s
as_text _ = none

abbrev pub get_text : String → Fields → Option String
get_text k fs = as_text (get k fs)
