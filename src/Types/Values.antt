-- ===== src/Types/Values.antt =====
-- Go's `any` as far as the program's maps hold it, `map[string]any` with its nil value, and the
-- shallow copy `cloneMap` (workflow/id.go, and the same text in workflowtest/memory_store.go).
use fsm_go.Prelude.{ℤ, pos, eq_ℤ, String, Bool, Option, none, some, []}
use fsm_go.Dict.{Dict}

mutual
  -- a number is an integer, of whatever type of Go; fractions are left out; nested slices and maps are values of the block
  pub data Any : Type 0 where
    null : Any
    flag : Bool → Any
    number : ℤ → Any
    text : String → Any
    items : AnyItems → Any
    object : AnyFields → Any

  pub data AnyItems : Type 0 where
    nil : AnyItems
    cons : Any → AnyItems → AnyItems

  pub data AnyFields : Type 0 where
    end : AnyFields
    field : String → Any → AnyFields → AnyFields

-- `none` is the nil map
abbrev pub AnyMap : Type 0
AnyMap = Option (Dict Any)

abbrev pub Time : Type 0
Time = ℤ

abbrev pub Duration : Type 0
Duration = ℤ

-- t.IsZero()
abbrev pub is_zero : Time → Bool
is_zero t = eq_ℤ t (pos 0)

abbrev pub nil_map : AnyMap
nil_map = none

-- A copy has the same entries; the nil map's copy is an empty map.
abbrev pub clone_map : AnyMap → AnyMap
clone_map none = some []
clone_map (some m) = some m
