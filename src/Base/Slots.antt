-- ===== src/Base/Slots.antt =====
-- Pointers to memory that is released at most once.
use mathlib.Core.Bool.{Bool, true, false}
use mathlib.Core.Option.{Option, none, some}

-- A pointer: NULL, to an object that is held, or to one that was released.
pub data Slot : Type 0 where
  null held released : Slot

abbrev pub is_null : Slot → Bool
is_null null = true
is_null held = false
is_null released = false

abbrev pub is_released : Slot → Bool
is_released null = false
is_released held = false
is_released released = true

-- `free` and the like: NULL is left alone, and a second release is a fault.
abbrev pub free : Slot → Option Slot
free null = some null
free held = some released
free released = none
