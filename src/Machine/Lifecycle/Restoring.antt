-- ===== src/Machine/Lifecycle/Restoring.antt =====
-- What `Save` of one machine has returned is loaded by another.
use mach_emu.Base.{Bool, true, false}
use mach_emu.Controller.{Controller}
use mach_emu.Machine.Lifecycle.{Call, returns}

module _ {J W T Text : Type 0} where
  -- What a call that returned has returned.
  abbrev result : {A : Type 0} → A → Call J W T Text A → A
  result a (returns b m) = b
  result a _ = a

  abbrev has_returned : {A : Type 0} → Call J W T Text A → Bool
  has_returned (returns b m) = true
  has_returned _ = false
