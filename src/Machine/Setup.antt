-- ===== src/Machine/Setup.antt =====
-- The machine's controllers and its `running_` flag (Machine/source/Machine.cpp):
-- `SetMemoryController`, `SetIoController`, the opening of `Run` and `WaitForCompletion`. The
-- setting of the clock in `Run` is left out, and so is `fut_`, which is valid while the machine
-- runs.
use mathlib.Core.Sum.{inl-ne-inr}
use mach_emu.Base.Results.{not_refused}
use mach_emu.Base.{
  ℕ, ◌≡◌, refl, Bool, true, false, if◌then◌else◌, Option, none, some, ◌⊎◌, inl, inr,
}
use mach_emu.Cpu.State.{Intel8080, reset}
use mach_emu.Controller.{Controller}

pub record Machine (W : Type 0) : Type 0 where
  pub memory_controller : Option (Controller W)
  pub io_controller : Option (Controller W)
  pub running : Bool

-- The exceptions.
pub data Failure : Type 0 where
  invalid_argument no_memory_controller no_io_controller machine_is_running : Failure

-- The calls in sequence, up to the first exception.
abbrev pub then_call : {A B : Type 0} → Failure ⊎ A → (A → Failure ⊎ B) → Failure ⊎ B
then_call (inl e) f = inl e
then_call (inr a) f = f a

module _ {W : Type 0} where
  unfoldable pub set_memory_controller : Option (Controller W) → Machine W → Failure ⊎ Machine W
  set_memory_controller none m = inl invalid_argument
  set_memory_controller (some c) m =
      if m.running then inl machine_is_running else inr (record m { memory_controller = some c })

  unfoldable pub set_io_controller : Option (Controller W) → Machine W → Failure ⊎ Machine W
  set_io_controller none m = inl invalid_argument
  set_io_controller (some c) m =
      if m.running then inl machine_is_running else inr (record m { io_controller = some c })

  -- A controller is only set on a machine that does not run.
  pub set_memory_controller-stopped :
      (c : Option (Controller W)) (m m' : Machine W)
      → set_memory_controller c m ≡ inr m'
      → m.running ≡ false
  unfolding set_memory_controller
  set_memory_controller-stopped none m m' e = absurd (inl-ne-inr e)
  set_memory_controller-stopped (some c) m m' e = (not_refused machine_is_running _ _ m' e).0

  pub set_io_controller-stopped :
      (c : Option (Controller W)) (m m' : Machine W)
      → set_io_controller c m ≡ inr m'
      → m.running ≡ false
  unfolding set_io_controller
  set_io_controller-stopped none m m' e = absurd (inl-ne-inr e)
  set_io_controller-stopped (some c) m m' e = (not_refused machine_is_running _ _ m' e).0

  -- `Run` up to `running_ = true`.
  unfoldable pub start : ℕ → Intel8080 → Machine W → Failure ⊎ (Machine W × Intel8080)
  start pc cpu m = elim m.memory_controller [
    | none ↦ inl no_memory_controller
    | some _ ↦ elim m.io_controller [
      | none ↦ inl no_io_controller
      | some _ ↦
          if m.running
          then inl machine_is_running
          else inr (record m { running = true }, reset pc cpu)
    ]
  ]

  unfoldable pub wait_for_completion : Machine W → Machine W
  wait_for_completion m = if m.running then record m { running = false } else m

  -- A machine that does not run starts once both controllers are set, in either order, with the
  -- cpu reset to the given address. While it runs, both setters and a second `Run` throw, and when
  -- it has been waited for, it can be run again.
  pub start-set_controllers :
      (m : Machine W) (memory io : Controller W) (pc : ℕ) (cpu : Intel8080)
      → m.running ≡ false
      → let set = then_call (set_memory_controller (some memory) m) (set_io_controller (some io)) in
        let started : Machine W = record {
          memory_controller = some memory;
          io_controller = some io;
          running = true;
        } in
        (set ≡ then_call (set_io_controller (some io) m) (set_memory_controller (some memory)))
        × (then_call set (start pc cpu) ≡ inr (started, reset pc cpu))
        × ((c : Controller W)
            → (set_memory_controller (some c) started ≡ inl machine_is_running)
              × (set_io_controller (some c) started ≡ inl machine_is_running)
              × (start pc cpu started ≡ inl machine_is_running))
        × (start pc cpu (wait_for_completion started) ≡ inr (started, reset pc cpu))
  unfolding set_memory_controller set_io_controller start wait_for_completion
  start-set_controllers m memory io pc cpu stopped =
      rw stopped (refl, refl, λ c. (refl, refl, refl), refl)
