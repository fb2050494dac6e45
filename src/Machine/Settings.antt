-- ===== src/Machine/Settings.antt =====
-- The options of the machine and what it makes of them (Machine/source/Machine.cpp): the
-- constructor, `SetOptions`, `SetClockResolution`, `OnSave` and `OnLoad`. `I` stands for the user's
-- callback that saves and `O` for the one that loads. A `double`, `isrFreq`, times a tick count
-- is a parameter.
pub mod CpuType
pub mod Changes
pub mod Resolution
use mach_emu.Base.{
  ℕ, Bool, true, false, ◌||◌, ltb, if◌then◌else◌, Option, none, some, ◌⊎◌, inl, inr, List, String,
  same_text,
}
use mach_emu.Base.Int.{ℤ, pos, negsuc, ltb_ℤ}
use mach_emu.Base.Results.{and_then, or_throw}
use mach_emu.CpuClock.{CpuClock, ErrorCode, no_error, set_tick_resolution, make_cpu_clock}
use mach_emu.CpuClock.Platform.{Host}
use mach_emu.Options
use mach_emu.Options.Library.{Json}
use mach_emu.Options.{default_opts, cpu_type, isr_freq, codes}

-- The exceptions, and those of the options.
pub data Failure : Type 0 where
  machine_is_running out_of_range unsupported_cpu no_host_resolution : Failure
  of_options : Options.Failure → Failure

-- `opt_`, `clock_`, `ticksPerIsr_`, `running_`, `onSave_` and `onLoad_`.
pub record Settings (J I O : Type 0) : Type 0 where
  pub options : J
  pub clock : CpuClock
  pub ticks_per_isr : ℤ
  pub running : Bool
  pub on_save : Option I
  pub on_load : Option O

abbrev pub is_no_error : ErrorCode → Bool
is_no_error no_error = true
is_no_error _ = false

unfoldable pub from_options : {A : Type 0} → Options.Failure ⊎ A → Failure ⊎ A
from_options (inl e) = inl (of_options e)
from_options (inr a) = inr a

module _ {J I O : Type 0} where
  unfoldable pub on_save : Option I → Settings J I O → Failure ⊎ Settings J I O
  on_save f m = if m.running then inl machine_is_running else inr (record m { on_save = f })

  unfoldable pub on_load : Option O → Settings J I O → Failure ⊎ Settings J I O
  on_load f m = if m.running then inl machine_is_running else inr (record m { on_load = f })

module _ {J : Type 0} ⦃json : Json J⦄ (isr_ticks : json.Double → ℤ → ℤ) where
  -- From `opt_.SetOptions(str)` on, when that does not throw.
  unfoldable pub set_resolution :
      {I O : Type 0} → ℤ → Settings J I O → Failure ⊎ (ErrorCode × Settings J I O)
  unfolding from_options and_then
  set_resolution resolution m =
      let (err, ticks, clock) = set_tick_resolution resolution m.clock in
      if is_no_error err
      then and_then (from_options (isr_freq m.options))
          (λ freq. inr (err, record m { clock = clock; ticks_per_isr = isr_ticks freq ticks }))
      else inr (err, record m { clock = clock })

module _ {J : Type 0} ⦃json : Json J⦄ (zlib : Bool) (files : List ℕ → List ℕ) where
  unfoldable pub set_options :
      {I O : Type 0} → Option (List ℕ) → Settings J I O → Failure ⊎ Settings J I O
  unfolding from_options and_then
  set_options opts m =
      if m.running
      then inl machine_is_running
      else and_then (from_options (Options.set_options zlib files opts m.options))
          (λ options. inr (record m { options = options }))

  -- The text that `snprintf` prints is `print clockResolution`. The machine is returned with the
  -- result.
  module _ (print : ℤ → List ℕ) (isr_ticks : json.Double → ℤ → ℤ) where
    unfoldable pub set_clock_resolution :
        {I O : Type 0} → ℤ → Settings J I O → Failure ⊎ (ErrorCode × Settings J I O)
    unfolding set_options set_resolution and_then
    set_clock_resolution resolution m =
        if m.running
        then inl machine_is_running
        else if ltb_ℤ resolution (negsuc 0) || ltb_ℤ (pos 10000000000) resolution
        then inl out_of_range
        else and_then
            (from_options (Options.set_options zlib files (some (print resolution)) m.options))
            (λ options. set_resolution isr_ticks resolution (record m { options = options }))

  -- The constructor's options: the default cpu is set if there is none.
  unfoldable pub initial_options : Option (List ℕ) → Failure ⊎ J
  unfolding from_options and_then
  initial_options opts =
      and_then (from_options (Options.set_options zlib files opts (default_opts zlib))) (λ options.
        and_then (from_options (cpu_type options)) (λ name.
          if same_text name ""
          then from_options
              (Options.set_options zlib files (some (codes "{\"cpu\":\"i8080\"}")) options)
          else inr options))

  -- The constructor, but for the cpu that it makes.
  unfoldable pub make_machine :
      {W I O : Type 0} ⦃host : Host W⦄ → Option (List ℕ) → W → Failure ⊎ Settings J I O
  unfolding initial_options from_options and_then or_throw
  make_machine opts w = and_then (initial_options opts) (λ options.
      and_then (from_options (cpu_type options)) (λ name.
        if same_text name "i8080"
        then and_then (or_throw no_host_resolution (make_cpu_clock 2000000 w)) (λ clock.
          inr (record {
            options = options;
            clock = clock;
            ticks_per_isr = pos 0;
            running = false;
            on_save = none;
            on_load = none;
          }))
        else inl unsupported_cpu))
