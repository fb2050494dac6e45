-- ===== src/Machine/Lifecycle/Saves.antt =====
-- `Machine::Save` (Machine/source/Machine.cpp).
use mach_emu.Base.{ℕ, if◌then◌else◌, Option, none, some, ◌⊎◌, inl, inr, List, String}
use mach_emu.Controller.{Controller}
use mach_emu.CpuClock.Platform.{Host}
use mach_emu.Options
use mach_emu.Options.{
  clock_resolution, compressor, encoder, load_async, run_async, save_async, ram, rom,
}
use mach_emu.Options.Library.{Json}
use mach_emu.Utils.Libraries.{Coding}
use mach_emu.Machine.Images
use mach_emu.Machine.Images.{Layout, Document, collect_more, save_image, save_machine_state}
use mach_emu.Machine.Settings as MachineSettings
use mach_emu.Machine.Settings.{Settings, set_clock_resolution}
use mach_emu.Machine.Lifecycle.{
  Whole, no_memory_controller, of_settings, of_images, Call, returns, throws, never_ends,
  running_error, is_running, name_options, Environment,
}

-- The fuel is for the loops that collect the memory.
module _ {J W T Text : Type 0} ⦃json : Json J⦄ ⦃host : Host T⦄ ⦃coding : Coding⦄
    (env : Environment J W Text) where
  -- `Save` after its checks.
  unfoldable pub saved :
      Whole J W T Text → Option ((Images.Failure ⊎ Document Text) × W) → Call J W T Text Text
  saved m none = never_ends
  saved m (some (inl e, w)) =
      throws (of_images e) (record m { state = record (m.state) { world = w } })
  saved m (some (inr d, w)) =
      returns (env.print d) (record m { state = record (m.state) { world = w } })

  -- An option that cannot be read, once the memory before it has been collected.
  unfoldable pub refused_after :
      Whole J W T Text → Options.Failure → Option (List ℕ × W) → Call J W T Text Text
  refused_after m e none = never_ends
  refused_after m e (some r) =
      throws (of_settings (MachineSettings.of_options e))
        (record m { state = record (m.state) { world = r.1 } })

  -- `Rom` is read before the rom's memory, `Ram` between that and the ram's, and `Encoder` and
  -- `Compressor` for the text, after both.
  unfoldable pub save_checked :
      ℕ
      → Whole J W T Text
      → Option (Controller W)
      → Options.Failure ⊎ Layout
      → Options.Failure ⊎ Layout
      → Options.Failure ⊎ (String × String)
      → Call J W T Text Text
  unfolding saved refused_after save_machine_state
  save_checked spins m none rom ram names = throws no_memory_controller m
  save_checked spins m (some memory) (inl e) ram names =
      throws (of_settings (MachineSettings.of_options e)) m
  save_checked spins m (some memory) (inr rom) (inl e) names =
      refused_after m e (save_image memory spins rom m.state.world)
  save_checked spins m (some memory) (inr rom) (inr ram) (inl e) =
      refused_after m e
        (collect_more (save_image memory spins ram) (save_image memory spins rom m.state.world))
  save_checked spins m (some memory) (inr rom) (inr ram) (inr names) = saved m (
      save_machine_state env.format env.zlib memory spins rom ram names.0 names.1 m.uuid m.state.cpu
        m.state.world)

  unfoldable pub save_machine : ℕ → Whole J W T Text → Call J W T Text Text
  unfolding save_checked name_options
  save_machine spins m =
      let options = m.settings.options in
      let rest =
        save_checked spins m m.memory_controller (rom options) (ram options)
          (name_options options) in
      if is_running m then throws running_error m else rest
