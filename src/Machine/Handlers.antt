-- ===== src/Machine/Handlers.antt =====
-- The answers of `Run` to `ISR::Load`, `ISR::Save` and `ISR::Quit`, with the futures `onLoad` and
-- `onSave` (Machine/source/Machine.cpp). What a callback does in another thread is taken to happen
-- when the machine gets its result. A string that is empty, as after an exception, is `none`.
pub mod Exclusion
pub mod Exclusive
pub mod Reachable
pub mod Plain
use mach_emu.Base.{
  ℕ, Bool, true, false, not, ◌&&◌, ◌==◌, ltb, if◌then◌else◌, Option, none, some, ◌⊎◌, inl, inr,
  List, String, replicate, u8,
}
use mach_emu.Bus.{SystemBus, interrupt, power_off, send_control, send_data}
use mach_emu.Controller.{Controller, isr_load, isr_save, isr_quit, no_interrupt}
use mach_emu.Cpu.State.{St}
use mach_emu.Cpu.Snapshot.{Format, same_bytes}
use mach_emu.Utils.Libraries.{Coding}
use mach_emu.Machine.Images.{
  Layout, Document, Failure, save_image, load_image, write_state, check_uuid, load_machine_state,
}

-- A `std::future`: not valid, to be run when it is asked for, or in another thread.
pub data Future : Type 0 where
  not_valid deferred launched : Future

-- `valid`.
abbrev pub valid : Future → Bool
valid not_valid = false
valid _ = true

-- `std::async` with a launch policy: whether `loadAsync` or `saveAsync` is set.
abbrev pub launch : Bool → Future
launch true = launched
launch false = deferred

-- `onLoad` and `onSave`, and the state that the latter's callback is to be given.
pub record Pending (Text : Type 0) : Type 0 where
  pub on_load : Future
  pub on_save : Future
  pub save_state : Option Text

-- The machine's callbacks and options: what `onLoad_` returns, what `onSave_` does, whether a
-- future that was launched is ready, the memory and its uuid, and its layouts and the names of the
-- encoder and the compressor, which are `none` where the options throw when they are read.
pub record Session (W Text : Type 0) : Type 0 where
  pub load_callback : Option (W → Option Text × W)
  pub save_callback : Option (Text → W → W)
  pub load_async : Bool
  pub save_async : Bool
  pub ready : W → Bool × W
  pub memory : Controller W
  pub uuid : List ℕ
  pub rom : Option Layout
  pub ram : Option Layout
  pub names : Option (String × String)

module _ {W Text : Type 0} (m : Session W Text) where
  -- `get` of `onLoad` and of `onSave`.
  unfoldable pub get_load : W → Option Text × W
  get_load w = elim m.load_callback [ none ↦ (none, w) | some f ↦ f w ]

  unfoldable pub get_save : Option Text → W → W
  get_save none w = w
  get_save (some text) w = elim m.save_callback [ none ↦ w | some f ↦ f text w ]

  -- `checkHandler(onLoad)`: the string, the future and the world.
  unfoldable pub check_load : Future → W → Option Text × Future × W
  unfolding get_load
  check_load not_valid w = (none, not_valid, w)
  check_load deferred w = let r = get_load w in (r.0, not_valid, r.1)
  check_load launched w =
      let p = m.ready w in
      let r = get_load p.1 in if p.0 then (r.0, not_valid, r.1) else (none, launched, p.1)

  -- `checkHandler(onSave)`.
  unfoldable pub check_save : Option Text → Future → W → Future × W
  unfolding get_save
  check_save text not_valid w = (not_valid, w)
  check_save text deferred w = (not_valid, get_save text w)
  check_save text launched w =
      let p = m.ready w in if p.0 then (not_valid, get_save text p.1) else (launched, p.1)

abbrev pub is_set : {A : Type 0} → Option A → Bool
is_set none = false
is_set (some _) = true

-- The answer to an interrupt: what is pending and the state; `none` where it does not end.
abbrev pub Answer : Type 0 → Type 0 → Type 0
Answer W Text = Option (Pending Text × St W)

-- The cpu's json text is of type `Text`, as the machine's is. `print` and `parse` make and read the
-- latter.
module _ {W Text : Type 0} (m : Session W Text) (format : Format Text) ⦃coding : Coding⦄
    (zlib : Bool) (print : Document Text → Text) (parse : Text → Option (Document Text)) where
  -- `loadMachineState` of a document, with what `opt_.Rom()` and `opt_.Ram()` give. Without the
  -- latter, it fails when it has read the rom, if it comes to that.
  unfoldable pub read_rom : Failure ⊎ List ℕ → Layout → St W → St W
  unfolding load_image
  read_rom (inl e) rom s = s
  read_rom (inr _) rom s = record s { world = (load_image m.memory rom s.world).1 }

  unfoldable pub load_document : Option Layout → Option Layout → Document Text → St W → St W
  unfolding load_machine_state read_rom check_uuid
  load_document none ram document s = s
  load_document (some rom) none document s = read_rom (check_uuid format zlib m.uuid document) rom s
  load_document (some rom) (some ram) document s =
      let r = load_machine_state format zlib m.memory rom ram m.uuid document s.cpu s.world in
      record s { cpu = r.1; world = r.2 }

  unfoldable pub load_text : Option Text → St W → St W
  unfolding load_document
  load_text none s = s
  load_text (some text) s = elim (parse text) [
    | none ↦ s
    | some document ↦ load_document m.rom m.ram document s
  ]

  -- `loadMachineState(checkHandler(onLoad))`.
  unfoldable pub try_load : Pending Text → St W → Pending Text × St W
  unfolding load_text check_load
  try_load p s =
      let r = check_load m p.on_load s.world in
      (record p { on_load = r.1 }, load_text r.0 (record s { world = r.2 }))

  unfoldable pub try_save : Pending Text → St W → Pending Text × St W
  unfolding check_save
  try_save p s =
      let r = check_save m p.save_state p.on_save s.world in
      (record p { on_save = r.0 }, record s { world = r.1 })

  unfoldable pub answer_load : Pending Text → St W → Pending Text × St W
  unfolding try_load
  answer_load p s =
      if is_set m.load_callback && not (valid p.on_load) && not (valid p.on_save)
      then try_load (record p { on_load = launch m.load_async }) s
      else (p, s)

  -- The rest of the answer to `ISR::Save`, once the state is written, which an exception skips, and
  -- here also a text written past the end of its string, of which C++ says nothing; then, once both
  -- memories are collected, and once the ram is.
  unfoldable pub launch_save : Failure ⊎ Document Text → Pending Text → St W → Pending Text × St W
  unfolding try_save
  launch_save (inl e) p s = (p, s)
  launch_save (inr document) p s =
      try_save (record p { on_save = launch m.save_async; save_state = some (print document) }) s

  unfoldable pub launch_named :
      Option (String × String) → List ℕ → List ℕ → Pending Text → St W → Pending Text × St W
  unfolding launch_save write_state
  launch_named none rom ram p s = (p, s)
  launch_named (some names) rom ram p s =
      launch_save (write_state format zlib names.0 names.1 m.uuid s.cpu rom ram) p s

  unfoldable pub save_collected : Pending Text → St W → List ℕ → Option (List ℕ × W) → Answer W Text
  unfolding launch_named
  save_collected p s ram none = none
  save_collected p s ram (some r) = some (launch_named m.names r.0 ram p (record s { world = r.1 }))

  unfoldable pub save_rom :
      ℕ → Pending Text → St W → Option Layout → Option (List ℕ × W) → Answer W Text
  unfolding save_collected
  save_rom fuel p s rom none = none
  save_rom fuel p s none (some r) = some (p, record s { world = r.1 })
  save_rom fuel p s (some rom) (some r) = save_collected p s r.0 (save_image m.memory fuel rom r.1)

  unfoldable pub save_memory : ℕ → Pending Text → St W → Option Layout → Answer W Text
  unfolding save_rom
  save_memory fuel p s none = some (p, s)
  save_memory fuel p s (some ram) = save_rom fuel p s m.rom (save_image m.memory fuel ram s.world)

  -- The fuel is for the loops that collect the memory.
  unfoldable pub answer_save : ℕ → Pending Text → St W → Answer W Text
  unfolding save_memory same_bytes
  answer_save fuel p s =
      if is_set m.save_callback && not (valid p.on_save) && not (valid p.on_load)
      then if same_bytes m.uuid (replicate 16 0) then some (p, s) else save_memory fuel p s m.ram
      else some (p, s)

  -- `ISR::Quit`.
  unfoldable pub wait_load : Pending Text → St W → Pending Text × St W
  unfolding load_text get_load
  wait_load p s =
      if valid p.on_load
      then (let r = get_load m s.world in
          (record p { on_load = not_valid }, load_text r.0 (record s { world = r.1 })))
      else (p, s)

  unfoldable pub wait_save : Pending Text → St W → Pending Text × St W
  unfolding get_save
  wait_save p s =
      if valid p.on_save
      then (record p { on_save = not_valid }, record s { world = get_save m p.save_state s.world })
      else (p, s)

  unfoldable pub answer_quit : Pending Text → St W → Pending Text × St W
  unfolding wait_load wait_save send_control
  answer_quit p s =
      let r1 = wait_load p s in
      let r2 = wait_save r1.0 r1.1 in
      (r2.0, record (r2.1) { bus = send_control power_off r2.1.bus })

  unfoldable pub answer_none : Pending Text → St W → Pending Text × St W
  unfolding try_load try_save
  answer_none p s = let r = try_load p s in try_save r.0 r.1

  -- The `switch (isr)`.
  unfoldable pub answer : ℕ → ℕ → Pending Text → St W → Answer W Text
  unfolding answer_load answer_save answer_quit answer_none send_control send_data
  answer fuel isr p s =
      if ltb isr 8
      then some (p, record s { bus = send_data (u8 isr) (send_control interrupt s.bus) })
      else if isr == isr_load
      then some (answer_load p s)
      else if isr == isr_save
      then answer_save fuel p s
      else if isr == isr_quit
      then some (answer_quit p s)
      else if isr == no_interrupt
      then some (answer_none p s)
      else some (p, s)
