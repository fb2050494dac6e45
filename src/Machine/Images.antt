-- ===== src/Machine/Images.antt =====
-- The memory in the state of a machine (Machine/source/Machine.cpp): what `Save` collects and what
-- `loadMachineState` of `Run` restores. A layout is what `opt_.Rom()` or `opt_.Ram()` returns, and
-- `uuid` what the memory controller's `Uuid` does. The json text is made and read by a parameter,
-- as that of the cpu is.
pub mod Blocks
pub mod Restore
pub mod Compatible
pub mod Loads
pub mod RoundTrip
use mach_emu.Base.{
  ℕ, zero, suc, ◌+◌, Bool, true, false, ◌==◌, ltb, if◌then◌else◌, Option, none, some, ◌⊎◌, inl, inr,
  List, [], ◌∷◌, ◌++◌, length, replicate, String, u16,
}
use mach_emu.Base.Results.{and_then}
use mach_emu.Controller.{Controller}
use mach_emu.Cpu.State.{Intel8080}
use mach_emu.Cpu.Snapshot.{Format, same_bytes}
use mach_emu.Cpu.Snapshot
use mach_emu.Utils
use mach_emu.Utils.{bin_to_txt, txt_to_bin}
use mach_emu.Utils.Libraries.{Coding}

abbrev pub Layout : Type 0
Layout = List (ℕ × ℕ)

unfoldable pub push_byte : {W : Type 0} → ℕ → Option (List ℕ × W) → Option (List ℕ × W)
push_byte v none = none
push_byte v (some r) = some (v ∷ r.0, r.1)

unfoldable pub push_bytes : {W : Type 0} → List ℕ → Option (List ℕ × W) → Option (List ℕ × W)
push_bytes vs none = none
push_bytes vs (some r) = some (vs ++ r.0, r.1)

-- The next blocks, once one has been read.
unfoldable pub collect_more :
    {W : Type 0} → (W → Option (List ℕ × W)) → Option (List ℕ × W) → Option (List ℕ × W)
unfolding push_bytes
collect_more blocks none = none
collect_more blocks (some r) = push_bytes r.0 (blocks r.1)

module _ {W : Type 0} (memory : Controller W) where
  -- The loop of `rm` over one block, whose counter is a `uint16_t` and its end an `int`; `none`
  -- where the fuel is spent.
  unfoldable pub read_up : ℕ → ℕ → ℕ → W → Option (List ℕ × W)
  unfolding push_byte
  read_up zero addr finish w = none
  read_up (suc fuel) addr finish w =
      let r = memory.read addr w in
      let rest = read_up fuel (u16 (addr + 1)) finish r.1 in
      if ltb addr finish then push_byte r.0 rest else some ([], w)

  -- `rm`.
  unfoldable pub save_image : ℕ → Layout → W → Option (List ℕ × W)
  unfolding read_up collect_more
  save_image fuel [] w = some ([], w)
  save_image fuel (m ∷ more) w =
      collect_more (save_image fuel more) (read_up fuel m.0 (m.0 + m.1) w)

  -- The loops of `loadMachineState`, whose counter is an `int`: `n` more bytes from `addr` on.
  unfoldable pub read_bytes : ℕ → ℕ → W → List ℕ × W
  read_bytes zero addr w = ([], w)
  read_bytes (suc n) addr w =
      let r = memory.read (u16 addr) w in
      let rest = read_bytes n (addr + 1) r.1 in (r.0 ∷ rest.0, rest.1)

  unfoldable pub load_image : Layout → W → List ℕ × W
  unfolding read_bytes
  load_image [] w = ([], w)
  load_image (m ∷ more) w =
      let r = read_bytes m.1 m.0 w in let rest = load_image more r.1 in (r.0 ++ rest.0, rest.1)

  -- `ram[ramIndex++]`: the bytes that are left, and the memory. There are enough, by the check.
  unfoldable pub write_bytes : ℕ → ℕ → List ℕ → W → List ℕ × W
  write_bytes zero addr ram w = (ram, w)
  write_bytes (suc n) addr [] w = ([], w)
  write_bytes (suc n) addr (v ∷ ram) w = write_bytes n (addr + 1) ram (memory.write (u16 addr) v w)

  unfoldable pub restore_image : Layout → List ℕ → W → W
  unfolding write_bytes
  restore_image [] ram w = w
  restore_image (m ∷ more) ram w = let r = write_bytes m.1 m.0 ram w in restore_image more r.0 r.1

-- `ramSize`.
unfoldable pub ram_size : Layout → ℕ
ram_size [] = 0
ram_size (m ∷ more) = m.1 + ram_size more

-- The members of the json document. Texts are lists of characters, but for the names and `cpu`.
pub record Document (Text : Type 0) : Type 0 where
  pub cpu : Text
  pub uuid : List ℕ
  pub rom : List ℕ
  pub encoder : String
  pub compressor : String
  pub size : ℕ
  pub bytes : List ℕ

-- The exceptions.
pub data Failure : Type 0 where
  invalid_uuid incompatible_memory incompatible_rom incompatible_ram : Failure
  of_coding : Utils.Failure → Failure
  of_cpu : Snapshot.LoadFailure → Failure

unfoldable pub from_coding : {A : Type 0} → Utils.Failure ⊎ A → Failure ⊎ A
from_coding (inl e) = inl (of_coding e)
from_coding (inr a) = inr a

unfoldable pub from_cpu : {A : Type 0} → Snapshot.LoadFailure ⊎ A → Failure ⊎ A
from_cpu (inl e) = inl (of_cpu e)
from_cpu (inr a) = inr a

module _ {Text : Type 0} (format : Format Text) ⦃coding : Coding⦄ (zlib : Bool) where
  -- `writeState`.
  unfoldable pub write_state :
      String → String → List ℕ → Intel8080 → List ℕ → List ℕ → Failure ⊎ Document Text
  unfolding from_coding and_then
  write_state encoder compressor uuid cpu rom ram =
      and_then (from_coding (bin_to_txt zlib "base64" "none" uuid)) (λ uuid_text.
        and_then (from_coding (bin_to_txt zlib "base64" "none" (coding.md5 rom))) (λ rom_text.
          and_then (from_coding (bin_to_txt zlib encoder compressor ram)) (λ ram_text. inr (record {
            cpu = Snapshot.save format cpu;
            uuid = uuid_text;
            rom = rom_text;
            encoder = encoder;
            compressor = compressor;
            size = length ram;
            bytes = ram_text;
          }))))

  -- `Save` after its checks: once both memories are collected, once the rom is, and as a whole.
  unfoldable pub save_collected :
      {W : Type 0}
      → String
      → String
      → List ℕ
      → Intel8080
      → List ℕ
      → Option (List ℕ × W)
      → Option ((Failure ⊎ Document Text) × W)
  unfolding write_state
  save_collected encoder compressor uuid cpu rom none = none
  save_collected encoder compressor uuid cpu rom (some r) =
      some (write_state encoder compressor uuid cpu rom r.0, r.1)

  unfoldable pub save_ram :
      {W : Type 0}
      → Controller W
      → ℕ
      → Layout
      → String
      → String
      → List ℕ
      → Intel8080
      → Option (List ℕ × W)
      → Option ((Failure ⊎ Document Text) × W)
  unfolding save_collected
  save_ram memory fuel ram encoder compressor uuid cpu none = none
  save_ram memory fuel ram encoder compressor uuid cpu (some r) =
      save_collected encoder compressor uuid cpu r.0 (save_image memory fuel ram r.1)

  unfoldable pub save_machine_state :
      {W : Type 0}
      → Controller W
      → ℕ
      → Layout
      → Layout
      → String
      → String
      → List ℕ
      → Intel8080
      → W
      → Option ((Failure ⊎ Document Text) × W)
  unfolding save_ram
  save_machine_state memory fuel rom ram encoder compressor uuid cpu w =
      save_ram memory fuel ram encoder compressor uuid cpu (save_image memory fuel rom w)

  unfoldable pub check_uuid : List ℕ → Document Text → Failure ⊎ List ℕ
  unfolding from_coding and_then
  check_uuid uuid document =
      if same_bytes uuid (replicate 16 0)
      then inl invalid_uuid
      else and_then (from_coding (txt_to_bin zlib "base64" "none" 16 document.uuid)) (λ json_uuid.
        if same_bytes json_uuid uuid then inr json_uuid else inl incompatible_memory)

  -- The checks after the rom has been read, and `Load` of the cpu: the cpu and the ram to restore.
  unfoldable pub accept_state :
      Layout → Document Text → List ℕ → Intel8080 → Failure ⊎ (Intel8080 × List ℕ)
  unfolding from_coding from_cpu and_then ram_size
  accept_state ram_layout document rom cpu =
      and_then (from_coding (txt_to_bin zlib "base64" "none" 16 document.rom)) (λ json_md5.
        if same_bytes json_md5 (coding.md5 rom)
        then and_then
            (from_coding
              (txt_to_bin zlib document.encoder document.compressor document.size document.bytes))
            (λ ram.
              if length ram == ram_size ram_layout
              then and_then (from_cpu (Snapshot.load format document.cpu cpu))
                  (λ cpu'. inr (cpu', ram))
              else inl incompatible_ram)
        else inl incompatible_rom)

  -- `loadMachineState` for a text that is not empty and is such a document: the exception that it
  -- prints, if any, and the cpu and the memory. First, its end; then all that follows the check of
  -- the uuid.
  unfoldable pub finish_load :
      {W : Type 0}
      → Controller W
      → Layout
      → Intel8080
      → W
      → Failure ⊎ (Intel8080 × List ℕ)
      → Option Failure × Intel8080 × W
  unfolding restore_image
  finish_load memory ram cpu w (inl e) = (some e, cpu, w)
  finish_load memory ram cpu w (inr x) = (none, x.0, restore_image memory ram x.1 w)

  unfoldable pub load_checked :
      {W : Type 0}
      → Controller W
      → Layout
      → Layout
      → Document Text
      → Intel8080
      → W
      → Failure ⊎ List ℕ
      → Option Failure × Intel8080 × W
  unfolding load_image accept_state finish_load
  load_checked memory rom ram document cpu w (inl e) = (some e, cpu, w)
  load_checked memory rom ram document cpu w (inr _) =
      let r = load_image memory rom w in
      finish_load memory ram cpu r.1 (accept_state ram document r.0 cpu)

  unfoldable pub load_machine_state :
      {W : Type 0}
      → Controller W
      → Layout
      → Layout
      → List ℕ
      → Document Text
      → Intel8080
      → W
      → Option Failure × Intel8080 × W
  unfolding check_uuid load_checked
  load_machine_state memory rom ram uuid document cpu w =
      load_checked memory rom ram document cpu w (check_uuid uuid document)
