-- ===== src/Machine/Images/RoundTrip.antt =====
-- A saved state is loaded back.
use mathlib.Core.Path.{subst}
use mathlib.Core.Sum.{inr-injective}
use mathlib.Core.Option.{some-injective}
use mach_emu.Base.{
  ℕ, zero, suc, ◌+◌, ◌<◌, ◌≡◌, refl, sym, ap, ◌∙◌, Bool, true, false, ==_refl, if◌then◌else◌, none,
  some, inr, List, [], ◌∷◌, map, all, length, length-append, replicate, count_up, String, arith,
}
use mach_emu.Base.Results.{and_then, and_then-inr}
use mach_emu.Controller.{Controller, IsMemory}
use mach_emu.Cpu.State.{Intel8080}
use mach_emu.Cpu.Valid.{IsValid}
use mach_emu.Cpu.Snapshot
use mach_emu.Cpu.Snapshot.{Format, same_bytes, load-save}
use mach_emu.Utils.{bin_to_txt}
use mach_emu.Utils.Libraries.{Coding, IsCoding}
use mach_emu.Utils.RoundTrip.{txt_to_bin-bin_to_txt}
use mach_emu.Machine.Images.{
  Layout, Document, from_coding, from_cpu, load_image, restore_image, ram_size, write_state,
  save_machine_state, check_uuid, accept_state, finish_load, load_checked, save_ram, save_collected,
  load_machine_state,
}
use mach_emu.Machine.Images.Blocks.{peek, image, image-Same, ends_below, save_image_fits}
use mach_emu.Machine.Images.Compatible.{same_bytes_refl, from_coding-inr}
use mach_emu.Machine.Images.Restore.{covers, restore_image_lem, load_image_lem}

length-map-count_up : (f : ℕ → ℕ) (k n : ℕ) → length (map f (count_up k n)) ≡ n
unfolding count_up
length-map-count_up f k zero = refl
length-map-count_up f k (suc n) = omega (arith, length-map-count_up f (k + 1) n)

length-image :
    {W : Type 0} (memory : Controller W) (layout : Layout) (w : W)
    → length (image memory layout w) ≡ ram_size layout
unfolding image ram_size
length-image memory [] w = refl
length-image memory (m ∷ more) w = omega (
  arith,
  length-append (map (λ a. peek memory a w) (count_up m.0 m.1)) (image memory more w),
  length-map-count_up (λ a. peek memory a w) m.0 m.1,
  length-image memory more w,
)

module _ {Text : Type 0} (format : Format Text) ⦃coding : Coding⦄ (zlib : Bool) where
  -- The texts in a document, by what they stand for.
  write_state-inr :
      (encoder compressor : String) (uuid : List ℕ) (cpu : Intel8080) (rom ram : List ℕ)
      (d : Document Text)
      → write_state format zlib encoder compressor uuid cpu rom ram ≡ inr d
      → (bin_to_txt zlib "base64" "none" uuid ≡ inr d.uuid)
        × (bin_to_txt zlib "base64" "none" (coding.md5 rom) ≡ inr d.rom)
        × (bin_to_txt zlib d.encoder d.compressor ram ≡ inr d.bytes)
        × (d.cpu ≡ Snapshot.save format cpu)
        × (d.size ≡ length ram)
  unfolding write_state
  write_state-inr encoder compressor uuid cpu rom ram d e =
      let (uuid_text, e1, e2) =
        and_then-inr (from_coding (bin_to_txt zlib "base64" "none" uuid)) _ d e in
      let (rom_text, e3, e4) =
        and_then-inr (from_coding (bin_to_txt zlib "base64" "none" (coding.md5 rom))) _ d e2 in
      let (ram_text, e5, e6) =
        and_then-inr (from_coding (bin_to_txt zlib encoder compressor ram)) _ d e4 in
      let made = inr-injective _ _ e6 in
      (
        from_coding-inr _ uuid_text e1 ∙ ap (λ x. inr x.uuid) made,
        from_coding-inr _ rom_text e3 ∙ ap (λ x. inr x.rom) made,
        subst (λ x. bin_to_txt zlib x.encoder x.compressor ram ≡ inr x.bytes) made
            (from_coding-inr _ ram_text e5),
        ap (λ x. x.cpu) (sym made),
        ap (λ x. x.size) (sym made),
      )

  module _ (lawful : IsCoding coding) where
    check_uuid_lem :
        (uuid : List ℕ) (d : Document Text)
        → bin_to_txt zlib "base64" "none" uuid ≡ inr d.uuid
        → length uuid ≡ 16
        → same_bytes uuid (replicate 16 0) ≡ false
        → check_uuid format zlib uuid d ≡ inr uuid
    unfolding check_uuid from_coding and_then
    check_uuid_lem uuid d e size valid =
        rw
          (
            valid,
            txt_to_bin-bin_to_txt lawful zlib "base64" "none" uuid d.uuid 16 e (omega arith),
            same_bytes_refl uuid,
          )
          refl

    accept_state_lem :
        (layout : Layout) (d : Document Text) (cpu cpu' : Intel8080) (rom ram : List ℕ)
        → IsValid cpu
        → bin_to_txt zlib "base64" "none" (coding.md5 rom) ≡ inr d.rom
        → bin_to_txt zlib d.encoder d.compressor ram ≡ inr d.bytes
        → d.cpu ≡ Snapshot.save format cpu
        → d.size ≡ length ram
        → length ram ≡ ram_size layout
        → accept_state format zlib layout d rom cpu'
          ≡ inr (record cpu { iff = cpu'.iff; opcode = cpu'.opcode }, ram)
    unfolding accept_state from_coding from_cpu and_then
    accept_state_lem layout d cpu cpu' rom ram valid e1 e2 e3 e4 size =
        rw
          (
            txt_to_bin-bin_to_txt lawful zlib "base64" "none" (coding.md5 rom) d.rom 16 e1
                (omega (arith, lawful.length-md5 rom)),
            same_bytes_refl (coding.md5 rom),
            txt_to_bin-bin_to_txt lawful zlib d.encoder d.compressor ram d.bytes d.size e2
                (omega arith),
            size,
            ==_refl (ram_size layout),
            e3,
            load-save format cpu cpu' valid,
          )
          refl

module _ {Text W : Type 0} (format : Format Text) ⦃coding : Coding⦄ (zlib : Bool)
    (codes : IsCoding coding) {memory : Controller W} (lawful : IsMemory memory) where
  -- `Save` ends, with the bytes that the memory has.
  pub save_machine_state_lem :
      (fuel : ℕ) (rom ram : Layout) (encoder compressor : String) (uuid : List ℕ) (cpu : Intel8080)
      (w : W)
      → all ends_below rom ≡ true
      → all ends_below ram ≡ true
      → 65535 < fuel
      → (w1 : W) × (save_machine_state format zlib memory fuel rom ram encoder compressor uuid cpu w
          ≡ some (
            write_state format zlib encoder compressor uuid cpu
                (image memory rom w)
                (image memory ram w),
            w1,
          ))
  unfolding save_machine_state save_ram save_collected
  save_machine_state_lem fuel rom ram encoder compressor uuid cpu w rom_fits ram_fits enough =
      let (wa, ea, same_a) = save_image_fits lawful fuel rom w rom_fits enough in
      let (wb, eb, same_b) = save_image_fits lawful fuel ram wa ram_fits enough in
      (
        wb,
        ap (save_ram format zlib memory fuel ram encoder compressor uuid cpu) ea
            ∙ ap (save_collected format zlib encoder compressor uuid cpu (image memory rom w)) eb
            ∙ ap
                (λ bytes. some (
                  write_state format zlib encoder compressor uuid cpu (image memory rom w) bytes,
                  wb,
                ))
                (image-Same lawful ram wa w same_a),
      )

  load_document_lem :
      (rom ram : Layout) (uuid : List ℕ) (cpu cpu' : Intel8080) (d : Document Text) (w w' : W)
      → all ends_below rom ≡ true
      → length uuid ≡ 16
      → same_bytes uuid (replicate 16 0) ≡ false
      → image memory rom w' ≡ image memory rom w
      → IsValid cpu
      → (bin_to_txt zlib "base64" "none" uuid ≡ inr d.uuid)
        × (bin_to_txt zlib "base64" "none" (coding.md5 (image memory rom w)) ≡ inr d.rom)
        × (bin_to_txt zlib d.encoder d.compressor (image memory ram w) ≡ inr d.bytes)
        × (d.cpu ≡ Snapshot.save format cpu)
        × (d.size ≡ length (image memory ram w))
      → load_machine_state format zlib memory rom ram uuid d cpu' w' ≡ (
        none,
        record cpu { iff = cpu'.iff; opcode = cpu'.opcode },
        restore_image memory ram (image memory ram w) (load_image memory rom w').1,
      )
  unfolding load_machine_state load_checked finish_load
  load_document_lem rom ram uuid cpu cpu' d w w' rom_fits size valid same_rom valid_cpu
        (e1, e2, e3, e4, e5) =
      let (read, same) = load_image_lem lawful rom w' rom_fits in
      let r = (load_image memory rom w').1 in
      let accepted =
        accept_state_lem format zlib codes ram d cpu cpu' (image memory rom w) (image memory ram w)
          valid_cpu e2 e3 e4 e5 (length-image memory ram w) in
      ap (load_checked format zlib memory rom ram d cpu' w')
        (check_uuid_lem format zlib codes uuid d e1 size valid)
      ∙ ap (λ x. finish_load format zlib memory ram cpu' r (accept_state format zlib ram d x cpu'))
          (read ∙ same_rom)
      ∙ ap (finish_load format zlib memory ram cpu' r) accepted

  -- Fuel for 65536 rounds, blocks that end below 65536, a memory with a uuid of 16 bytes that is
  -- not all zeros, and a valid cpu: if `Save` makes a document of them, then the document can be
  -- loaded into any cpu and any memory with the same uuid and the same bytes in the rom, without an
  -- exception. Afterwards each address of the ram's blocks has the byte that was saved, and every
  -- other the byte that it had; and the cpu is the saved one, but for whether interrupts are
  -- enabled and the last opcode.
  pub load_machine_state-save_machine_state :
      (fuel : ℕ) (rom ram : Layout) (encoder compressor : String) (uuid : List ℕ)
      (cpu cpu' : Intel8080) (d : Document Text) (w w' w1 : W)
      → all ends_below rom ≡ true
      → all ends_below ram ≡ true
      → 65535 < fuel
      → length uuid ≡ 16
      → same_bytes uuid (replicate 16 0) ≡ false
      → image memory rom w' ≡ image memory rom w
      → IsValid cpu
      → save_machine_state format zlib memory fuel rom ram encoder compressor uuid cpu w
        ≡ some (inr d, w1)
      → (w2 : W) × (load_machine_state format zlib memory rom ram uuid d cpu' w'
          ≡ (none, record cpu { iff = cpu'.iff; opcode = cpu'.opcode }, w2))
        × ((a : ℕ)
            → peek memory a w2 ≡ (if covers ram a then peek memory a w else peek memory a w'))
  load_machine_state-save_machine_state fuel rom ram encoder compressor uuid cpu cpu' d w w' w1
        rom_fits ram_fits enough size valid same_rom valid_cpu e =
      let (wb, saved) =
        save_machine_state_lem fuel rom ram encoder compressor uuid cpu w rom_fits ram_fits
          enough in
      let (read, same) = load_image_lem lawful rom w' rom_fits in
      let r = (load_image memory rom w').1 in
      let written = ap (λ x. x.0) (some-injective _ _ (sym saved ∙ e)) in
      (
        restore_image memory ram (image memory ram w) r,
        load_document_lem rom ram uuid cpu cpu' d w w' rom_fits size valid same_rom valid_cpu (
            write_state-inr format zlib encoder compressor uuid cpu (image memory rom w)
              (image memory ram w) d written),
        λ a.
            restore_image_lem lawful ram w r ram_fits a
            ∙ ap (λ x. if covers ram a then peek memory a w else x) (same a),
      )
