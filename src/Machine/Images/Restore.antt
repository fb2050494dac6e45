-- ===== src/Machine/Images/Restore.antt =====
-- The memory after a load.
use mach_emu.Base.{
  ℕ, zero, suc, ◌+◌, ◌<◌, ◌≡◌, refl, ap, ap₂, ◌∙◌, Bool, true, false, ◌&&◌, ◌||◌, ltb, leb,
  if◌then◌else◌, List, [], ◌∷◌, ◌++◌, map, all, count_up, u16, arith,
}
use mach_emu.Controller.{Controller, IsMemory}
use mach_emu.Machine.Images.{Layout, write_bytes, restore_image, read_bytes, load_image}
use mach_emu.Machine.Images.Blocks.{peek, peeks-Same, image, image-Same, Same, ends_below}

abbrev pub in_block : ℕ × ℕ → ℕ → Bool
in_block m a = leb m.0 a && ltb a (m.0 + m.1)

-- The addresses of a layout.
abbrev pub covers : Layout → ℕ → Bool
covers [] a = false
covers (m ∷ more) a = in_block m a || covers more a

module _ {W : Type 0} {memory : Controller W} (lawful : IsMemory memory) where
  -- One block: the bytes that are left, and each byte of the memory.
  write_bytes_lem :
      (f : ℕ → ℕ)
      → ((a : ℕ) → f a < 256)
      → (n addr : ℕ) (rest : List ℕ) (w : W) → addr + n < 65536
      → let r = write_bytes memory n addr (map f (count_up addr n) ++ rest) w in
        (r.0 ≡ rest)
        × ((a : ℕ) → peek memory a r.1 ≡ (if in_block (addr, n) a then f a else peek memory a w))
  unfolding write_bytes count_up
  write_bytes_lem f bytes zero addr rest w fits = (refl, λ a. ground arith)
  write_bytes_lem f bytes (suc n) addr rest w fits =
      let (left, same) =
        write_bytes_lem f bytes n (addr + 1) rest (memory.write (u16 addr) (f addr) w)
          (omega arith) in
      (left, λ a. same a ∙ ground (arith, lawful.read-write (u16 addr) (f addr) a w, bytes addr))

  pub restore_image_lem :
      (layout : Layout) (w w' : W)
      → all ends_below layout ≡ true
      → (a : ℕ)
      → peek memory a (restore_image memory layout (image memory layout w) w')
        ≡ (if covers layout a then peek memory a w else peek memory a w')
  unfolding all restore_image image
  restore_image_lem [] w w' fits a = refl
  restore_image_lem (m ∷ more) w w' fits a =
      let r =
        write_bytes memory m.1 m.0
          (map (λ a. peek memory a w) (count_up m.0 m.1) ++ image memory more w) w' in
      let (left, same) =
        write_bytes_lem (λ a. peek memory a w) (λ a. lawful.read-lt a w) m.1 m.0
          (image memory more w) w' (ground arith) in
      ap (λ bytes. peek memory a (restore_image memory more bytes r.1)) left
      ∙ restore_image_lem more w r.1 (ground arith) a
      ∙ ground (arith, same a)

  read_bytes_lem :
      (n addr : ℕ) (w : W)
      → addr + n < 65536
      → let r = read_bytes memory n addr w in
        (r.0 ≡ map (λ a. peek memory a w) (count_up addr n)) × Same memory r.1 w
  unfolding read_bytes count_up
  read_bytes_lem zero addr w fits = (refl, λ a. refl)
  read_bytes_lem (suc n) addr w fits =
      let small : u16 addr ≡ addr = omega arith in
      let r = (memory.read (u16 addr) w).1 in
      let (bytes, same) = read_bytes_lem n (addr + 1) r (omega arith) in
      (
        ap₂ (λ x xs. x ∷ xs) (ap (λ a. peek memory a w) small)
            (bytes
              ∙ peeks-Same lawful r w (count_up (addr + 1) n)
                  (λ b. lawful.read-read (u16 addr) b w)),
        λ a. same a ∙ lawful.read-read (u16 addr) a w,
      )

  -- What the loops of a load read is what those of a save do.
  pub load_image_lem :
      (layout : Layout) (w : W)
      → all ends_below layout ≡ true
      → ((load_image memory layout w).0 ≡ image memory layout w)
        × Same memory (load_image memory layout w).1 w
  unfolding all load_image image
  load_image_lem [] w fits = (refl, λ a. refl)
  load_image_lem (m ∷ more) w fits =
      let r = read_bytes memory m.1 m.0 w in
      let (bytes, same) = read_bytes_lem m.1 m.0 w (ground arith) in
      let (bytes', same') = load_image_lem more r.1 (ground arith) in
      (
        ap₂ (λ xs ys. xs ++ ys) bytes (bytes' ∙ image-Same lawful more r.1 w same),
        λ a. same' a ∙ same a,
      )
