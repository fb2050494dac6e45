-- ===== src/Machine/Images/Blocks.antt =====
-- The memory that `Save` collects.
use mathlib.Core.Bool.{true≢false}
use mach_emu.Base.{
  ℕ, zero, suc, ◌+◌, ◌≤◌, ◌<◌, ◌≡◌, refl, ap, ap₂, fun_ext, ◌∙◌, Bool, true, false, ltb,
  if◌then◌else◌, Bool-cases, Option, none, some, inl, inr, List, [], ◌∷◌, ◌++◌, map, all, count_up,
  u16, arith,
}
use mach_emu.Base.Results.{if_cases}
use mach_emu.Controller.{Controller, IsMemory}
use mach_emu.Machine.Images.{Layout, push_byte, read_up, collect_more, push_bytes, save_image}

module _ {W : Type 0} (memory : Controller W) where
  -- The byte at an address, and those of a layout.
  abbrev pub peek : ℕ → W → ℕ
  peek a w = (memory.read a w).0

  unfoldable pub image : Layout → W → List ℕ
  image [] w = []
  image (m ∷ more) w = map (λ a. peek a w) (count_up m.0 m.1) ++ image more w

  -- Two memories with the same bytes.
  abbrev pub Same : W → W → Type 0
  Same w w' = (a : ℕ) → peek a w ≡ peek a w'

-- Every block ends below 65536.
abbrev pub ends_below : ℕ × ℕ → Bool
ends_below m = ltb (m.0 + m.1) 65536

-- Those of a layout do, if it is there.
abbrev pub all_fit : Option Layout → Bool
all_fit none = true
all_fit (some layout) = all ends_below layout

module _ {W : Type 0} {memory : Controller W} (lawful : IsMemory memory) where
  read-Same : (a : ℕ) (w : W) → Same memory (memory.read a w).1 w
  read-Same a w b = lawful.read-read a b w

  pub peeks-Same :
      (w w' : W) (addresses : List ℕ)
      → Same memory w w'
      → map (λ a. peek memory a w) addresses ≡ map (λ a. peek memory a w') addresses
  peeks-Same w w' addresses same = ap (λ f. map f addresses) (fun_ext same)

  pub image-Same :
      (layout : Layout) (w w' : W)
      → Same memory w w'
      → image memory layout w ≡ image memory layout w'
  unfolding image
  image-Same [] w w' same = refl
  image-Same (m ∷ more) w w' same =
      ap₂ (λ xs ys. xs ++ ys) (peeks-Same w w' (count_up m.0 m.1) same) (image-Same more w w' same)

  -- One byte more.
  read_up-suc :
      (fuel n addr finish : ℕ) (w w' : W)
      → addr < finish
      → finish < 65536
      → read_up memory fuel (addr + 1) finish (memory.read addr w).1
        ≡ some (map (λ a. peek memory a (memory.read addr w).1) (count_up (addr + 1) n), w')
      → read_up memory (suc fuel) addr finish w
        ≡ some (map (λ a. peek memory a w) (count_up addr (suc n)), w')
  unfolding read_up push_byte count_up
  read_up-suc fuel n addr finish w w' before small e =
      let on : ltb addr finish ≡ true = ground arith in
      let next : u16 (addr + 1) ≡ addr + 1 = omega arith in
      rw (on, next, e)
        (ap (λ bytes. some (peek memory addr w ∷ bytes, w'))
          (peeks-Same (memory.read addr w).1 w (count_up (addr + 1) n) (read-Same addr w)))

  -- One block, in any fuel above its size.
  read_up_lem :
      (fuel n addr finish : ℕ) (w : W)
      → n < fuel
      → finish ≡ addr + n
      → finish < 65536
      → (w' : W) × (read_up memory fuel addr finish w
          ≡ some (map (λ a. peek memory a w) (count_up addr n), w'))
        × Same memory w' w
  unfolding read_up push_byte count_up
  read_up_lem zero n addr finish w enough e fits = absurd (omega arith)
  read_up_lem (suc fuel) zero addr finish w enough e fits =
      let over : ltb addr finish ≡ false = ground arith in (w, rw over refl, λ a. refl)
  read_up_lem (suc fuel) (suc n) addr finish w enough e fits =
      let (w', e', same) =
        read_up_lem fuel n (addr + 1) finish (memory.read addr w).1 (omega arith) (omega arith)
          fits in
      (
        w',
        read_up-suc fuel n addr finish w w' (omega arith) fits e',
        λ a. same a ∙ read-Same addr w a,
      )

  save_block_lem :
      (fuel : ℕ) (m : ℕ × ℕ) (more : Layout) (w : W)
      → m.0 + m.1 < 65536
      → 65535 < fuel
      → ((w1 : W)
          → Same memory w1 w
          → (w' : W) × (save_image memory fuel more w1 ≡ some (image memory more w1, w'))
            × Same memory w' w1)
      → (w' : W) × (save_image memory fuel (m ∷ more) w ≡ some (image memory (m ∷ more) w, w'))
        × Same memory w' w
  unfolding save_image collect_more push_bytes image
  save_block_lem fuel m more w fits enough rest =
      let (w1, e1, same1) = read_up_lem fuel m.1 m.0 (m.0 + m.1) w (omega arith) refl fits in
      let (w2, e2, same2) = rest w1 same1 in
      (
        w2,
        rw (e1, e2)
            (ap (λ bytes. some (map (λ a. peek memory a w) (count_up m.0 m.1) ++ bytes, w2))
              (image-Same more w1 w same1)),
        λ a. same2 a ∙ same1 a,
      )

  pub save_image_fits :
      (fuel : ℕ) (layout : Layout) (w : W)
      → all ends_below layout ≡ true
      → 65535 < fuel
      → (w' : W) × (save_image memory fuel layout w ≡ some (image memory layout w, w'))
        × Same memory w' w
  unfolding all save_image image
  save_image_fits fuel [] w fit enough = (w, refl, λ a. refl)
  save_image_fits fuel (m ∷ more) w fit enough =
      save_block_lem fuel m more w (ground arith) enough
        (λ w1 same. save_image_fits fuel more w1 (ground arith) enough)

collect_more-none :
    {W : Type 0} (blocks : W → Option (List ℕ × W))
    → ((w : W) → blocks w ≡ none)
    → (r : Option (List ℕ × W)) → collect_more blocks r ≡ none
unfolding collect_more push_bytes
collect_more-none blocks h none = refl
collect_more-none blocks h (some r) = rw (h r.1) refl

module _ {W : Type 0} (memory : Controller W) where
  -- The counter is always less than 65536.
  read_up-endless :
      (fuel addr finish : ℕ) (w : W)
      → addr < 65536
      → 65536 ≤ finish
      → read_up memory fuel addr finish w ≡ none
  unfolding read_up push_byte
  read_up-endless zero addr finish w small long = refl
  read_up-endless (suc fuel) addr finish w small long =
      let on : ltb addr finish ≡ true = ground arith in
      rw
        (on, read_up-endless fuel (u16 (addr + 1)) finish (memory.read addr w).1 (omega arith) long)
        refl

  save_image-endless :
      (fuel : ℕ) (layout : Layout) (w : W)
      → all (λ m. ltb m.0 65536) layout ≡ true
      → all ends_below layout ≡ false
      → save_image memory fuel layout w ≡ none
  unfolding all save_image push_bytes
  save_image-endless fuel [] w small long = absurd (true≢false long)
  save_image-endless fuel (m ∷ more) w small long = elim (Bool-cases (ends_below m)) [
    | inr over ↦ rw (read_up-endless fuel m.0 (m.0 + m.1) w (ground arith) (ground arith)) refl
    | inl fits ↦
        collect_more-none (save_image memory fuel more)
          (λ w'. save_image-endless fuel more w' (ground arith) (ground arith))
          (read_up memory fuel m.0 (m.0 + m.1) w)
  ]

module _ {W : Type 0} {memory : Controller W} (lawful : IsMemory memory) where
  -- For blocks that begin below 65536, the loops that collect the memory for a save end if and only
  -- if each block ends below 65536. Then, in 65536 rounds a block, they give the bytes of the
  -- layout in order, and leave the memory as it is; else they run on, whatever the fuel.
  pub save_image_lem :
      (fuel : ℕ) (layout : Layout) (w : W)
      → all (λ m. ltb m.0 65536) layout ≡ true
      → 65535 < fuel
      → if all ends_below layout
        then ((w' : W) × (save_image memory fuel layout w ≡ some (image memory layout w, w'))
            × Same memory w' w)
        else ((more : ℕ) → save_image memory more layout w ≡ none)
  save_image_lem fuel layout w small enough =
      if_cases (all ends_below layout) (λ fits. save_image_fits lawful fuel layout w fits enough)
        (λ long. λ more. save_image-endless memory more layout w small long)
