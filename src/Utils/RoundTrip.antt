-- ===== src/Utils/RoundTrip.antt =====
-- What `BinToTxt` writes, `TxtToBin` reads; and for which lengths `BinToTxt` can write it.
use mach_emu.Base.{
  ℕ, ◌+◌, ◌*◌, ◌/◌, ◌≤◌, ◌≡◌, refl, sym, ap, ◌∙◌, Bool, true, not, ◌||◌, ◌==◌, leb, if◌then◌else◌,
  Bool-cases, Option, none, some, inl, inr, List, length, String, same_text, arith,
}
use mathlib.Core.Sum.{inl-ne-inr}
use mach_emu.Base.Results.{not_thrown}
use mach_emu.Utils.Libraries.{Coding, IsCoding}
use mach_emu.Utils.{
  out_of_buffer, write_buffer, encode, encode_compressed, bin_to_txt, decompressed, decompress,
  txt_to_bin,
}

-- The lengths for which half as much again is less than the padded text.
abbrev pub is_too_short : ℕ → Bool
is_too_short n = n == 1 || n == 2 || n == 4 || n == 5 || n == 7 || n == 10 || n == 13

buffer_lem : (n : ℕ) → leb ((n + 2) / 3 * 4) (n * 3 / 2) ≡ not (is_too_short n)
buffer_lem n = ground arith

module _ ⦃coding : Coding⦄ (lawful : IsCoding coding) where
  -- The buffer of `encode` holds the base64 text of any bytes but those of seven lengths, which are
  -- 1, 2, 4, 5, 7, 10 and 13: for these, base64_encode writes past the end of it. For every other
  -- length, the result is the whole text.
  pub encode_lem :
      (src : List ℕ)
      → encode src
        ≡ (if is_too_short (length src) then inl out_of_buffer else inr (coding.base64_encode src))
  unfolding encode write_buffer
  encode_lem src =
      rw (lawful.length-base64_encode src, buffer_lem (length src))
        (elim (Bool-cases (is_too_short (length src))) [ inl h ↦ rw h refl | inr h ↦ rw h refl ])

  decoded_lem :
      (src text : List ℕ)
      → encode src ≡ inr text
      → write_buffer (length text) (coding.base64_decode text) ≡ inr src
  unfolding write_buffer
  decoded_lem src text e =
      let (long, same) =
        not_thrown out_of_buffer (is_too_short (length src)) (sym (encode_lem src) ∙ e) in
      let h = lawful.length-base64_decode text in
      let fits : leb (length (coding.base64_decode text)) (length text) ≡ true = ground arith in
      rw fits (ap inr (rw (sym same) (lawful.base64_decode-base64_encode src)))

  decompressed_lem :
      (size n : ℕ) (bin text : List ℕ)
      → length bin ≤ n
      → (dst : Option (List ℕ)) → coding.compress size bin ≡ dst
      → encode_compressed dst ≡ inr text
      → (zipped : List ℕ) × (write_buffer (length text) (coding.base64_decode text) ≡ inr zipped)
        × (decompressed (coding.uncompress n zipped) ≡ inr bin)
  unfolding encode_compressed decompressed
  decompressed_lem size n bin text fits none e e' = absurd (inl-ne-inr e')
  decompressed_lem size n bin text fits (some dst) e e' =
      (dst, decoded_lem dst text e', rw (lawful.uncompress-compress size n bin dst e fits) refl)

module _ ⦃coding : Coding⦄ (lawful : IsCoding coding) (zlib : Bool) where
  -- Whatever the encoder, the compressor and the bytes: if `BinToTxt` gives a text, then
  -- `TxtToBin`, told the same names and a size that is not less than the bytes', gives the bytes.
  pub txt_to_bin-bin_to_txt :
      (encoder compressor : String) (bin text : List ℕ) (size : ℕ)
      → bin_to_txt zlib encoder compressor bin ≡ inr text
      → length bin ≤ size
      → txt_to_bin zlib encoder compressor size text ≡ inr bin
  unfolding bin_to_txt txt_to_bin decompress
  txt_to_bin-bin_to_txt encoder compressor bin text size =
      elim (Bool-cases (same_text encoder "base64")) [
        | inr other ↦ rw other (λ e fits. absurd (inl-ne-inr e))
        | inl base64 ↦ elim (Bool-cases (same_text compressor "none")) [
          | inl plain ↦
              rw (base64, plain) (λ e fits. rw (decoded_lem lawful bin text e, plain) refl)
          | inr packed ↦ elim (Bool-cases zlib) [
            | inr without ↦ rw (base64, packed, without) (λ e fits. absurd (inl-ne-inr e))
            | inl with_zlib ↦ elim (Bool-cases (same_text compressor "zlib")) [
              | inr other ↦ rw (base64, packed, with_zlib, other) (λ e fits. absurd (inl-ne-inr e))
              | inl same ↦
                  rw (base64, packed, with_zlib, same)
                    (λ e fits.
                      let (zipped, e', unzipped) =
                        decompressed_lem lawful (coding.compress_bound (length bin)) size bin text
                          fits _ refl e in
                      rw (e', packed, same) unzipped)
            ]
          ]
        ]
      ]
