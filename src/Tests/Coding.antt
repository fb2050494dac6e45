-- ===== src/Tests/Coding.antt =====
-- The theorems on text and bytes with codecs that keep the bytes.
use mach_emu.Base.{
  ℕ, zero, suc, ◌+◌, ◌-◌, ◌*◌, ◌/◌, ◌≤◌, ◌≡◌, refl, sym, ap, true, some, inl, inr, List, [], ◌∷◌,
  ◌++◌, map, length, replicate, length-replicate, length-append, arith,
}
use mach_emu.Utils.{out_of_buffer, encode, bin_to_txt, txt_to_bin}
use mach_emu.Utils.Libraries.{Coding, IsCoding}
use mach_emu.Utils.RoundTrip.{encode_lem, txt_to_bin-bin_to_txt}

abbrev padding : ℕ → ℕ
padding n = (n + 2) / 3 * 4 - n

-- As long as base64: each byte plus one, then zeros.
abbrev pub pad : List ℕ → List ℕ
pad bin = map suc bin ++ replicate (padding (length bin)) 0

abbrev unpad_one : ℕ → List ℕ → List ℕ
unpad_one zero rest = []
unpad_one (suc n) rest = n ∷ rest

abbrev unpad : List ℕ → List ℕ
unpad [] = []
unpad (x ∷ xs) = unpad_one x (unpad xs)

instance abbrev pub coding : Coding
coding = record {
  base64_encode = pad;
  base64_decode = unpad;
  compress_bound = λ n. n;
  compress = λ size bin. some bin;
  uncompress = λ size bin. some bin;
  md5 = λ bin. replicate 16 0;
}

length-map : (bin : List ℕ) → length (map suc bin) ≡ length bin
length-map [] = refl
length-map (x ∷ xs) = omega (arith, length-map xs)

length-pad : (bin : List ℕ) → length (pad bin) ≡ (length bin + 2) / 3 * 4
length-pad bin = omega (
  arith,
  length-append (map suc bin) (replicate (padding (length bin)) 0),
  length-map bin,
  length-replicate {A = ℕ} (padding (length bin)) 0,
)

length-unpad : (text : List ℕ) → length (unpad text) ≤ length text
length-unpad [] = omega arith
length-unpad (zero ∷ xs) = omega arith
length-unpad (suc n ∷ xs) = omega (arith, length-unpad xs)

unpad-replicate : (n : ℕ) → unpad (replicate n 0) ≡ []
unfolding replicate
unpad-replicate zero = refl
unpad-replicate (suc n) = refl

unpad-append : (bin : List ℕ) (n : ℕ) → unpad (map suc bin ++ replicate n 0) ≡ bin
unpad-append [] n = unpad-replicate n
unpad-append (x ∷ xs) n = ap (λ ys. x ∷ ys) (unpad-append xs n)

pub coding-IsCoding : IsCoding coding
coding-IsCoding = record {
  length-base64_encode = length-pad;
  length-base64_decode = length-unpad;
  base64_decode-base64_encode = λ bin. unpad-append bin (padding (length bin));
  uncompress-compress = λ size n bin dst e fits. sym e;
  length-md5 = λ bin. length-replicate 16 0;
}

encode_lem_example : encode (1 ∷ 2 ∷ []) ≡ inl out_of_buffer
encode_lem_example = encode_lem coding-IsCoding (1 ∷ 2 ∷ [])

abbrev three_bytes : List ℕ
three_bytes = 1 ∷ 2 ∷ 3 ∷ []

txt_to_bin-bin_to_txt_example :
    txt_to_bin true "base64" "zlib" 3 (pad three_bytes) ≡ inr three_bytes
unfolding bin_to_txt replicate
txt_to_bin-bin_to_txt_example =
    txt_to_bin-bin_to_txt coding-IsCoding true "base64" "zlib" three_bytes (pad three_bytes) 3 refl
      (omega arith)
