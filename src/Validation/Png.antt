-- ===== src/Validation/Png.antt =====
-- media/validation/png.go: the walk over a PNG file's chunks. The loop runs on the file's length as
-- fuel, which PngSafety shows to be enough. `crc` is the checksum of hash/crc32.
use seta_im_intern.Prelude.{
  ℕ, zero, suc, ◌+◌, ◌-◌, ◌*◌, Bool, true, false, not, ◌&&◌, ◌||◌, List, [], ◌∷◌, ltb, ◌==◌,
  if◌then◌else◌, length, same_bytes, Result, ok, err, ◌>>=◌, ◌>>◌, refuse_if,
}
use seta_im_intern.Validation.Bytes.{
  ScanError, not_an_image, corrupt_container, trailing_content, unsupported_feature, panicked,
  out_of_fuel, slice, has_prefix,
}

abbrev pub png_signature : List ℕ
png_signature = 137 ∷ 80 ∷ 78 ∷ 71 ∷ 13 ∷ 10 ∷ 26 ∷ 10 ∷ []

abbrev pub chunk_header_bytes : ℕ
chunk_header_bytes = 8

abbrev pub chunk_crc_bytes : ℕ
chunk_crc_bytes = 4

abbrev pub ihdr : List ℕ
ihdr = 73 ∷ 72 ∷ 68 ∷ 82 ∷ []

abbrev pub iend : List ℕ
iend = 73 ∷ 69 ∷ 78 ∷ 68 ∷ []

-- "acTL", "fcTL" and "fdAT"
abbrev pub is_animation : List ℕ → Bool
is_animation t =
    same_bytes t (97 ∷ 99 ∷ 84 ∷ 76 ∷ [])
    || (same_bytes t (102 ∷ 99 ∷ 84 ∷ 76 ∷ []) || same_bytes t (102 ∷ 100 ∷ 65 ∷ 84 ∷ []))

-- `binary.BigEndian.Uint32`, which panics on fewer than four bytes.
abbrev pub uint32 : List ℕ → Result ScanError ℕ
uint32 (a ∷ b ∷ c ∷ d ∷ rest) = ok (((a * 256 + b) * 256 + c) * 256 + d)
uint32 _ = err panicked

pub record Progress : Type 0 where
  pub offset : ℕ
  pub saw_header : Bool
  pub saw_terminator : Bool

abbrev pub start_of_chunks : Progress
start_of_chunks = record {
  offset = length png_signature;
  saw_header = false;
  saw_terminator = false;
}

unfoldable pub see_chunk : List ℕ → Progress → Result ScanError Progress
see_chunk chunk_type p =
    if same_bytes chunk_type ihdr
    then (if p.saw_header || not (p.offset == length png_signature)
        then err corrupt_container
        else ok (record p { saw_header = true }))
    else if is_animation chunk_type
    then err unsupported_feature
    else if same_bytes chunk_type iend
    then ok (record p { saw_terminator = true })
    else if not p.saw_header
    then err corrupt_container
    else ok p

module _ (crc : List ℕ → ℕ) where
  unfoldable pub scan_chunk : List ℕ → Progress → Result ScanError Progress
  unfolding see_chunk
  scan_chunk bytes p = do
    refuse_if (ltb (length bytes - p.offset) chunk_header_bytes) corrupt_container
    size_bytes ← slice bytes p.offset (p.offset + 4)
    declared ← uint32 size_bytes
    refuse_if (ltb (length bytes - p.offset) declared) corrupt_container
    chunk_type ← slice bytes (p.offset + 4) (p.offset + chunk_header_bytes)
    let payload_end = p.offset + chunk_header_bytes + declared
    let chunk_end = payload_end + chunk_crc_bytes
    refuse_if (ltb (length bytes) chunk_end) corrupt_container
    covered ← slice bytes (p.offset + 4) payload_end
    crc_bytes ← slice bytes payload_end chunk_end
    stored ← uint32 crc_bytes
    refuse_if (not (crc covered == stored)) corrupt_container
    seen ← see_chunk chunk_type p
    ok (record seen { offset = chunk_end })

  unfoldable pub scan_chunks : ℕ → List ℕ → Progress → Result ScanError Progress
  unfolding scan_chunk
  scan_chunks zero bytes p = err out_of_fuel
  scan_chunks (suc fuel) bytes p =
      let rest = scan_chunk bytes p >>= λ next. scan_chunks fuel bytes next in
      if ltb p.offset (length bytes) && not p.saw_terminator then rest else ok p

  unfoldable pub scan_png : List ℕ → Result ScanError (Unit {0})
  unfolding scan_chunks
  scan_png bytes = do
    refuse_if (not (has_prefix bytes png_signature)) not_an_image
    p ← scan_chunks (suc (length bytes)) bytes start_of_chunks
    refuse_if (not p.saw_header || not p.saw_terminator) corrupt_container
    refuse_if (not (p.offset == length bytes)) trailing_content
