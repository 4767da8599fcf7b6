-- ===== src/Validation/Admission.antt =====
-- media/validation/validation.go: what is admitted for processing. The decoder of the image package
-- is an argument, and gives a width and a height.
use seta_im_intern.Prelude.{
  ℕ, ◌*◌, ◌^◌, ◌%◌, Bool, not, ◌&&◌, ◌||◌, Option, none, some, List, [], ◌∷◌, ltb, ◌==◌,
  if◌then◌else◌, Result, ok, err, ◌>>=◌, ◌>>◌, refuse_if,
}
use seta_im_intern.Media.{ContentType, jpeg, png, other_type, same_type}
use seta_im_intern.Validation.Bytes.{
  ScanError, not_an_image, type_mismatch, dimensions_exceeded, has_prefix,
}
use seta_im_intern.Validation.Jpeg.{scan_jpeg}
use seta_im_intern.Validation.Png.{png_signature, scan_png}

pub record Limits : Type 0 where
  pub max_side_px : ℕ
  pub max_pixels : ℕ

pub record Report : Type 0 where
  pub detected_type : ContentType
  pub width : ℕ
  pub height : ℕ

abbrev pub jpeg_signature : List ℕ
jpeg_signature = 255 ∷ 216 ∷ 255 ∷ []

unfoldable pub detect_type : List ℕ → Result ScanError ContentType
detect_type bytes =
    if has_prefix bytes jpeg_signature
    then ok jpeg
    else if has_prefix bytes png_signature
    then ok png
    else err not_an_image

-- `int64(width) * int64(height) > max`: a product that wraps to a negative number is not greater.
abbrev pub exceeds_pixels : ℕ → ℕ → Bool
exceeds_pixels product max = ltb (product % 2 ^ 64) (2 ^ 63) && ltb max (product % 2 ^ 64)

unfoldable pub admit_size : Limits → ℕ → ℕ → Result ScanError (Unit {0})
admit_size limits width height = do
  refuse_if (width == 0 || height == 0) not_an_image
  refuse_if (ltb limits.max_side_px width || ltb limits.max_side_px height) dimensions_exceeded
  refuse_if (exceeds_pixels (width * height) limits.max_pixels) dimensions_exceeded

abbrev pub decoded_or_refuse : Option (ℕ × ℕ) → Result ScanError (ℕ × ℕ)
decoded_or_refuse none = err not_an_image
decoded_or_refuse (some size) = ok size

module _ (crc : List ℕ → ℕ) (decode_config : List ℕ → Option (ℕ × ℕ)) where
  unfoldable pub scan_container : List ℕ → ContentType → Result ScanError (Unit {0})
  unfolding scan_jpeg scan_png
  scan_container bytes jpeg = scan_jpeg bytes
  scan_container bytes png = scan_png crc bytes
  scan_container bytes (other_type n) = err not_an_image

  unfoldable pub admit : List ℕ → ContentType → Limits → Result ScanError Report
  unfolding detect_type scan_container admit_size
  admit bytes declared limits = do
    detected ← detect_type bytes
    refuse_if (not (same_type detected declared)) type_mismatch
    scan_container bytes detected
    size ← decoded_or_refuse (decode_config bytes)
    admit_size limits size.0 size.1
    ok (record { detected_type = detected; width = size.0; height = size.1 })
