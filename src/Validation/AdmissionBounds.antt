-- ===== src/Validation/AdmissionBounds.antt =====
-- What an admission promises to the decoder that runs after it.
use seta_im_intern.Prelude.{
  ℕ, ◌*◌, ◌^◌, ◌%◌, ◌≤◌, ◌<◌, ◌≡◌, refl, ap, Bool, true, false, not, ◌&&◌, ◌||◌, Option, List, ltb,
  ◌==◌, ok, >>=-eq-ok, ok-injective, refuse_if-eq-ok, refuse_if, arith,
}
use native.Mathlib.Nat.{mul-le-mul}
use seta_im_intern.Media.{ContentType, jpeg, png, other_type, same_type}
use seta_im_intern.Validation.Bytes.{not_an_image, type_mismatch, dimensions_exceeded}
use seta_im_intern.Validation.Admission.{
  Limits, Report, detect_type, exceeds_pixels, admit_size, decoded_or_refuse, scan_container, admit,
}

same_type-eq : (a b : ContentType) → same_type a b ≡ true → a ≡ b
same_type-eq jpeg jpeg h = refl
same_type-eq png png h = refl
same_type-eq (other_type m) (other_type n) h =
    let q : m ≡ n = ground arith in ap (λ k. other_type k) q
same_type-eq jpeg png h = ground arith
same_type-eq jpeg (other_type n) h = ground arith
same_type-eq png jpeg h = ground arith
same_type-eq png (other_type n) h = ground arith
same_type-eq (other_type m) jpeg h = ground arith
same_type-eq (other_type m) png h = ground arith

left_true : (a b : Bool) → a ≡ true → (a && b) ≡ false → b ≡ false
left_true a b h k = ground arith

not_above : (p max : ℕ) → ltb max p ≡ false → p ≤ max
not_above p max h = ground arith

-- A product that does not wrap is compared as it is.
pixels_fit : (p max : ℕ) → p < 2 ^ 63 → exceeds_pixels p max ≡ false → p ≤ max
pixels_fit p max h e =
    let q : p % 2 ^ 64 ≡ p = omega arith in
    let e' = rw q at e in not_above p max (left_true (ltb p (2 ^ 63)) (ltb max p) (ground arith) e')

pub record IsAdmissible (limits : Limits) (width height : ℕ) : Type 0 where
  pub width_positive : 0 < width
  pub height_positive : 0 < height
  pub width_within : width ≤ limits.max_side_px
  pub height_within : height ≤ limits.max_side_px
  pub pixels_within : width * height ≤ limits.max_pixels

IsAdmissible-admit_size :
    (limits : Limits) (width height : ℕ) {u : Unit {0}}
    → limits.max_side_px < 2 ^ 31
    → admit_size limits width height ≡ ok u
    → IsAdmissible limits width height
unfolding admit_size
IsAdmissible-admit_size limits width height small h0 =
    let (_, g0, h1) = >>=-eq-ok (refuse_if (width == 0 || height == 0) not_an_image) _ h0 in
    let (_, g1, h2) =
      >>=-eq-ok
        (refuse_if (ltb limits.max_side_px width || ltb limits.max_side_px height)
          dimensions_exceeded)
        _ h1 in
    let positive = refuse_if-eq-ok (width == 0 || height == 0) not_an_image g0 in
    let sides =
      refuse_if-eq-ok (ltb limits.max_side_px width || ltb limits.max_side_px height)
        dimensions_exceeded g1 in
    let pixels =
      refuse_if-eq-ok (exceeds_pixels (width * height) limits.max_pixels) dimensions_exceeded h2 in
    let w : width ≤ limits.max_side_px = ground arith in
    let t : height ≤ limits.max_side_px = ground arith in
    let m : width * height ≤ 2 ^ 31 * 2 ^ 31 =
      mul-le-mul {n₁ = width} {m₁ = height} {n₂ = 2 ^ 31} {m₂ = 2 ^ 31} (omega arith)
        (omega arith) in
    record {
      width_positive = ground arith;
      height_positive = ground arith;
      width_within = w;
      height_within = t;
      pixels_within = pixels_fit (width * height) limits.max_pixels (omega arith) pixels;
    }

-- With a side limit below 2 ^ 31, an admitted file has the declared type, its container scan has
-- accepted the whole file, and the decoder's width and height are positive, within the side limit,
-- and within the pixel limit as a product that did not wrap.
pub admit-IsAdmissible :
    (crc : List ℕ → ℕ) (decode_config : List ℕ → Option (ℕ × ℕ)) (bytes : List ℕ)
    (declared : ContentType) (limits : Limits) (report : Report)
    → limits.max_side_px < 2 ^ 31
    → admit crc decode_config bytes declared limits ≡ ok report
    → (report.detected_type ≡ declared)
      × (scan_container crc decode_config bytes declared ≡ ok tt)
      × IsAdmissible limits report.width report.height
unfolding admit
admit-IsAdmissible crc decode_config bytes declared limits report small h0 =
    let (detected, g0, h1) = >>=-eq-ok (detect_type bytes) _ h0 in
    let (_, g1, h2) =
      >>=-eq-ok (refuse_if (not (same_type detected declared)) type_mismatch) _ h1 in
    let (_, g2, h3) = >>=-eq-ok (scan_container crc decode_config bytes detected) _ h2 in
    let (size, g3, h4) = >>=-eq-ok (decoded_or_refuse (decode_config bytes)) _ h3 in
    let (_, g4, h5) = >>=-eq-ok (admit_size limits size.0 size.1) _ h4 in
    let differs = refuse_if-eq-ok (not (same_type detected declared)) type_mismatch g1 in
    let same = same_type-eq detected declared (ground arith) in
    let q : record { detected_type = detected; width = size.0; height = size.1 } ≡ report =
      ok-injective h5 in
    (
      rw (← q) same,
      rw (← same) g2,
      rw (← q) (IsAdmissible-admit_size limits size.0 size.1 small g4),
    )
