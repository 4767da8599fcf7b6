-- ===== src/ValidationTests.antt =====
-- Small files, accepted and refused, and the theorems about the scans at them.
use seta_im_intern.Prelude.{ℕ, ◌≡◌, refl, false, some, List, [], ◌∷◌, ◌++◌, Option, ok, err, arith}
use seta_im_intern.Media.{png}
use seta_im_intern.Validation.Bytes.{is_defect, corrupt_container, trailing_content}
use seta_im_intern.Validation.Jpeg.{scan_jpeg}
use seta_im_intern.Validation.JpegSafety.{IsFramed, scan_jpeg-total, scan_jpeg-IsFramed}
use seta_im_intern.Validation.JpegTrailing.{scan_jpeg-trailing}
use seta_im_intern.Validation.Png.{png_signature, ihdr, iend, scan_png}
use seta_im_intern.Validation.PngSafety.{scan_png-total}
use seta_im_intern.Validation.PngTrailing.{scan_png-trailing}
use seta_im_intern.Validation.Admission.{Limits, Report, scan_container, admit}
use seta_im_intern.Validation.AdmissionBounds.{IsAdmissible, admit-IsAdmissible}

-- SOI, a scan with a stuffed byte, a restart and some data, EOI.
abbrev jpeg_file : List ℕ
jpeg_file = 255 ∷ 216 ∷ 255 ∷ 218 ∷ 0 ∷ 3 ∷ 7 ∷ 1 ∷ 255 ∷ 0 ∷ 255 ∷ 208 ∷ 9 ∷ 255 ∷ 217 ∷ []

-- A file that ends inside a segment.
abbrev cut_file : List ℕ
cut_file = 255 ∷ 216 ∷ 255 ∷ 224 ∷ 0 ∷ 9 ∷ 1 ∷ []

jpeg_accepted : scan_jpeg jpeg_file ≡ ok tt
unfolding scan_jpeg
jpeg_accepted = refl

jpeg_cut : scan_jpeg cut_file ≡ err corrupt_container
unfolding scan_jpeg
jpeg_cut = refl

scan_jpeg-total_example : is_defect corrupt_container ≡ false
scan_jpeg-total_example = scan_jpeg-total cut_file corrupt_container jpeg_cut

scan_jpeg-IsFramed_example : IsFramed jpeg_file
scan_jpeg-IsFramed_example = scan_jpeg-IsFramed jpeg_file jpeg_accepted

scan_jpeg-trailing_example : scan_jpeg (jpeg_file ++ 80 ∷ 75 ∷ []) ≡ err trailing_content
scan_jpeg-trailing_example =
    scan_jpeg-trailing jpeg_file (80 ∷ 75 ∷ []) jpeg_accepted (ground arith)

-- A checksum that is always 5.
abbrev crc : List ℕ → ℕ
crc bytes = 5

abbrev png_file : List ℕ
png_file =
    png_signature
    ++ ((0 ∷ 0 ∷ 0 ∷ 1 ∷ [])
        ++ (ihdr ++ (42 ∷ 0 ∷ 0 ∷ 0 ∷ 5 ∷ []))
        ++ ((0 ∷ 0 ∷ 0 ∷ 0 ∷ []) ++ (iend ++ (0 ∷ 0 ∷ 0 ∷ 5 ∷ []))))

png_accepted : scan_png crc png_file ≡ ok tt
unfolding scan_png
png_accepted = refl

png_cut : scan_png crc (png_signature ++ 0 ∷ 0 ∷ []) ≡ err corrupt_container
unfolding scan_png
png_cut = refl

scan_png-total_example : is_defect corrupt_container ≡ false
scan_png-total_example = scan_png-total crc (png_signature ++ 0 ∷ 0 ∷ []) corrupt_container png_cut

scan_png-trailing_example : scan_png crc (png_file ++ 80 ∷ 75 ∷ []) ≡ err trailing_content
scan_png-trailing_example =
    scan_png-trailing crc png_file (80 ∷ 75 ∷ []) png_accepted (ground arith)

abbrev decode : List ℕ → Option (ℕ × ℕ)
decode bytes = some (640, 480)

abbrev limits : Limits
limits = record { max_side_px = 1000; max_pixels = 400000 }

abbrev report : Report
report = record { detected_type = png; width = 640; height = 480 }

admitted : admit crc decode png_file png limits ≡ ok report
unfolding admit
admitted = refl

admit-IsAdmissible_example :
    (report.detected_type ≡ png)
    × (scan_container crc decode png_file png ≡ ok tt)
    × IsAdmissible limits report.width report.height
admit-IsAdmissible_example =
    admit-IsAdmissible crc decode png_file png limits report (ground arith) admitted
