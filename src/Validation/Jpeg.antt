-- ===== src/Validation/Jpeg.antt =====
-- media/validation/jpeg.go: the walk over a JPEG file's markers. Every loop runs on fuel, the
-- file's length and one more, which JpegSafety shows to be enough.
use seta_im_intern.Prelude.{
  ℕ, zero, suc, ◌+◌, ◌*◌, Bool, not, ◌&&◌, ◌||◌, List, ltb, leb, ◌==◌, if◌then◌else◌, length,
  Result, ok, err, ◌>>=◌, ◌>>◌, refuse_if,
}
use seta_im_intern.Validation.Bytes.{
  ScanError, not_an_image, corrupt_container, trailing_content, out_of_fuel, byte_at,
}

abbrev pub marker_prefix : ℕ
marker_prefix = 255

abbrev pub start_of_image : ℕ
start_of_image = 216

abbrev pub end_of_image : ℕ
end_of_image = 217

abbrev pub start_of_scan : ℕ
start_of_scan = 218

abbrev pub temporary : ℕ
temporary = 1

abbrev pub is_restart : ℕ → Bool
is_restart marker = leb 208 marker && leb marker 215

abbrev pub stuffed_byte : ℕ
stuffed_byte = 0

abbrev pub segment_minimum : ℕ
segment_minimum = 2

-- `for offset < len(data) && data[offset] == jpegMarkerPrefix { offset++ }`
unfoldable pub skip_prefixes : ℕ → List ℕ → ℕ → Result ScanError ℕ
skip_prefixes zero bytes offset = err out_of_fuel
skip_prefixes (suc fuel) bytes offset =
    let rest = skip_prefixes fuel bytes (offset + 1) in
    if ltb offset (length bytes)
    then (byte_at bytes offset >>= λ b. if b == marker_prefix then rest else ok offset)
    else ok offset

unfoldable pub read_marker : List ℕ → ℕ → Result ScanError (ℕ × ℕ)
unfolding skip_prefixes
read_marker bytes offset = do
  refuse_if (leb (length bytes) offset) corrupt_container
  first ← byte_at bytes offset
  refuse_if (not (first == marker_prefix)) corrupt_container
  skipped ← skip_prefixes (suc (length bytes)) bytes offset
  refuse_if (leb (length bytes) skipped) corrupt_container
  marker ← byte_at bytes skipped
  ok (marker, skipped + 1)

unfoldable pub segment_end : List ℕ → ℕ → Result ScanError ℕ
segment_end bytes offset = do
  refuse_if (ltb (length bytes) (offset + 2)) corrupt_container
  high ← byte_at bytes offset
  low ← byte_at bytes (offset + 1)
  let size = high * 256 + low
  refuse_if (ltb size segment_minimum) corrupt_container
  refuse_if (ltb (length bytes) (offset + size)) corrupt_container
  ok (offset + size)

-- How far the scan moves on over a byte and the one that follows it; 0 where a marker ends it.
abbrev pub scan_width : ℕ → ℕ → ℕ
scan_width first following =
    if not (first == marker_prefix)
    then 1
    else if following == stuffed_byte
    then 2
    else if is_restart following
    then 2
    else if following == marker_prefix
    then 1
    else 0

unfoldable pub skip_entropy_coded_data : ℕ → List ℕ → ℕ → Result ScanError ℕ
skip_entropy_coded_data zero bytes offset = err out_of_fuel
skip_entropy_coded_data (suc fuel) bytes offset =
    if ltb (offset + 1) (length bytes)
    then (byte_at bytes offset >>= λ first. byte_at bytes (offset + 1) >>= λ following.
        let width = scan_width first following in
        let rest = skip_entropy_coded_data fuel bytes (offset + width) in
        if width == 0 then ok offset else rest)
    else err corrupt_container

-- The offset after a marker, its segment and the scan's data included.
unfoldable pub after_marker : List ℕ → ℕ → ℕ → Result ScanError ℕ
unfolding segment_end skip_entropy_coded_data
after_marker bytes marker offset =
    if marker == temporary || is_restart marker
    then ok offset
    else segment_end bytes offset >>= λ ending.
        if marker == start_of_scan
        then skip_entropy_coded_data (suc (length bytes)) bytes ending
        else ok ending

unfoldable pub scan_segments : ℕ → List ℕ → ℕ → Result ScanError (Unit {0})
unfolding read_marker after_marker
scan_segments zero bytes offset = err out_of_fuel
scan_segments (suc fuel) bytes offset = read_marker bytes offset >>= λ read.
    let rest = after_marker bytes read.0 read.1 >>= λ next. scan_segments fuel bytes next in
    if read.0 == start_of_image
    then err trailing_content
    else if read.0 == end_of_image
    then refuse_if (not (read.1 == length bytes)) trailing_content
    else rest

unfoldable pub scan_jpeg : List ℕ → Result ScanError (Unit {0})
unfolding scan_segments
scan_jpeg bytes = do
  refuse_if (ltb (length bytes) 2) not_an_image
  first ← byte_at bytes 0
  second ← byte_at bytes 1
  refuse_if (not (first == marker_prefix) || not (second == start_of_image)) not_an_image
  scan_segments (length bytes) bytes 2
