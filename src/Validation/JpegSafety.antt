-- ===== src/Validation/JpegSafety.antt =====
-- The JPEG scan is total, and what it accepts is framed by its two markers.
use seta_im_intern.Prelude.{
  ℕ, zero, suc, ◌+◌, ◌-◌, ◌*◌, ◌≤◌, ◌<◌, ◌≡◌, refl, false, not, ◌||◌, some, List, ltb, leb, ltb→lt,
  ◌==◌, length, get_elem?, ok, err, refuse_if, arith,
}
use seta_im_intern.Validation.Bytes.{
  ScanError, returns, refuses, is_defect, byte_at, IsSafe, IsSafe-bind, IsSafe-if, IsSafe-weaken,
  IsSafe-ok, IsSafe-err, IsSafe-refuse_if, IsSafe-byte_at, corrupt_container, trailing_content,
}
use seta_im_intern.Validation.Jpeg.{
  marker_prefix, start_of_image, end_of_image, start_of_scan, temporary, is_restart,
  segment_minimum, skip_prefixes, read_marker, segment_end, scan_width, skip_entropy_coded_data,
  after_marker, scan_segments, scan_jpeg,
}

module _ (bytes : List ℕ) where
  -- The loop ends past a prefix byte, at most at the end of the file.
  abbrev Skipped : ℕ → Type 0
  Skipped n = (n ≤ length bytes) × (get_elem? bytes (n - 1) ≡ some marker_prefix)

  skip_prefixes-IsSafe :
      (fuel offset : ℕ)
      → length bytes - offset < fuel
      → offset ≤ length bytes
      → get_elem? bytes (offset - 1) ≡ some marker_prefix
      → IsSafe (λ n. (offset ≤ n) × Skipped n) (skip_prefixes fuel bytes offset)
  unfolding skip_prefixes
  skip_prefixes-IsSafe zero offset enough inside before = ground arith
  skip_prefixes-IsSafe (suc fuel) offset enough inside before =
      IsSafe-if (ltb offset (length bytes)) _ _
        (λ more.
          IsSafe-bind (byte_at bytes offset) _
            (IsSafe-byte_at bytes offset (ltb→lt offset (length bytes) more))
            (λ b here.
              IsSafe-if (b == marker_prefix) _ _
                (λ is.
                  IsSafe-weaken
                    (skip_prefixes-IsSafe fuel (offset + 1)
                      (omega (arith, ltb→lt offset (length bytes) more))
                      (omega (arith, ltb→lt offset (length bytes) more))
                      (let q : offset + 1 - 1 ≡ offset = omega arith in
                        let r : b ≡ marker_prefix = ground arith in rw q (rw r at here)))
                    (λ n h. (omega (arith, h.0), h.1)))
                (λ _. returns offset (omega arith, (inside, before)))))
        (λ _. returns offset (omega arith, (inside, before)))

  -- From a prefix byte the loop moves on.
  skip_prefixes-at_prefix :
      (offset : ℕ)
      → offset < length bytes
      → get_elem? bytes offset ≡ some marker_prefix
      → IsSafe (λ n. (offset + 1 ≤ n) × Skipped n) (skip_prefixes (suc (length bytes)) bytes offset)
  unfolding skip_prefixes
  skip_prefixes-at_prefix offset inside at =
      IsSafe-if (ltb offset (length bytes)) _ _
        (λ more.
          IsSafe-bind (byte_at bytes offset) _ (IsSafe-byte_at bytes offset inside) (λ b here.
            IsSafe-if (b == marker_prefix) _ _
              (λ is.
                let q : offset + 1 - 1 ≡ offset = omega arith in
                skip_prefixes-IsSafe (length bytes) (offset + 1) (omega arith) (omega arith)
                  (rw q at))
              (λ other. ground arith)))
        (λ no. ground arith)

  -- A marker is the byte before the offset returned, and a prefix byte stands before it.
  abbrev IsMarker : ℕ × ℕ → Type 0
  IsMarker (marker, next) =
      (next ≤ length bytes)
      × (get_elem? bytes (next - 1) ≡ some marker)
      × (get_elem? bytes (next - 2) ≡ some marker_prefix)

  read_marker-IsSafe :
      (offset : ℕ)
      → IsSafe (λ read. (offset + 2 ≤ read.1) × IsMarker read) (read_marker bytes offset)
  unfolding read_marker
  read_marker-IsSafe offset =
      IsSafe-bind (refuse_if (leb (length bytes) offset) _) _ (IsSafe-refuse_if _ _ refl) (λ _ in'.
        IsSafe-bind (byte_at bytes offset) _ (IsSafe-byte_at bytes offset (ground arith))
          (λ first here.
            IsSafe-bind (refuse_if (not (first == marker_prefix)) _) _ (IsSafe-refuse_if _ _ refl)
              (λ _ is.
                IsSafe-bind (skip_prefixes (suc (length bytes)) bytes offset) _
                  (skip_prefixes-at_prefix offset (ground arith) (ground arith))
                  (λ skipped past.
                    IsSafe-bind (refuse_if (leb (length bytes) skipped) _) _
                      (IsSafe-refuse_if _ _ refl)
                      (λ _ in''.
                        IsSafe-bind (byte_at bytes skipped) _
                          (IsSafe-byte_at bytes skipped (ground arith))
                          (λ marker at.
                            returns (marker, skipped + 1)
                              (let q : skipped + 1 - 1 ≡ skipped = omega arith in
                                let r : skipped + 1 - 2 ≡ skipped - 1 = omega arith in
                                (
                                  omega (arith, past.0),
                                  (ground arith, rw q at, rw r past.1.1),
                                ))))))))

  segment_end-IsSafe :
      (offset : ℕ) → IsSafe (λ n. (offset ≤ n) × (n ≤ length bytes)) (segment_end bytes offset)
  unfolding segment_end
  segment_end-IsSafe offset =
      IsSafe-bind (refuse_if (ltb (length bytes) (offset + 2)) _) _ (IsSafe-refuse_if _ _ refl)
        (λ _ in'.
          IsSafe-bind (byte_at bytes offset) _ (IsSafe-byte_at bytes offset (ground arith))
            (λ high _.
              IsSafe-bind (byte_at bytes (offset + 1)) _
                (IsSafe-byte_at bytes (offset + 1) (ground arith))
                (λ low _.
                  IsSafe-bind (refuse_if (ltb (high * 256 + low) segment_minimum) _) _
                    (IsSafe-refuse_if _ _ refl)
                    (λ _ _.
                      IsSafe-bind (refuse_if (ltb (length bytes) (offset + (high * 256 + low))) _) _
                        (IsSafe-refuse_if _ _ refl)
                        (λ _ end'. returns _ (omega arith, ground arith))))))

  skip_entropy_coded_data-IsSafe :
      (fuel offset : ℕ)
      → length bytes - offset < fuel
      → IsSafe (λ n. (offset ≤ n) × (n ≤ length bytes)) (skip_entropy_coded_data fuel bytes offset)
  unfolding skip_entropy_coded_data
  skip_entropy_coded_data-IsSafe zero offset enough = ground arith
  skip_entropy_coded_data-IsSafe (suc fuel) offset enough =
      IsSafe-if (ltb (offset + 1) (length bytes)) _ _
        (λ more.
          let inside = ltb→lt (offset + 1) (length bytes) more in
          IsSafe-bind (byte_at bytes offset) _ (IsSafe-byte_at bytes offset (omega arith))
            (λ first _.
              IsSafe-bind (byte_at bytes (offset + 1)) _ (IsSafe-byte_at bytes (offset + 1) inside)
                (λ following _.
                  IsSafe-if (scan_width first following == 0) _ _
                    (λ _. returns offset (omega arith, omega arith))
                    (λ moved.
                      let wide : 0 < scan_width first following = ground arith in
                      IsSafe-weaken
                        (skip_entropy_coded_data-IsSafe fuel (offset + scan_width first following)
                          (omega arith))
                        (λ n h. (omega (arith, h.0), h.1))))))
        (λ _. refuses corrupt_container refl)

  after_marker-IsSafe :
      (marker offset : ℕ)
      → offset ≤ length bytes
      → IsSafe (λ n. (offset ≤ n) × (n ≤ length bytes)) (after_marker bytes marker offset)
  unfolding after_marker
  after_marker-IsSafe marker offset inside =
      IsSafe-if (marker == temporary || is_restart marker) _ _
        (λ _. returns offset (omega arith, inside))
        (λ _. IsSafe-bind (segment_end bytes offset) _ (segment_end-IsSafe offset) (λ ending h.
          IsSafe-if (marker == start_of_scan) _ _
            (λ _.
              IsSafe-weaken
                (skip_entropy_coded_data-IsSafe (suc (length bytes)) ending (omega arith))
                (λ n k. (omega (arith, h.0, k.0), k.1)))
            (λ _. returns ending h)))

  -- The last two bytes are the end-of-image marker.
  abbrev pub EndsWithMarker : Type 0
  EndsWithMarker =
      (get_elem? bytes (length bytes - 2) ≡ some marker_prefix)
      × (get_elem? bytes (length bytes - 1) ≡ some end_of_image)

  scan_segments-IsSafe :
      (fuel offset : ℕ)
      → length bytes - offset < fuel
      → IsSafe (λ _. EndsWithMarker) (scan_segments fuel bytes offset)
  unfolding scan_segments
  scan_segments-IsSafe zero offset enough = ground arith
  scan_segments-IsSafe (suc fuel) offset enough =
      IsSafe-bind (read_marker bytes offset) _ (read_marker-IsSafe offset) (λ read h.
        IsSafe-if (read.0 == start_of_image) _ _ (λ _. refuses trailing_content refl)
          (λ _.
            IsSafe-if (read.0 == end_of_image) _ _
              (λ ends.
                IsSafe-weaken
                  (IsSafe-refuse_if (not (read.1 == length bytes)) trailing_content refl)
                  (λ _ whole.
                    let q : read.1 ≡ length bytes = ground arith in
                    let r : read.0 ≡ end_of_image = ground arith in
                    (rw q at h.1.2, rw (q, r) at h.1.1)))
              (λ _.
                IsSafe-bind (after_marker bytes read.0 read.1) _
                  (after_marker-IsSafe read.0 read.1 h.1.0)
                  (λ next k.
                    scan_segments-IsSafe fuel next (omega (arith, h.0, h.1.0, k.0, k.1))))))

  abbrev pub IsFramed : Type 0
  IsFramed =
      (get_elem? bytes 0 ≡ some marker_prefix)
      × (get_elem? bytes 1 ≡ some start_of_image)
      × (get_elem? bytes (length bytes - 2) ≡ some marker_prefix)
      × (get_elem? bytes (length bytes - 1) ≡ some end_of_image)

  scan_jpeg-IsSafe : IsSafe (λ _. IsFramed) (scan_jpeg bytes)
  unfolding scan_jpeg
  scan_jpeg-IsSafe =
      IsSafe-bind (refuse_if (ltb (length bytes) 2) _) _ (IsSafe-refuse_if _ _ refl) (λ _ two.
        IsSafe-bind (byte_at bytes 0) _ (IsSafe-byte_at bytes 0 (ground arith)) (λ first h0.
          IsSafe-bind (byte_at bytes 1) _ (IsSafe-byte_at bytes 1 (ground arith)) (λ second h1.
            IsSafe-bind
              (refuse_if (not (first == marker_prefix) || not (second == start_of_image)) _) _
              (IsSafe-refuse_if _ _ refl)
              (λ _ starts.
                IsSafe-weaken (scan_segments-IsSafe (length bytes) 2 (ground arith))
                  (λ _ e. (ground arith, ground arith, e.0, e.1))))))

-- On every file the JPEG scan ends with an answer or with one of the package's errors: no index or
-- slice is out of range, and its loops end within the file's length.
pub scan_jpeg-total :
    (bytes : List ℕ) (e : ScanError) → scan_jpeg bytes ≡ err e → is_defect e ≡ false
scan_jpeg-total bytes e h = IsSafe-err (scan_jpeg-IsSafe bytes) e h

-- A file that the JPEG scan accepts begins with the start-of-image marker FF D8, and its last two
-- bytes are the end-of-image marker FF D9.
pub scan_jpeg-IsFramed : (bytes : List ℕ) → scan_jpeg bytes ≡ ok tt → IsFramed bytes
scan_jpeg-IsFramed bytes h = IsSafe-ok (scan_jpeg-IsSafe bytes) tt h
