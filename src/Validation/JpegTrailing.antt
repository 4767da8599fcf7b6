-- ===== src/Validation/JpegTrailing.antt =====
-- What follows an accepted JPEG file makes the scan refuse the whole.
use seta_im_intern.Prelude.{
  ℕ, zero, suc, ◌+◌, ◌*◌, ◌≤◌, ◌<◌, ◌≡◌, refl, true, false, not, ◌||◌, List, [], ◌∷◌, ◌++◌, ltb,
  leb, ◌==◌, length, length-append, ok, err, >>=-eq-ok, refuse_if-eq-ok, refuse_if, arith,
  Bool-cases, inl, inr, if-true, if-false,
}
use seta_im_intern.Validation.Bytes.{byte_at, corrupt_container, trailing_content, not_an_image}
use seta_im_intern.Validation.Jpeg.{
  marker_prefix, start_of_image, end_of_image, start_of_scan, temporary, is_restart,
  segment_minimum, skip_prefixes, read_marker, segment_end, scan_width, skip_entropy_coded_data,
  after_marker, scan_segments, scan_jpeg,
}

byte_at-append :
    (xs ys : List ℕ) (i : ℕ) {b : ℕ} → byte_at xs i ≡ ok b → byte_at (xs ++ ys) i ≡ ok b
byte_at-append [] ys i h = ground arith
byte_at-append (x ∷ xs) ys zero h = h
byte_at-append (x ∷ xs) ys (suc i) h = byte_at-append xs ys i h

module _ (xs ys : List ℕ) where
  longer : (a : ℕ) → ltb a (length xs) ≡ true → ltb a (length (xs ++ ys)) ≡ true
  longer a h = rw (length-append xs ys) (ground arith)

  not_past : (a : ℕ) → ltb (length xs) a ≡ false → ltb (length (xs ++ ys)) a ≡ false
  not_past a h = rw (length-append xs ys) (ground arith)

  not_at_end : (a : ℕ) → leb (length xs) a ≡ false → leb (length (xs ++ ys)) a ≡ false
  not_at_end a h = rw (length-append xs ys) (ground arith)

  -- The loop stops at the same byte if it stops before the end.
  skip_prefixes-append :
      (fuel fuel' offset n : ℕ)
      → fuel ≤ fuel'
      → skip_prefixes fuel xs offset ≡ ok n
      → leb (length xs) n ≡ false
      → skip_prefixes fuel' (xs ++ ys) offset ≡ ok n
  unfolding skip_prefixes
  skip_prefixes-append zero fuel' offset n le h before = ground arith
  skip_prefixes-append (suc fuel) zero offset n le h before = ground arith
  skip_prefixes-append (suc fuel) (suc fuel') offset n le h before =
      elim (Bool-cases (ltb offset (length xs))) [
        | inl inside ↦
            let h1 = if-true (ltb offset (length xs)) _ (ok offset) h inside in
            let (b, g, h2) = >>=-eq-ok (byte_at xs offset) _ h1 in
            elim (Bool-cases (b == marker_prefix)) [
              | inl is ↦
                  rw (longer offset inside, byte_at-append xs ys offset g, is)
                    (skip_prefixes-append fuel fuel' (offset + 1) n (omega arith)
                      (if-true (b == marker_prefix) _ _ h2 is) before)
              | inr other ↦
                  rw (longer offset inside, byte_at-append xs ys offset g, other)
                    (if-false (b == marker_prefix) (skip_prefixes fuel xs (offset + 1)) (ok offset)
                      h2 other)
            ]
        | inr past ↦
            let h1 : ok offset ≡ ok n = if-false (ltb offset (length xs)) _ (ok offset) h past in
            let q : offset ≡ n = ground arith in
            let bad : leb (length xs) offset ≡ false = rw q before in ground arith
      ]

  read_marker-append :
      (offset : ℕ) (read : ℕ × ℕ)
      → read_marker xs offset ≡ ok read
      → read_marker (xs ++ ys) offset ≡ ok read
  unfolding read_marker
  read_marker-append offset read h0 =
      let (_, g0, h1) = >>=-eq-ok (refuse_if (leb (length xs) offset) corrupt_container) _ h0 in
      let (first, g1, h2) = >>=-eq-ok (byte_at xs offset) _ h1 in
      let (_, g2, h3) =
        >>=-eq-ok (refuse_if (not (first == marker_prefix)) corrupt_container) _ h2 in
      let (skipped, g3, h4) = >>=-eq-ok (skip_prefixes (suc (length xs)) xs offset) _ h3 in
      let (_, g4, h5) = >>=-eq-ok (refuse_if (leb (length xs) skipped) corrupt_container) _ h4 in
      let (marker, g5, h6) = >>=-eq-ok (byte_at xs skipped) _ h5 in
      let r0 = refuse_if-eq-ok (leb (length xs) offset) corrupt_container g0 in
      let r2 = refuse_if-eq-ok (not (first == marker_prefix)) corrupt_container g2 in
      let r4 = refuse_if-eq-ok (leb (length xs) skipped) corrupt_container g4 in
      rw
        (
          skip_prefixes-append (suc (length xs)) (suc (length (xs ++ ys))) offset skipped
              (omega (arith, length-append xs ys)) g3 r4,
          not_at_end offset r0,
          byte_at-append xs ys offset g1,
          r2,
          not_at_end skipped r4,
          byte_at-append xs ys skipped g5,
        )
        h6

  segment_end-append :
      (offset n : ℕ) → segment_end xs offset ≡ ok n → segment_end (xs ++ ys) offset ≡ ok n
  unfolding segment_end
  segment_end-append offset n h0 =
      let (_, g0, h1) =
        >>=-eq-ok (refuse_if (ltb (length xs) (offset + 2)) corrupt_container) _ h0 in
      let (high, g1, h2) = >>=-eq-ok (byte_at xs offset) _ h1 in
      let (low, g2, h3) = >>=-eq-ok (byte_at xs (offset + 1)) _ h2 in
      let (_, g3, h4) =
        >>=-eq-ok (refuse_if (ltb (high * 256 + low) segment_minimum) corrupt_container) _ h3 in
      let (_, g4, h5) =
        >>=-eq-ok (refuse_if (ltb (length xs) (offset + (high * 256 + low))) corrupt_container) _
          h4 in
      rw
        (
          not_past (offset + 2)
              (refuse_if-eq-ok (ltb (length xs) (offset + 2)) corrupt_container g0),
          byte_at-append xs ys offset g1,
          byte_at-append xs ys (offset + 1) g2,
          refuse_if-eq-ok (ltb (high * 256 + low) segment_minimum) corrupt_container g3,
          not_past (offset + (high * 256 + low)) (
              refuse_if-eq-ok (ltb (length xs) (offset + (high * 256 + low))) corrupt_container g4),
        )
        h5

  skip_entropy_coded_data-append :
      (fuel fuel' offset n : ℕ)
      → fuel ≤ fuel'
      → skip_entropy_coded_data fuel xs offset ≡ ok n
      → skip_entropy_coded_data fuel' (xs ++ ys) offset ≡ ok n
  unfolding skip_entropy_coded_data
  skip_entropy_coded_data-append zero fuel' offset n le h = ground arith
  skip_entropy_coded_data-append (suc fuel) zero offset n le h = ground arith
  skip_entropy_coded_data-append (suc fuel) (suc fuel') offset n le h =
      elim (Bool-cases (ltb (offset + 1) (length xs))) [
        | inl inside ↦
            let h1 = if-true (ltb (offset + 1) (length xs)) _ (err corrupt_container) h inside in
            let (first, g1, h2) = >>=-eq-ok (byte_at xs offset) _ h1 in
            let (following, g2, h3) = >>=-eq-ok (byte_at xs (offset + 1)) _ h2 in
            elim (Bool-cases (scan_width first following == 0)) [
              | inl stops ↦
                  rw
                    (
                      longer (offset + 1) inside,
                      byte_at-append xs ys offset g1,
                      byte_at-append xs ys (offset + 1) g2,
                      stops,
                    )
                    (if-true (scan_width first following == 0) (ok offset) _ h3 stops)
              | inr moves ↦
                  rw
                    (
                      longer (offset + 1) inside,
                      byte_at-append xs ys offset g1,
                      byte_at-append xs ys (offset + 1) g2,
                      moves,
                    )
                    (skip_entropy_coded_data-append fuel fuel' (offset + scan_width first following)
                      n (omega arith)
                      (if-false (scan_width first following == 0) (ok offset) _ h3 moves))
            ]
        | inr past ↦
            let bad : err corrupt_container ≡ ok n =
              if-false (ltb (offset + 1) (length xs)) _ (err corrupt_container) h past in
            ground arith
      ]

  after_marker-append :
      (marker offset n : ℕ)
      → after_marker xs marker offset ≡ ok n
      → after_marker (xs ++ ys) marker offset ≡ ok n
  unfolding after_marker
  after_marker-append marker offset n h =
      elim (Bool-cases (marker == temporary || is_restart marker)) [
        | inl bare ↦
            rw bare (if-true (marker == temporary || is_restart marker) (ok offset) _ h bare)
        | inr segment ↦
            let (ending, g, h1) =
              >>=-eq-ok (segment_end xs offset) _
                (if-false (marker == temporary || is_restart marker) (ok offset) _ h segment) in
            elim (Bool-cases (marker == start_of_scan)) [
              | inl scan ↦
                  rw (segment, segment_end-append offset ending g, scan)
                    (skip_entropy_coded_data-append (suc (length xs)) (suc (length (xs ++ ys)))
                      ending n (omega (arith, length-append xs ys))
                      (if-true (marker == start_of_scan) _ (ok ending) h1 scan))
              | inr other ↦
                  rw (segment, segment_end-append offset ending g, other)
                    (if-false (marker == start_of_scan)
                      (skip_entropy_coded_data (suc (length xs)) xs ending) (ok ending) h1 other)
            ]
      ]

  longer_file :
      (a : ℕ) → not (a == length xs) ≡ false → 0 < length ys → not (a == length (xs ++ ys)) ≡ true
  longer_file a h k = rw (length-append xs ys) (ground arith)

  scan_segments-append :
      (fuel fuel' offset : ℕ)
      → 0 < length ys
      → fuel ≤ fuel'
      → scan_segments fuel xs offset ≡ ok tt
      → scan_segments fuel' (xs ++ ys) offset ≡ err trailing_content
  unfolding scan_segments
  scan_segments-append zero fuel' offset some' le h = ground arith
  scan_segments-append (suc fuel) zero offset some' le h = ground arith
  scan_segments-append (suc fuel) (suc fuel') offset some' le h =
      let (read, g, h1) = >>=-eq-ok (read_marker xs offset) _ h in
      elim (Bool-cases (read.0 == start_of_image)) [
        | inl again ↦
            let bad : err trailing_content ≡ ok tt =
              if-true (read.0 == start_of_image) (err trailing_content) _ h1 again in
            ground arith
        | inr first ↦
            let h2 = if-false (read.0 == start_of_image) (err trailing_content) _ h1 first in
            elim (Bool-cases (read.0 == end_of_image)) [
              | inl ends ↦
                  let h3 =
                    if-true (read.0 == end_of_image)
                      (refuse_if (not (read.1 == length xs)) trailing_content) _ h2 ends in
                  let whole = refuse_if-eq-ok (not (read.1 == length xs)) trailing_content h3 in
                  rw (read_marker-append offset read g, first, ends, longer_file read.1 whole some')
                    refl
              | inr goes ↦
                  let h3 =
                    if-false (read.0 == end_of_image)
                      (refuse_if (not (read.1 == length xs)) trailing_content) _ h2 goes in
                  let (next, g', h4) = >>=-eq-ok (after_marker xs read.0 read.1) _ h3 in
                  rw
                    (
                      read_marker-append offset read g,
                      first,
                      goes,
                      after_marker-append read.0 read.1 next g',
                    )
                    (scan_segments-append fuel fuel' next some' (omega arith) h4)
            ]
      ]

short : (xs ys : List ℕ) → ltb (length xs) 2 ≡ false → ltb (length (xs ++ ys)) 2 ≡ false
short xs ys h = rw (length-append xs ys) (ground arith)

-- When the JPEG scan accepts a file, it refuses every longer file that begins with it, with the
-- error for trailing content: nothing can be hidden after an image that passes.
pub scan_jpeg-trailing :
    (bytes more : List ℕ)
    → scan_jpeg bytes ≡ ok tt
    → 0 < length more
    → scan_jpeg (bytes ++ more) ≡ err trailing_content
unfolding scan_jpeg
scan_jpeg-trailing bytes more h0 some' =
    let (_, g0, h1) = >>=-eq-ok (refuse_if (ltb (length bytes) 2) not_an_image) _ h0 in
    let (first, g1, h2) = >>=-eq-ok (byte_at bytes 0) _ h1 in
    let (second, g2, h3) = >>=-eq-ok (byte_at bytes 1) _ h2 in
    let (_, g3, h4) =
      >>=-eq-ok
        (refuse_if (not (first == marker_prefix) || not (second == start_of_image)) not_an_image) _
        h3 in
    rw
      (
        scan_segments-append bytes more (length bytes) (length (bytes ++ more)) 2 some'
            (omega (arith, length-append bytes more)) h4,
        short bytes more (refuse_if-eq-ok (ltb (length bytes) 2) not_an_image g0),
        byte_at-append bytes more 0 g1,
        byte_at-append bytes more 1 g2,
        refuse_if-eq-ok (not (first == marker_prefix) || not (second == start_of_image))
            not_an_image g3,
      )
      refl
