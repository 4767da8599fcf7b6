-- ===== src/Validation/PngTrailing.antt =====
-- What follows an accepted PNG file makes the scan refuse the whole.
use seta_im_intern.Prelude.{
  ℕ, zero, suc, ◌+◌, ◌-◌, ◌≤◌, ◌<◌, ◌≡◌, refl, ap, Bool, true, false, not, ◌&&◌, ◌||◌, List, [],
  ◌∷◌, ◌++◌, ltb, leb, ◌==◌, length, take, drop, length-append, ok, err, >>=-eq-ok, refuse_if-eq-ok,
  refuse_if, arith, Bool-cases, inl, inr, if-true, if-false,
}
use seta_im_intern.Validation.Bytes.{
  slice, has_prefix, corrupt_container, trailing_content, panicked, not_an_image,
}
use seta_im_intern.Validation.Png.{
  png_signature, uint32, Progress, start_of_chunks, scan_chunk, scan_chunks, scan_png,
}

take-drop-append :
    (n low : ℕ) (xs ys : List ℕ)
    → low + n ≤ length xs
    → take n (drop low (xs ++ ys)) ≡ take n (drop low xs)
take-drop-append zero low xs ys h = refl
take-drop-append (suc n) zero [] ys h = ground arith
take-drop-append (suc n) (suc low) [] ys h = ground arith
take-drop-append (suc n) zero (x ∷ xs) ys h =
    ap (λ l. x ∷ l) (take-drop-append n zero xs ys (omega arith))
take-drop-append (suc n) (suc low) (x ∷ xs) ys h = take-drop-append (suc n) low xs ys (omega arith)

-- What was read of a file is read of every file that begins with it.
slice-append :
    (xs ys : List ℕ) (low high : ℕ) {s : List ℕ}
    → slice xs low high ≡ ok s
    → slice (xs ++ ys) low high ≡ ok s
slice-append xs ys low high {s} h = elim (Bool-cases (leb low high && leb high (length xs))) [
  | inl inside ↦
      let inside' : (leb low high && leb high (length (xs ++ ys))) ≡ true =
        rw (length-append xs ys) (ground arith) in
      rw (inside', take-drop-append (high - low) low xs ys (ground arith)) (rw inside at h)
  | inr outside ↦ let bad : err panicked ≡ ok s = rw outside at h in ground arith
]

and_not : (a b : Bool) → b ≡ true → (a && not b) ≡ false
and_not a b h = ground arith

module _ (crc : List ℕ → ℕ) (xs ys : List ℕ) where
  scan_chunk-append :
      (p q : Progress) → scan_chunk crc xs p ≡ ok q → scan_chunk crc (xs ++ ys) p ≡ ok q
  unfolding scan_chunk
  scan_chunk-append p q h0 =
      let (_, g0, h1) =
        >>=-eq-ok (refuse_if (ltb (length xs - p.offset) 8) corrupt_container) _ h0 in
      let (size_bytes, g1, h2) = >>=-eq-ok (slice xs p.offset (p.offset + 4)) _ h1 in
      let (declared, g2, h3) = >>=-eq-ok (uint32 size_bytes) _ h2 in
      let (_, g3, h4) =
        >>=-eq-ok (refuse_if (ltb (length xs - p.offset) declared) corrupt_container) _ h3 in
      let (chunk_type, g4, h5) = >>=-eq-ok (slice xs (p.offset + 4) (p.offset + 8)) _ h4 in
      let (_, g5, h6) =
        >>=-eq-ok (refuse_if (ltb (length xs) (p.offset + 8 + declared + 4)) corrupt_container) _
          h5 in
      let (covered, g6, h7) = >>=-eq-ok (slice xs (p.offset + 4) (p.offset + 8 + declared)) _ h6 in
      let (crc_bytes, g7, h8) =
        >>=-eq-ok (slice xs (p.offset + 8 + declared) (p.offset + 8 + declared + 4)) _ h7 in
      let r0 : ltb (length (xs ++ ys) - p.offset) 8 ≡ false = rw (length-append xs ys) (
        let b = refuse_if-eq-ok (ltb (length xs - p.offset) 8) corrupt_container g0 in
        ground arith) in
      let r3 : ltb (length (xs ++ ys) - p.offset) declared ≡ false = rw (length-append xs ys) (
        let b = refuse_if-eq-ok (ltb (length xs - p.offset) declared) corrupt_container g3 in
        ground arith) in
      let r5 : ltb (length (xs ++ ys)) (p.offset + 8 + declared + 4) ≡ false =
        rw (length-append xs ys) (
          let b =
            refuse_if-eq-ok (ltb (length xs) (p.offset + 8 + declared + 4)) corrupt_container g5 in
          ground arith) in
      rw
        (
          r0,
          slice-append xs ys p.offset (p.offset + 4) g1,
          g2,
          r3,
          slice-append xs ys (p.offset + 4) (p.offset + 8) g4,
          r5,
          slice-append xs ys (p.offset + 4) (p.offset + 8 + declared) g6,
          slice-append xs ys (p.offset + 8 + declared) (p.offset + 8 + declared + 4) g7,
        )
        h8

  scan_chunks-append :
      (fuel fuel' : ℕ) (p q : Progress)
      → fuel ≤ fuel'
      → scan_chunks crc fuel xs p ≡ ok q
      → q.saw_terminator ≡ true
      → scan_chunks crc fuel' (xs ++ ys) p ≡ ok q
  unfolding scan_chunks
  scan_chunks-append zero fuel' p q le h ended = ground arith
  scan_chunks-append (suc fuel) zero p q le h ended = ground arith
  scan_chunks-append (suc fuel) (suc fuel') p q le h ended =
      elim (Bool-cases (ltb p.offset (length xs) && not p.saw_terminator)) [
        | inl go ↦
            let go' : (ltb p.offset (length (xs ++ ys)) && not p.saw_terminator) ≡ true =
              rw (length-append xs ys) (ground arith) in
            let (next, step, rest) =
              >>=-eq-ok (scan_chunk crc xs p) _
                (if-true (ltb p.offset (length xs) && not p.saw_terminator) _ (ok p) h go) in
            rw (go', scan_chunk-append p next step)
              (scan_chunks-append fuel fuel' next q (omega arith) rest ended)
        | inr stop ↦
            let same : p ≡ q =
              (let e =
                  if-false (ltb p.offset (length xs) && not p.saw_terminator) _ (ok p) h stop in
                ground arith) in
            let ended' : p.saw_terminator ≡ true = rw same ended in
            let over : (ltb p.offset (length (xs ++ ys)) && not p.saw_terminator) ≡ false =
              and_not (ltb p.offset (length (xs ++ ys))) p.saw_terminator ended' in
            rw over (ap (λ r. ok r) same)
      ]

second_seen : (a b : Bool) → (not a || not b) ≡ false → b ≡ true
second_seen a b h = ground arith

not_refused : (b : Bool) → not b ≡ false → b ≡ true
not_refused b h = ground arith

longer : (a b n : ℕ) → not (a == b) ≡ false → 0 < n → not (a == b + n) ≡ true
longer a b n h k = ground arith

has_prefix-append : (xs ys ps : List ℕ) → has_prefix xs ps ≡ true → has_prefix (xs ++ ys) ps ≡ true
has_prefix-append xs ys [] h = refl
has_prefix-append [] ys (p ∷ ps) h = ground arith
has_prefix-append (x ∷ xs) ys (p ∷ ps) h =
    let ih = has_prefix-append xs ys ps (ground arith) in ground arith

-- When the PNG scan accepts a file, it refuses every longer file that begins with it, with the error
-- for trailing content: nothing can be hidden after an image that passes.
pub scan_png-trailing :
    (crc : List ℕ → ℕ) (bytes more : List ℕ)
    → scan_png crc bytes ≡ ok tt
    → 0 < length more
    → scan_png crc (bytes ++ more) ≡ err trailing_content
unfolding scan_png
scan_png-trailing crc bytes more h0 some' =
    let (_, g0, h1) =
      >>=-eq-ok (refuse_if (not (has_prefix bytes png_signature)) not_an_image) _ h0 in
    let (p, g1, h2) = >>=-eq-ok (scan_chunks crc (suc (length bytes)) bytes start_of_chunks) _ h1 in
    let (_, g2, h3) =
      >>=-eq-ok (refuse_if (not p.saw_header || not p.saw_terminator) corrupt_container) _ h2 in
    let r0 : not (has_prefix (bytes ++ more) png_signature) ≡ false =
      (let b = refuse_if-eq-ok (not (has_prefix bytes png_signature)) not_an_image g0 in
        let c =
          has_prefix-append bytes more png_signature
            (not_refused (has_prefix bytes png_signature) b) in
        rw c refl) in
    let b2 = refuse_if-eq-ok (not p.saw_header || not p.saw_terminator) corrupt_container g2 in
    let b3 = refuse_if-eq-ok (not (p.offset == length bytes)) trailing_content h3 in
    let walk =
      scan_chunks-append crc bytes more (suc (length bytes)) (suc (length (bytes ++ more)))
        start_of_chunks p (omega (arith, length-append bytes more)) g1
        (second_seen p.saw_header p.saw_terminator b2) in
    rw
      (
        r0,
        walk,
        b2,
        length-append bytes more,
        longer p.offset (length bytes) (length more) b3 some',
      )
      refl
