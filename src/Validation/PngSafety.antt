-- ===== src/Validation/PngSafety.antt =====
-- The PNG scan is total.
use seta_im_intern.Prelude.{
  ℕ, zero, suc, ◌+◌, ◌-◌, ◌≤◌, ◌<◌, ◌≡◌, refl, ap, false, not, ◌&&◌, ◌||◌, List, [], ◌∷◌, ltb, leb,
  ◌==◌, length, take, drop, length-drop, err, refuse_if, arith, same_bytes,
}
use seta_im_intern.Validation.Bytes.{
  ScanError, is_defect, IsSafe, returns, refuses, IsSafe-bind, IsSafe-if, IsSafe-weaken, IsSafe-err,
  IsSafe-refuse_if, slice, has_prefix, corrupt_container, unsupported_feature,
}
use seta_im_intern.Validation.Png.{
  png_signature, ihdr, iend, is_animation, uint32, Progress, start_of_chunks, see_chunk, scan_chunk,
  scan_chunks, scan_png,
}

length-take : (n : ℕ) (xs : List ℕ) → n ≤ length xs → length (take n xs) ≡ n
length-take zero xs h = refl
length-take (suc n) [] h = ground arith
length-take (suc n) (x ∷ xs) h = ap suc (length-take n xs (omega arith))

IsSafe-slice :
    (bytes : List ℕ) (low high : ℕ)
    → low ≤ high
    → high ≤ length bytes
    → IsSafe (λ s. length s ≡ high - low) (slice bytes low high)
IsSafe-slice bytes low high h k =
    IsSafe-if (leb low high && leb high (length bytes)) _ _
      (λ _.
        returns _
          (length-take (high - low) (drop low bytes) (omega (arith, length-drop low bytes))))
      (λ no. ground arith)

IsSafe-uint32 : (s : List ℕ) → length s ≡ 4 → IsSafe (λ _. Unit {0}) (uint32 s)
IsSafe-uint32 (a ∷ b ∷ c ∷ d ∷ rest) h = returns _ tt
IsSafe-uint32 [] h = ground arith
IsSafe-uint32 (a ∷ []) h = ground arith
IsSafe-uint32 (a ∷ b ∷ []) h = ground arith
IsSafe-uint32 (a ∷ b ∷ c ∷ []) h = ground arith

IsSafe-see_chunk : (t : List ℕ) (p : Progress) → IsSafe (λ _. Unit {0}) (see_chunk t p)
unfolding see_chunk
IsSafe-see_chunk t p =
    IsSafe-if (same_bytes t ihdr) _ _
      (λ _.
        IsSafe-if (p.saw_header || not (p.offset == length png_signature)) _ _
          (λ _. refuses corrupt_container refl) (λ _. returns _ tt))
      (λ _.
        IsSafe-if (is_animation t) _ _ (λ _. refuses unsupported_feature refl)
          (λ _.
            IsSafe-if (same_bytes t iend) _ _ (λ _. returns _ tt)
              (λ _.
                IsSafe-if (not p.saw_header) _ _ (λ _. refuses corrupt_container refl)
                  (λ _. returns p tt))))

module _ (crc : List ℕ → ℕ) (bytes : List ℕ) where
  IsSafe-scan_chunk :
      (p : Progress)
      → IsSafe
          (λ q. (p.offset + 12 ≤ q.offset) × (q.offset ≤ length bytes))
          (scan_chunk crc bytes p)
  unfolding scan_chunk
  IsSafe-scan_chunk p =
      IsSafe-bind (refuse_if (ltb (length bytes - p.offset) 8) _) _ (IsSafe-refuse_if _ _ refl)
        (λ _ header.
          IsSafe-bind (slice bytes p.offset (p.offset + 4)) _
            (IsSafe-slice bytes p.offset (p.offset + 4) (omega arith) (ground arith))
            (λ size_bytes four.
              IsSafe-bind (uint32 size_bytes) _ (IsSafe-uint32 size_bytes (omega (arith, four)))
                (λ declared _.
                  IsSafe-bind (refuse_if (ltb (length bytes - p.offset) declared) _) _
                    (IsSafe-refuse_if _ _ refl)
                    (λ _ _.
                      IsSafe-bind (slice bytes (p.offset + 4) (p.offset + 8)) _
                        (IsSafe-slice bytes (p.offset + 4) (p.offset + 8) (omega arith)
                          (ground arith))
                        (λ chunk_type _.
                          IsSafe-bind
                            (refuse_if (ltb (length bytes) (p.offset + 8 + declared + 4)) _) _
                            (IsSafe-refuse_if _ _ refl)
                            (λ _ inside.
                              IsSafe-bind (slice bytes (p.offset + 4) (p.offset + 8 + declared)) _
                                (IsSafe-slice bytes (p.offset + 4) (p.offset + 8 + declared)
                                  (omega arith) (ground arith))
                                (λ covered _.
                                  IsSafe-bind
                                    (slice bytes (p.offset + 8 + declared)
                                      (p.offset + 8 + declared + 4))
                                    _
                                    (IsSafe-slice bytes (p.offset + 8 + declared)
                                      (p.offset + 8 + declared + 4) (omega arith) (ground arith))
                                    (λ crc_bytes four'.
                                      IsSafe-bind (uint32 crc_bytes) _
                                        (IsSafe-uint32 crc_bytes (omega (arith, four')))
                                        (λ stored _.
                                          IsSafe-bind (refuse_if (not (crc covered == stored)) _) _
                                            (IsSafe-refuse_if _ _ refl)
                                            (λ _ _.
                                              IsSafe-bind (see_chunk chunk_type p) _
                                                (IsSafe-see_chunk chunk_type p)
                                                (λ seen _.
                                                  returns _ (omega arith, ground arith))))))))))))

  IsSafe-scan_chunks :
      (fuel : ℕ) (p : Progress)
      → length bytes - p.offset < fuel
      → IsSafe (λ _. Unit {0}) (scan_chunks crc fuel bytes p)
  unfolding scan_chunks
  IsSafe-scan_chunks zero p enough = ground arith
  IsSafe-scan_chunks (suc fuel) p enough =
      IsSafe-if (ltb p.offset (length bytes) && not p.saw_terminator) _ _
        (λ more.
          IsSafe-bind (scan_chunk crc bytes p) _ (IsSafe-scan_chunk p)
            (λ q h. IsSafe-scan_chunks fuel q (omega (arith, h.0, h.1))))
        (λ _. returns p tt)

  IsSafe-scan_png : IsSafe (λ _. Unit {0}) (scan_png crc bytes)
  unfolding scan_png
  IsSafe-scan_png =
      IsSafe-bind (refuse_if (not (has_prefix bytes png_signature)) _) _ (IsSafe-refuse_if _ _ refl)
        (λ _ _.
          IsSafe-bind (scan_chunks crc (suc (length bytes)) bytes start_of_chunks) _
            (IsSafe-scan_chunks (suc (length bytes)) start_of_chunks (omega arith))
            (λ p _.
              IsSafe-bind (refuse_if (not p.saw_header || not p.saw_terminator) _) _
                (IsSafe-refuse_if _ _ refl)
                (λ _ _.
                  IsSafe-weaken (IsSafe-refuse_if (not (p.offset == length bytes)) _ refl)
                    (λ _ _. tt))))

-- On every file, and with every checksum function, the PNG scan ends with an answer or with one of
-- the package's errors: no slice is out of range, and its loop ends within the file's length.
pub scan_png-total :
    (crc : List ℕ → ℕ) (bytes : List ℕ) (e : ScanError)
    → scan_png crc bytes ≡ err e
    → is_defect e ≡ false
scan_png-total crc bytes e h = IsSafe-err (IsSafe-scan_png crc bytes) e h
