-- ===== src/Validation.antt =====
-- services/asset-core/internal/media/validation: the inspection of an uploaded file's bytes before
-- any decoder reads them.
pub mod Bytes
pub mod Jpeg
pub mod JpegSafety
pub mod Png
pub mod PngSafety
pub mod PngTrailing
pub mod JpegTrailing
pub mod Admission
pub mod AdmissionBounds
