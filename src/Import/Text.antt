-- ===== src/Import/Text.antt =====
-- Texts as lists of runes: TrimSpace and the tests of the import on them.
use Prim.Native.Char.{code}
use Prim.Native.String.{String}
use seta_im_intern.Prelude.{
  ℕ, Bool, true, false, ◌||◌, ◌&&◌, Option, none, some, List, [], ◌∷◌, ltb, leb, length, ◌==◌,
  if◌then◌else◌, same_bytes,
}
use seta_im_intern.Import.Dataset.{Text}
use mathlib.Core.List.{reverse}

abbrev codes : String → Text
codes String.[] = []
codes (String.◌∷◌ c s) = code c ∷ codes s

-- unicode.IsSpace
abbrev pub is_space : ℕ → Bool
is_space r =
    (leb 9 r && leb r 13)
    || (r == 32
        || (r == 133
            || (r == 160
                || (r == 5760
                    || ((leb 8192 r && leb r 8202)
                        || (r == 8232
                            || (r == 8233 || (r == 8239 || (r == 8287 || r == 12288)))))))))

unfoldable pub trim_left : Text → Text
trim_left [] = []
trim_left (r ∷ rs) = if is_space r then trim_left rs else r ∷ rs

unfoldable pub trim_space : Text → Text
unfolding trim_left
trim_space text = reverse (trim_left (reverse (trim_left text)))

abbrev pub is_blank : Text → Bool
is_blank [] = true
is_blank (r ∷ rs) = false

unfoldable pub has_text : List Text → Text → Bool
has_text [] text = false
has_text (t ∷ ts) text = same_bytes t text || has_text ts text

abbrev pub open_images_v7 : Text
open_images_v7 = codes "open_images_v7"

abbrev pub kaggle_open_images : Text
kaggle_open_images = codes "kaggle_open_images"

-- `allowedExternalSources`
unfoldable pub is_allowed_source : Text → Bool
is_allowed_source source = same_bytes open_images_v7 source || same_bytes kaggle_open_images source

abbrev pub empty_object : Text
empty_object = codes "{}"

abbrev pub null : Text
null = codes "null"

unfoldable pub exceeds_rune_limit : Option Text → ℕ → Bool
exceeds_rune_limit none limit = false
exceeds_rune_limit (some text) limit = ltb limit (length text)
