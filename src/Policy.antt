-- ===== src/Policy.antt =====
-- src/Policy.hpp and src/Policy.cpp: the limits of the platform, aspect ratios and titles.
pub mod Aspect
pub mod Title
use libcaffeine.Base.{
  ℕ, ◌+◌, ltb, if◌then◌else◌, Bool, true, false, Option, none, some, List, [], ◌++◌, length, take,
}
use libcaffeine.Base.{is_empty}
use libcaffeine.Base.Int.{ℤ, pos, ◌*ℤ◌, ltb_ℤ}
use libcaffeine.Base.Bytes.{Bytes, text}
use libcaffeine.Api.{CaffResult, success, aspect_too_narrow, aspect_too_wide}
use libcaffeine.Api.{Rating, rating_none, seventeen_plus}
use libcaffeine.Utils.{trim}

abbrev pub max_bits_per_second : ℕ
max_bits_per_second = 2000000

abbrev pub max_aspect_width : ℕ
max_aspect_width = 3

abbrev pub max_aspect_height : ℕ
max_aspect_height = 1

abbrev pub min_aspect_width : ℕ
min_aspect_width = 1

abbrev pub min_aspect_height : ℕ
min_aspect_height = 3

abbrev pub max_frame_height : ℕ
max_frame_height = 720

abbrev pub max_frame_width : ℕ
max_frame_width = 1280

abbrev pub min_frame_dimension : ℕ
min_frame_dimension = 360

abbrev pub max_fps : ℕ
max_fps = 30

abbrev pub channels : ℕ
channels = 2

abbrev pub sample_rate : ℕ
sample_rate = 48000

abbrev pub sample_size : ℕ
sample_size = 2

abbrev pub default_title : Bytes
default_title = text "LIVE on Caffeine!"

abbrev pub seventeen_plus_tag : Bytes
seventeen_plus_tag = text "[17+] "

abbrev pub max_title_length : ℕ
max_title_length = 255

-- The operands are int32 values widened to int64, so no product leaves the range.
is_ratio_less : ℤ → ℤ → ℤ → ℤ → Bool
is_ratio_less width1 height1 width2 height2 = ltb_ℤ (width1 *ℤ height2) (width2 *ℤ height1)

is_ratio_greater : ℤ → ℤ → ℤ → ℤ → Bool
is_ratio_greater width1 height1 width2 height2 = ltb_ℤ (width2 *ℤ height1) (width1 *ℤ height2)

unfoldable pub check_aspect_ratio : ℤ → ℤ → CaffResult
unfolding is_ratio_less is_ratio_greater ◌*ℤ◌
check_aspect_ratio width height =
    if is_ratio_greater width height (pos max_aspect_width) (pos max_aspect_height)
    then aspect_too_wide
    else if is_ratio_less width height (pos min_aspect_width) (pos min_aspect_height)
    then aspect_too_narrow
    else success

-- The title that is left after trimming, or the default.
or_default : Bytes → Bytes
or_default title = if is_empty title then default_title else title

add_tag : Rating → Bytes → Bytes
add_tag rating_none title = title
add_tag seventeen_plus title = seventeen_plus_tag ++ title

resize : Bytes → Bytes
resize title = if ltb max_title_length (length title) then take max_title_length title else title

annotated : Rating → Option Bytes → Option Bytes
unfolding or_default add_tag resize
annotated rating none = none
annotated rating (some title) = some (resize (add_tag rating (or_default title)))

-- `none` is undefined behaviour.
unfoldable pub annotate_title : Bytes → Rating → Option Bytes
unfolding annotated
annotate_title title rating = annotated rating (trim title)
