-- ===== src/Descriptor/Tests.antt =====
-- The alignment of offsets at some lengths.
use android_system_libfmq.Base.{◌≡◌, ◌^◌, ◌-◌, refl, none, some}
use android_system_libfmq.Descriptor.{align_to_word_boundary}

align_13 : align_to_word_boundary 13 ≡ some 16
unfolding align_to_word_boundary
align_13 = refl

align_too_long : align_to_word_boundary (2 ^ 64 - 7) ≡ none
unfolding align_to_word_boundary
align_too_long = refl
