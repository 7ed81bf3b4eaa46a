-- ===== src/Sentinels/Tests.antt =====
-- Runs of source/detect_sentinels.c.
use vapaa.Prelude.{◌≡◌, pos, eq_ℤ}
use vapaa.Sentinels.{bottom, in_place, initial, set_sentinel, is_sentinel, is_sentinel-after_set}

is_sentinel-after_set_example :
    (is_sentinel (set_sentinel in_place (pos 4096) initial) in_place (pos 8192)
      ≡ eq_ℤ (pos 8192) (pos 4096))
    × (is_sentinel (set_sentinel in_place (pos 4096) initial) bottom (pos 8192)
        ≡ is_sentinel initial bottom (pos 8192))
is_sentinel-after_set_example =
    is_sentinel-after_set in_place bottom (pos 4096) (pos 8192) initial (λ e. cc e)
