-- ===== src/Alloc/Examples.antt =====
-- Alignment at concrete addresses.
use nocciolo.Base.{◌≡◌, refl, ok}
use nocciolo.Alloc.Align.{align_up}

align_up_run : align_up 0x1001 0x1000 ≡ ok 0x2000
unfolding align_up
align_up_run = refl
