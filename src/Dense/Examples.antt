-- ===== src/Dense/Examples.antt =====
-- Ranges out of order, two of them overlapping.
use meitte.Base.{◌≡◌, List, [], ◌∷◌, not, arith}
use meitte.Dense.{Range, byte_ranges}
use meitte.Dense.Ranges.{covered, byte_ranges-covered}

abbrev experts : List Range
experts = (40, 60) ∷ (10, 20) ∷ (50, 70) ∷ []

byte_ranges-covered_example : covered 30 (byte_ranges experts 100) ≡ not (covered 30 experts)
byte_ranges-covered_example = byte_ranges-covered experts 100 30 (omega arith)
