-- ===== src/Library/Transfer/Tests.antt =====
-- A queue that moves at most 2000 bytes in a call, and one that fails at the second.
use pim_sw.Common.{ap, ℕ, ◌+◌, ◌^◌, ◌≤◌, ◌<◌, ◌≡◌, ◌≢◌, refl, some, [], ◌∷◌, All, arith, min}
use pim_sw.Library.Transfer.{
  to_dev, from_dev, other_dir, Queues, Returned, moved, Window, axi_move, memcpy, xfer, xfer_from,
  answered, amount, raw_ok, outside_window, is_to,
}
use pim_sw.Library.Transfer.Chunks.{Outcome, xfer-Outcome}
use pim_sw.Library.Transfer.Copy.{Copied, memcpy-Copied}
use pim_sw.Library.Transfer.Raw.{Stays, axi_move-Stays}
use pim_sw.Library.Resolve.Tests.{card, table, buffer, table-Ordered, buffer-Covers}

pub slow_within : (n k : ℕ) → ◌≡◌ {A = Returned} (moved (min n 2000)) (moved k) → k ≤ n
unfolding amount
slow_within n k e = omega (arith, ap amount e)

abbrev pub slow : Queues
slow = record {
  call = λ i d axi host n. moved (min n 2000);
  within_request = λ i d axi host n k e. slow_within n k e;
}

abbrev pub limits : Window
limits = record { max_xfer = 4096; raw_base = 0x4000; raw_bytes = 0x2000 }

limits_below : limits.raw_base + limits.raw_bytes < 2 ^ 64
limits_below = omega arith

-- 5000 bytes go in three calls.
in_three :
    (xfer slow 4096 0 to_dev 0x4000 0x70000 5000 0).0
    ≡ record { card = 0x4000; host = 0x70000; size = 2000 }
      ∷ record { card = 0x4000 + 2000; host = 0x70000 + 2000; size = 2000 }
      ∷ record { card = 0x4000 + 4000; host = 0x70000 + 4000; size = 1000 }
      ∷ []
unfolding xfer xfer_from answered amount
in_three = refl

xfer-Outcome_example :
    let (calls, j, bad) = xfer slow 4096 0 to_dev 0x4000 0x70000 5000 0 in
    Outcome 4096 0x4000 0x70000 5000 0 calls bad
xfer-Outcome_example =
    xfer-Outcome slow 4096 (omega arith) to_dev 0 0x4000 0x70000 5000 0 (omega arith)

memcpy-Copied_example :
    let res = memcpy slow limits card table 0x10003 0x70000 10000 to_dev 0 in
    Copied buffer 4096 3 0x70000 10000 res.0 res.1
unfolding is_to
memcpy-Copied_example =
    memcpy-Copied slow limits (omega arith) card table table-Ordered 0 (omega arith) buffer-Covers
      to_dev 0x10003 0x70000 10000 known (omega arith) (omega arith) (omega arith) (omega arith)
  where
    known : to_dev ≢ other_dir
    known e = cc

axi_move-Stays_example :
    All (Stays 0x4000 0x2000) (axi_move slow limits from_dev 0x4003 0x70000 5000).0
axi_move-Stays_example =
    axi_move-Stays slow limits (omega arith) limits_below from_dev 0x4003 0x70000 5000

-- A range that begins below the window, or ends above it, is refused.
refused :
    (raw_ok limits 0x3fff 4 ≡ some outside_window) × (raw_ok limits 0x5fff 2 ≡ some outside_window)
unfolding raw_ok
refused = (refl, refl)
