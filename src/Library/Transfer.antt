-- ===== src/Library/Transfer.antt =====
-- sw/lib/pim_memcpy.c: the transfers between host memory and the card. `pwrite` and `pread` are a
-- parameter: a function of the position in the file and of the bytes asked for. A pointer into host
-- memory is its address, and a transfer is the list of the calls that moved bytes.
pub mod Chunks
pub mod Copy
pub mod Effect
pub mod Raw
pub mod Tests
use pim_sw.Common.{
  ◌≡◌, ℕ, zero, suc, ◌+◌, ◌-◌, ◌≤◌, ◌<◌, Bool, true, false, ◌&&◌, ◌||◌, not, Option, none, some,
  List, [], ◌∷◌, ◌++◌, ltb, ◌==◌, if◌then◌else◌, add64, sub64,
}
use pim_sw.Library.Geometry.{Geometry}
use pim_sw.Library.Records.{Table}
use pim_sw.Library.Resolve.{Resolved, null_argument, not_inside, too_long, found, resolve}

-- `pim_dir`, and any other number.
pub data Dir : Type 0 where
  to_dev from_dev other_dir : Dir

-- What a system call returns: -1, or a number of bytes.
pub data Returned : Type 0 where
  error : Returned
  moved : ℕ → Returned

-- `pwrite` and `pread`, by the direction: the position in the file, which is the address on the
-- card, the address in host memory and the number of bytes. The number of the call comes first,
-- since the queue answers each call as it likes; a call moves at most what it is asked for.
pub record Queues : Type 0 where
  pub call : ℕ → Dir → ℕ → ℕ → ℕ → Returned
  pub within_request : (i : ℕ) (d : Dir) (axi host n k : ℕ) → call i d axi host n ≡ moved k → k ≤ n

-- A call that moved bytes.
pub record Chunk : Type 0 where
  pub card : ℕ
  pub host : ℕ
  pub size : ℕ

-- The messages.
pub data Bad : Type 0 where
  failed_at stuck_at : (axi offset : ℕ) → Bad
  no_context null_pointer flags_set bad_dir : Bad
  unresolved : Resolved → Bad
  no_window outside_window : Bad

-- The fields of `pim_ctx` that a transfer reads, beside the geometry and the records.
pub record Window : Type 0 where
  pub max_xfer : ℕ
  pub raw_base : ℕ
  pub raw_bytes : ℕ

-- The address and the length of a run, where there is one.
pub axi_of : Resolved → ℕ
axi_of (found mem axi off run) = axi
axi_of r = 0

pub run_of : Resolved → ℕ
run_of (found mem axi off run) = run
run_of r = 0

-- What a round of `pim_memcpy_ctx` makes of its two calls, where the loop goes on with `rest`.
pub copied :
    Resolved → List Chunk × ℕ × Option Bad → List Chunk × Option Bad → List Chunk × Option Bad
copied (found mem axi off run) (calls, j, some b) rest = (calls, some b)
copied (found mem axi off run) (calls, j, none) (more, bad) = (calls ++ more, bad)
copied r now rest = ([], some (unresolved r))

pub amount : Returned → ℕ
amount error = 0
amount (moved m) = m

-- What a round of `xfer` makes of the answer to call `i`, where the loop goes on with `rest`: the
-- calls that moved bytes, the number of calls, and the message.
pub answered : Returned → ℕ → ℕ → ℕ → ℕ → List Chunk × ℕ × Option Bad → List Chunk × ℕ × Option Bad
answered error i axi host at rest = ([], i + 1, some (failed_at axi at))
answered (moved m) i axi host at (calls, j, bad) =
    if m == 0
    then ([], i + 1, some (stuck_at axi at))
    else (record { card = axi; host = host; size = m } ∷ calls, j, bad)

pub is_other : Dir → Bool
is_other other_dir = true
is_other d = false

pub is_to : Dir → Bool
is_to to_dev = true
is_to d = false

-- `raw_ok`: nothing where it returns NULL.
pub raw_ok : Window → ℕ → ℕ → Option Bad
raw_ok w axi n =
    if w.raw_bytes == 0
    then some no_window
    else if ltb axi w.raw_base
        || ltb w.raw_bytes (axi - w.raw_base)
        || ltb (w.raw_bytes - (axi - w.raw_base)) n
    then some outside_window
    else none

module _ (Q : Queues) where
  open Q use {call}

  -- The loop of `xfer` with `fuel` rounds left, from the `i`-th call on.
  pub xfer_from : ℕ → ℕ → ℕ → Dir → ℕ → ℕ → ℕ → ℕ → List Chunk × ℕ × Option Bad
  unfolding answered amount
  xfer_from zero max_xfer i dir axi host n at = ([], i, none)
  xfer_from (suc fuel) max_xfer i dir axi host n at =
      let answer = call i dir axi host (if ltb max_xfer n then max_xfer else n) in
      let k = amount answer in
      let rest = xfer_from fuel max_xfer (i + 1) dir (add64 axi k) (host + k) (n - k) (at + k) in
      if n == 0 then ([], i, none) else answered answer i axi host at rest

  -- Each round but the last moves at least one byte.
  pub xfer : ℕ → ℕ → Dir → ℕ → ℕ → ℕ → ℕ → List Chunk × ℕ × Option Bad
  unfolding xfer_from
  xfer max_xfer i dir axi host n at = xfer_from (suc n) max_xfer i dir axi host n at

  -- The loop of `pim_memcpy_ctx` with `fuel` rounds left, `done` bytes of `n` being moved.
  pub copy_from : ℕ → Window → Geometry → Table → ℕ → Dir → ℕ → ℕ → ℕ → ℕ → List Chunk × Option Bad
  unfolding xfer axi_of run_of copied
  copy_from zero w g t i dir card host done n = ([], none)
  copy_from (suc fuel) w g t i dir card host done n =
      let at = resolve g t (add64 card done) (n - done) in
      let run = run_of at in
      let now = xfer w.max_xfer i dir (axi_of at) (host + done) run done in
      let rest = copy_from fuel w g t now.1 dir card host (done + run) n in
      if not (ltb done n) then ([], none) else copied at now rest

  -- `pim_memcpy_ctx` on a context that is there.
  pub memcpy : Window → Geometry → Table → ℕ → ℕ → ℕ → Dir → ℕ → List Chunk × Option Bad
  unfolding copy_from is_other is_to
  memcpy w g t dst src n dir flags =
      if dst == 0 || src == 0
      then ([], some null_pointer)
      else if not (flags == 0)
      then ([], some flags_set)
      else if is_other dir
      then ([], some bad_dir)
      else if n == 0
      then ([], none)
      else copy_from (suc n) w g t 0 dir (if is_to dir then dst else src)
          (if is_to dir then src else dst) 0 n

  -- `pim_axi_write_ctx` and `pim_axi_read_ctx`, by the direction.
  pub axi_move : Window → Dir → ℕ → ℕ → ℕ → List Chunk × Option Bad
  unfolding raw_ok xfer
  axi_move w dir axi host n =
      let (calls, j, bad) = xfer w.max_xfer 0 dir axi host n 0 in
      if host == 0
      then ([], some null_pointer)
      else if n == 0
      then ([], none)
      else elim (raw_ok w axi n) [ some b ↦ ([], some b) | none ↦ (calls, bad) ]

-- `pim_axi_allow_ctx` on a context that is there.
pub axi_allow : Window → ℕ → ℕ → Window
axi_allow w base bytes = record w { raw_base = base; raw_bytes = bytes }
