-- ===== src/Library/Allocator/Outcome.antt =====
-- What an allocation of sw/lib/pim_alloc.c without PIM_ALLOC_F_ZERO does to the pools and to the record
-- table, on every path.
use pim_sw.Common.{ℕ, ◌/◌, ◌≡◌, Bool, Option, none, some, List, length, mark, Fresh, u32, update}
use pim_sw.Library.Records.{Rec, rec_insert}
use pim_sw.Library.Pool.{Pool}
use pim_sw.Library.Pool.Supply.{Source, Lawful}
use pim_sw.Library.Pool.Slots.{Cut, Ok}
use pim_sw.Library.Pool.Run.{InSet}
use pim_sw.Library.Pool.Taken.{Taken, given}
use pim_sw.Library.Transfer.{Queues}
use pim_sw.Library.Allocator.{Context, Services, AllocReturn, allocated, entry_of}

module _ {St : Type 0} (D : ℕ → Source St) (m : ℕ) where
  -- The granules of region `m` that the pool has given out.
  abbrev pub out_of : Context St → ℕ → Bool
  out_of c = given (c.geom.mem m) (c.pool m)

  -- The allocation at `a` has the granules `out`, which were free and are now in use, and a record of
  -- the table; nothing else has come into use.
  pub record Entered (c c2 : Context St) (os : Services) (bytes a : ℕ) : Type 0 where
    pub out : List ℕ
    pub many : length out ≡ u32 (bytes / (c.geom.mem m).gran)
    pub fresh : Fresh out (out_of c)
    pub in_use : out_of c2 ≡ mark out (out_of c)
    pub entry :
        rec_insert os.no_table c.table (record {
          vbase = a;
          bytes = bytes;
          mem = m;
          nr_grans = u32 (bytes / (c.geom.mem m).gran);
          tag = 0;
          gran_addr = entry_of out;
        })
        ≡ some c2.table

  -- Nothing has changed that another call could see.
  pub record Unchanged (c c2 : Context St) : Type 0 where
    pub in_use : out_of c2 ≡ out_of c
    pub table : c2.table ≡ c.table

  -- What a call has done, by its result.
  abbrev pub Result : Context St → Services → ℕ → AllocReturn → Context St → Type 0
  Result c os bytes (allocated a) c2 = Entered c c2 os bytes a
  Result c os bytes why c2 = Unchanged c c2

  -- The record that `enter` makes.
  abbrev entry_for : Context St → ℕ → List ℕ → ℕ → Rec
  entry_for c bytes out a = record {
    vbase = a;
    bytes = bytes;
    mem = m;
    nr_grans = u32 (bytes / (c.geom.mem m).gran);
    tag = 0;
    gran_addr = entry_of out;
  }

  -- What `enter` has done: the record is there, or the granules are as before they were taken.
  abbrev Tried : Context St → Services → (ℕ → Bool) → ℕ → List ℕ → Option ℕ → Context St → Type 0
  Tried c os s bytes out none c2 = (out_of c2 ≡ s) × (c2.table ≡ c.table)
  Tried c os s bytes out (some a) c2 =
      (out_of c2 ≡ out_of c)
      × (rec_insert os.no_table c.table (entry_for c bytes out a) ≡ some c2.table)

  module _ (Q : Queues) (os : Services) (c : Context St) (law : Lawful (D m) (c.geom.mem m))
      (cut : Cut (c.geom.mem m)) (o : Ok (c.geom.mem m) (c.pool m).v (c.pool m).n)
      (k : InSet (c.pool m) (law.held c.driver)) where
    -- The context after the pool has been asked.
    abbrev asked : Pool → St → Context St
    asked q d = record c { pool = update c.pool m q; driver = d }
