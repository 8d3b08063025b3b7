-- ===== src/Common/Io.antt =====
-- The loops `safe_read` and `safe_write` of Part2/src/common/io.c, which repeat a system call
-- until all bytes are through. Fuel bounds the rounds.
pub mod Read
pub mod Write
pub mod Whole
pub mod Print
use so.Base.{
  ℕ, zero, suc, ◌+◌, ◌-◌, Option, none, some, List, [], ◌∷◌, ◌++◌, ◌==◌, if◌then◌else◌, length,
  drop,
}
use so.Base.Nodes.{Run, ok, out_of_fuel}
use so.Common.Kernel.{Reader, Writer}

module _ (k : Reader) where
  -- `done` is what the earlier rounds have put into the buffer.
  read_loop : ℕ → List ℕ → ℕ → k.Fd → Run (Option (List ℕ) × k.Fd)
  read_loop zero done nbytes fd = out_of_fuel
  read_loop (suc f) done nbytes fd =
      if nbytes == 0 then ok (some done, fd) else elim (k.read nbytes fd).0 [
        | none ↦ ok (none, (k.read nbytes fd).1)
        | some [] ↦ ok (some done, (k.read nbytes fd).1)
        | some (b ∷ bs) ↦
            read_loop f (done ++ b ∷ bs) (nbytes - length (b ∷ bs)) (k.read nbytes fd).1
      ]

  -- The bytes read, `none` for -1.
  unfoldable pub safe_read : ℕ → ℕ → k.Fd → Run (Option (List ℕ) × k.Fd)
  unfolding read_loop
  safe_read fuel nbytes fd = read_loop fuel [] nbytes fd

module _ (k : Writer) where
  write_loop : ℕ → ℕ → List ℕ → k.Fd → Run (Option ℕ × k.Fd)
  write_loop zero completed_bytes buf fd = out_of_fuel
  write_loop (suc f) completed_bytes buf fd =
      if length buf == 0 then ok (some completed_bytes, fd) else elim (k.write buf fd).0 [
        | none ↦ ok (none, (k.write buf fd).1)
        | some zero ↦ ok (some completed_bytes, (k.write buf fd).1)
        | some (suc n) ↦
            write_loop f (completed_bytes + suc n) (drop (suc n) buf) (k.write buf fd).1
      ]

  -- The number of bytes written, `none` for -1.
  unfoldable pub safe_write : ℕ → List ℕ → k.Fd → Run (Option ℕ × k.Fd)
  unfolding write_loop
  safe_write fuel buf fd = write_loop fuel 0 buf fd
