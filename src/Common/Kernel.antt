-- ===== src/Common/Kernel.antt =====
-- The system calls read(2) and write(2), which the program calls and does not implement, with
-- what their documentation promises. A state of type `Fd` is an open file descriptor together
-- with everything at its other end.
use so.Base.{ℕ, ◌≤◌, ◌<◌, ◌≡◌, Option, none, some, List, [], ◌++◌, length, take, drop}

-- `read(fd, buf, n)`: the bytes that are read, none of them at the end of the input; `none` is -1.
pub record Reader : Type 1 where
  pub Fd : Type 0
  pub read : ℕ → Fd → Option (List ℕ) × Fd

-- `left` are the bytes that are still to come before the end of the input.
pub record IsReader (k : Reader) : Type 0 where
  pub left : k.Fd → List ℕ
  pub got :
      (n : ℕ) (fd : k.Fd) (xs : List ℕ)
      → (k.read n fd).0 ≡ some xs
      → (left fd ≡ xs ++ left (k.read n fd).1) × (length xs ≤ n)
  pub at_end : (n : ℕ) (fd : k.Fd) → (k.read n fd).0 ≡ some [] → 0 < n → left fd ≡ []
  pub failed : (n : ℕ) (fd : k.Fd) → (k.read n fd).0 ≡ none → left fd ≡ left (k.read n fd).1

-- `write(fd, buf, n)` of the bytes in buf: how many were taken; `none` is -1.
pub record Writer : Type 1 where
  pub Fd : Type 0
  pub write : List ℕ → Fd → Option ℕ × Fd

-- `sent` are the bytes that the file descriptor has taken so far.
pub record IsWriter (k : Writer) : Type 0 where
  pub sent : k.Fd → List ℕ
  pub took :
      (bs : List ℕ) (fd : k.Fd) (n : ℕ)
      → (k.write bs fd).0 ≡ some n
      → (n ≤ length bs) × (sent (k.write bs fd).1 ≡ sent fd ++ take n bs)
  pub failed :
      (bs : List ℕ) (fd : k.Fd) → (k.write bs fd).0 ≡ none → sent (k.write bs fd).1 ≡ sent fd

-- A regular file: a read gives as many bytes as are asked for, or all that are left.
pub record IsFile (k : Reader) : Type 0 where
  pub left : k.Fd → List ℕ
  pub got : (n : ℕ) (fd : k.Fd) → (k.read n fd).0 ≡ some (take n (left fd))
  pub rest : (n : ℕ) (fd : k.Fd) → left (k.read n fd).1 ≡ drop n (left fd)
