-- ===== src/Common/Tests/Pipes.antt =====
-- Pipes whose kernel moves one byte in a round.
use so.Base.{
  ℕ, zero, suc, ◌≤◌, ◌<◌, ◌≡◌, ◌≢◌, Option, none, some, List, [], ◌∷◌, ◌++◌, refl, sym, arith,
  length, take, subst,
}
use mathlib.Core.List.{append-nil}
use so.Common.Kernel.{Reader, IsReader, Writer, IsWriter}
use so.Common.Io.Whole.{IsSource, IsSink}

-- One byte a round, of the bytes in the state.
abbrev pub read_one : ℕ → List ℕ → Option (List ℕ) × List ℕ
read_one n [] = (some [], [])
read_one zero (b ∷ bs) = (some [], b ∷ bs)
read_one (suc n) (b ∷ bs) = (some (b ∷ []), bs)

abbrev pub input : Reader
input = record { Fd = List ℕ; read = read_one }

pub input-got :
    (n : ℕ) (fd xs : List ℕ)
    → (read_one n fd).0 ≡ some xs
    → (fd ≡ xs ++ (read_one n fd).1) × (length xs ≤ n)
input-got n [] xs e =
    let same : [] ≡ xs = cc in subst (λ l. ([] ≡ l ++ []) × (length l ≤ n)) same (refl, omega arith)
input-got zero (b ∷ bs) xs e =
    let same : [] ≡ xs = cc in
    subst (λ l. (b ∷ bs ≡ l ++ b ∷ bs) × (length l ≤ 0)) same (refl, omega arith)
input-got (suc n) (b ∷ bs) xs e =
    let same : b ∷ [] ≡ xs = cc in
    subst (λ l. (b ∷ bs ≡ l ++ bs) × (length l ≤ suc n)) same (refl, omega arith)

pub input-at_end : (n : ℕ) (fd : List ℕ) → (read_one n fd).0 ≡ some [] → 0 < n → fd ≡ []
input-at_end n [] e h = refl
input-at_end zero (b ∷ bs) e h = absurd (omega arith)
input-at_end (suc n) (b ∷ bs) e h = cc

pub input-failed : (n : ℕ) (fd : List ℕ) → (read_one n fd).0 ≡ none → fd ≡ (read_one n fd).1
input-failed n [] e = cc
input-failed zero (b ∷ bs) e = cc
input-failed (suc n) (b ∷ bs) e = cc

abbrev pub input-IsReader : IsReader input
input-IsReader = record {
  left = λ fd. fd;
  got = input-got;
  at_end = input-at_end;
  failed = input-failed;
}

abbrev pub write_one : List ℕ → List ℕ → Option ℕ × List ℕ
write_one [] fd = (some 0, fd)
write_one (b ∷ bs) fd = (some 1, fd ++ b ∷ [])

abbrev pub output : Writer
output = record { Fd = List ℕ; write = write_one }

pub output-took :
    (bs fd : List ℕ) (n : ℕ)
    → (write_one bs fd).0 ≡ some n
    → (n ≤ length bs) × ((write_one bs fd).1 ≡ fd ++ take n bs)
output-took [] fd n e =
    let same : 0 ≡ n = cc in
    subst (λ m. (m ≤ 0) × (fd ≡ fd ++ take m [])) same (omega arith, sym (append-nil fd))
output-took (b ∷ bs) fd n e =
    let same : 1 ≡ n = cc in
    subst (λ m. (m ≤ length (b ∷ bs)) × (fd ++ b ∷ [] ≡ fd ++ take m (b ∷ bs))) same
      (omega arith, refl)

pub output-failed : (bs fd : List ℕ) → (write_one bs fd).0 ≡ none → (write_one bs fd).1 ≡ fd
output-failed [] fd e = cc
output-failed (b ∷ bs) fd e = cc

abbrev pub output-IsWriter : IsWriter output
output-IsWriter = record { sent = λ fd. fd; took = output-took; failed = output-failed }

pub input-works : (n : ℕ) (fd : List ℕ) → (read_one n fd).0 ≢ none
input-works n [] e = cc
input-works zero (b ∷ bs) e = cc
input-works (suc n) (b ∷ bs) e = cc

abbrev pub input-IsSource : IsSource input
input-IsSource = record { lawful = input-IsReader; works = input-works }

abbrev pub output-IsSink : IsSink output
output-IsSink = record { lawful = output-IsWriter; works = λ b bs fd. (0, refl) }
