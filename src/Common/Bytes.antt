-- ===== src/Common/Bytes.antt =====
-- Numbers in memory and on the pipes: unsigned integers of a fixed number of bytes, the lowest byte
-- first, as `safe_write(fd, &x, sizeof(x))` sends them on the machines that the programs run on.
use so.Base.{
  ℕ, zero, suc, ◌+◌, ◌*◌, ◌/◌, ◌%◌, ◌<◌, ◌≡◌, List, [], ◌∷◌, ◌++◌, arith, refl, sym, ap, ◌∙◌,
  length, length-append, take, drop, leb, if◌then◌else◌,
}
use mathlib.Core.List.{append_assoc}
use so.Base.Nodes.{Run, ok, fault}

unfoldable pub encode : ℕ → ℕ → List ℕ
encode zero v = []
encode (suc n) v = (v % 256) ∷ encode n (v / 256)

unfoldable pub decode : List ℕ → ℕ
decode [] = 0
decode (b ∷ bs) = b + 256 * decode bs

-- One more than the largest number of `n` bytes.
abbrev pub bytes_mod : ℕ → ℕ
bytes_mod zero = 1
bytes_mod (suc n) = 256 * bytes_mod n

pub length-encode : (n v : ℕ) → length (encode n v) ≡ n
unfolding encode
length-encode zero v = refl
length-encode (suc n) v = ap suc (length-encode n (v / 256))

pub decode-encode : (n v : ℕ) → v < bytes_mod n → decode (encode n v) ≡ v
unfolding encode decode
decode-encode zero v h = omega arith
decode-encode (suc n) v h = omega (arith, decode-encode n (v / 256) (omega arith))

-- An array of numbers of `size` bytes.
unfoldable pub encode_all : ℕ → List ℕ → List ℕ
unfolding encode
encode_all size [] = []
encode_all size (v ∷ vs) = encode size v ++ encode_all size vs

-- The first `n` numbers of `size` bytes in memory.
unfoldable pub decode_all : ℕ → ℕ → List ℕ → List ℕ
unfolding decode
decode_all size zero bs = []
decode_all size (suc n) bs = decode (take size bs) ∷ decode_all size n (drop size bs)

pub encode_all-nil : (size : ℕ) → encode_all size [] ≡ []
unfolding encode_all
encode_all-nil size = refl

pub encode_all-cons :
    (size v : ℕ) (vs : List ℕ) → encode_all size (v ∷ vs) ≡ encode size v ++ encode_all size vs
unfolding encode_all
encode_all-cons size v vs = refl

pub length-encode_all : (size : ℕ) (vs : List ℕ) → length (encode_all size vs) ≡ length vs * size
unfolding encode_all
length-encode_all size [] = omega arith
length-encode_all size (v ∷ vs) =
    let first = length-append (encode size v) (encode_all size vs) in
    grind (arith, first, length-encode size v, length-encode_all size vs)

abbrev pub AllBelow : ℕ → List ℕ → Type 0
AllBelow m [] = Unit {0}
AllBelow m (v ∷ vs) = (v < m) × AllBelow m vs

pub take-append : (xs ys : List ℕ) → take (length xs) (xs ++ ys) ≡ xs
take-append [] ys = refl
take-append (x ∷ xs) ys = ap (λ l. x ∷ l) (take-append xs ys)

pub drop-append : (xs ys : List ℕ) → drop (length xs) (xs ++ ys) ≡ ys
drop-append [] ys = refl
drop-append (x ∷ xs) ys = drop-append xs ys

module _ (size v : ℕ) (rest : List ℕ) where
  pub take-encode : take size (encode size v ++ rest) ≡ encode size v
  take-encode =
      ap (λ n. take n (encode size v ++ rest)) (sym (length-encode size v))
      ∙ take-append (encode size v) rest

  pub drop-encode : drop size (encode size v ++ rest) ≡ rest
  drop-encode =
      ap (λ n. drop n (encode size v ++ rest)) (sym (length-encode size v))
      ∙ drop-append (encode size v) rest

pub decode_all-encode_all :
    (size : ℕ) (vs rest : List ℕ)
    → AllBelow (bytes_mod size) vs
    → decode_all size (length vs) (encode_all size vs ++ rest) ≡ vs
unfolding decode_all encode_all
decode_all-encode_all size [] rest small = refl
decode_all-encode_all size (v ∷ vs) rest small =
    rw (append_assoc, take-encode, drop-encode, decode-encode size v small.0)
      (ap (λ l. v ∷ l) (decode_all-encode_all size vs rest small.1))

-- The first `n` bytes of an object in memory; a read past its end is a fault.
abbrev pub memory : ℕ → List ℕ → Run (List ℕ)
memory n bytes = if leb n (length bytes) then ok (take n bytes) else fault

-- What an object holds after bytes were read to its start.
abbrev pub overwrite : List ℕ → List ℕ → List ℕ
overwrite bytes old = bytes ++ drop (length bytes) old
