-- ===== src/Client/Api/Seats.antt =====
-- Reading an element of an array of `unsigned int` that holds given numbers.
use so.Base.{
  ℕ, zero, suc, ◌+◌, ◌*◌, ◌<◌, ◌≡◌, true, some, List, [], ◌∷◌, ◌++◌, refl, sym, ap, ◌∙◌, arith,
  length, length-append, leb, drop, get_elem?, uint_mod, subst,
}
use mathlib.Core.List.{append_assoc}
use so.Base.Nodes.{ok}
use so.Common.Bytes.{
  encode, decode, encode_all, AllBelow, encode_all-cons, length-encode, take-encode, drop-encode,
  decode-encode,
}
use so.Client.Api.{seat_at}

pub get_elem?-drop :
    (n : ℕ) (xs : List ℕ) (v : ℕ) (ys : List ℕ) → drop n xs ≡ v ∷ ys → get_elem? xs n ≡ some v
get_elem?-drop zero xs v ys e = ap (λ l. get_elem? l 0) e
get_elem?-drop (suc n) [] v ys e = cc
get_elem?-drop (suc n) (x ∷ xs) v ys e = get_elem?-drop n xs v ys e

pub drop_more :
    (n : ℕ) (xs : List ℕ) (v : ℕ) (ys : List ℕ) → drop n xs ≡ v ∷ ys → drop (suc n) xs ≡ ys
drop_more zero [] v ys e = cc
drop_more zero (x ∷ xs) v ys e = cc
drop_more (suc n) [] v ys e = cc
drop_more (suc n) (x ∷ xs) v ys e = drop_more n xs v ys e

drop_nil : (n : ℕ) → drop {A = ℕ} n [] ≡ []
drop_nil zero = refl
drop_nil (suc n) = refl

pub drop-drop : (n m : ℕ) (xs : List ℕ) → drop m (drop n xs) ≡ drop (n + m) xs
drop-drop zero m xs = let sum : m ≡ 0 + m = omega arith in ap (λ i. drop i xs) sum
drop-drop (suc n) m [] = drop_nil m ∙ sym (drop_nil (suc n + m))
drop-drop (suc n) m (x ∷ xs) =
    let sum : suc (n + m) ≡ suc n + m = omega arith in
    drop-drop n m xs ∙ ap (λ i. drop i (x ∷ xs)) sum

below : (m : ℕ) (xs : List ℕ) (i v : ℕ) → AllBelow m xs → get_elem? xs i ≡ some v → v < m
below m [] i v all e = cc
below m (x ∷ xs) zero v all e = let same : x ≡ v = cc in subst (λ n. n < m) same all.0
below m (x ∷ xs) (suc i) v all e = below m xs i v all.1 e

module _ (junk : List ℕ) where
  drop-seats :
      (seats : List ℕ) (i v : ℕ)
      → get_elem? seats i ≡ some v
      → (more : List ℕ) × (drop (4 * i) (encode_all 4 seats ++ junk) ≡ encode 4 v ++ more)
  drop-seats [] i v e = cc
  drop-seats (x ∷ xs) zero v e =
      let same : x ≡ v = cc in
      (
        encode_all 4 xs ++ junk,
        ap (λ l. l ++ junk) (encode_all-cons 4 x xs)
            ∙ append_assoc (encode 4 x) (encode_all 4 xs) junk
            ∙ ap (λ n. encode 4 n ++ (encode_all 4 xs ++ junk)) same,
      )
  drop-seats (x ∷ xs) (suc i) v e =
      let (more, found) = drop-seats xs i v e in
      let bytes = encode_all 4 xs ++ junk in
      let whole =
        ap (λ l. l ++ junk) (encode_all-cons 4 x xs)
        ∙ append_assoc (encode 4 x) (encode_all 4 xs) junk in
      let far : 4 * suc i ≡ 4 + 4 * i = omega arith in
      (
        more,
        ap (λ n. drop n (encode_all 4 (x ∷ xs) ++ junk)) far
            ∙ ap (λ l. drop (4 + 4 * i) l) whole
            ∙ sym (drop-drop 4 (4 * i) (encode 4 x ++ bytes))
            ∙ ap (drop (4 * i)) (drop-encode 4 x bytes)
            ∙ found,
      )

  pub seat_at_lem :
      (seats : List ℕ) (i v : ℕ)
      → AllBelow uint_mod seats
      → get_elem? seats i ≡ some v
      → seat_at (encode_all 4 seats ++ junk) i ≡ ok v
  seat_at_lem seats i v small e =
      let (more, found) = drop-seats seats i v e in
      let room : leb 4 (length (encode 4 v ++ more)) ≡ true =
        let size = length-append (encode 4 v) more in
        let four = length-encode 4 v in ground arith in
      let value =
        ap decode (take-encode 4 v more) ∙ decode-encode 4 v (below uint_mod seats i v small e) in
      rw (found, room, value) refl
