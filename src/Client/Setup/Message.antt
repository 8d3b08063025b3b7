-- ===== src/Client/Setup/Message.antt =====
-- The setup message of a client, and what the server of Part 2 makes of it.
use so.Base.{
  ℕ, zero, suc, ◌+◌, ◌-◌, ◌<◌, ◌≡◌, ◌≢◌, true, List, [], ◌∷◌, ◌++◌, refl, sym, ap, ◌∙◌, arith,
  length, length-append, take, drop, replicate, ◌==◌, if◌then◌else◌, leb, length-replicate,
  ==-false, if-true,
}
use mathlib.Core.List.{append_assoc}
use so.Base.Nodes.{ok, ◌>>=◌}
use so.Common.Bytes.{take-append}
use so.Server.Queue.Shape.{connection_of}
use so.Server.Register.Setup.{IsSetup}
use so.Client.Setup.{setup_message, strcpy}

abbrev pub NonZero : List ℕ → Type 0
NonZero [] = Unit {0}
NonZero (b ∷ bs) = (b ≢ 0) × NonZero bs

-- The path that the bytes of an array stand for.
abbrev pub c_string : List ℕ → List ℕ
c_string [] = []
c_string (b ∷ bs) = if b == 0 then [] else b ∷ c_string bs

-- A path with its 0 fits into 40 bytes.
pub record IsPath (path : List ℕ) : Type 0 where
  pub short : length path < 40
  pub bytes : NonZero path

pub c_string_lem : (path rest : List ℕ) → NonZero path → c_string (path ++ 0 ∷ rest) ≡ path
c_string_lem [] rest h = refl
c_string_lem (b ∷ bs) rest h = rw (==-false b 0 h.0) (ap (λ l. b ∷ l) (c_string_lem bs rest h.1))

-- What a path fills its array with.
abbrev pub padded : ℕ → List ℕ → List ℕ
padded n path = path ++ 0 ∷ replicate (n - length path - 1) 0

length-padded : (n : ℕ) (path : List ℕ) → length path < n → length (padded n path) ≡ n
length-padded n path h =
    length-append path (0 ∷ replicate (n - length path - 1) 0)
    ∙ omega (arith, length-replicate {A = ℕ} (n - length path - 1) 0)

drop-replicate : (n m : ℕ) → drop n (replicate {A = ℕ} m 0) ≡ replicate (m - n) 0
drop-replicate zero m = let same : m ≡ m - 0 = omega arith in ap (λ i. replicate i 0) same
drop-replicate (suc n) zero = let none : 0 ≡ 0 - suc n = omega arith in ap (λ i. replicate i 0) none
drop-replicate (suc n) (suc m) =
    let same : m - n ≡ suc m - suc n = omega arith in
    drop-replicate n m ∙ ap (λ i. replicate i 0) same

replicate-add : (n m : ℕ) → replicate {A = ℕ} (n + m) 0 ≡ replicate n 0 ++ replicate m 0
replicate-add zero m = let same : 0 + m ≡ m = omega arith in ap (λ i. replicate i 0) same
replicate-add (suc n) m =
    let same : suc n + m ≡ suc (n + m) = omega arith in
    ap (λ i. replicate i 0) same ∙ ap (λ l. 0 ∷ l) (replicate-add n m)

drop-append : (xs ys : List ℕ) (n m : ℕ) → n ≡ length xs + m → drop n (xs ++ ys) ≡ drop m ys
drop-append [] ys n m e = let same : n ≡ m = omega arith in ap (λ i. drop i ys) same
drop-append (x ∷ xs) ys zero m e = absurd (omega arith)
drop-append (x ∷ xs) ys (suc n) m e = drop-append xs ys n m (omega arith)

take_exact : (xs ys : List ℕ) (n : ℕ) → n ≡ length xs → take n (xs ++ ys) ≡ xs
take_exact xs ys n e = ap (λ i. take i (xs ++ ys)) e ∙ take-append xs ys

-- strcpy to where the array holds zeros up to its end.
strcpy_lem :
    (before path : List ℕ) (offset n : ℕ)
    → offset ≡ length before
    → length path < n
    → strcpy offset path (before ++ replicate n 0) ≡ ok (before ++ padded n path)
strcpy_lem before path offset n at fits =
    let buf = before ++ replicate n 0 in
    let whole = path ++ 0 ∷ [] in
    let size = length-append path (0 ∷ []) in
    let total = length-append before (replicate n 0) in
    let zeros = length-replicate {A = ℕ} n 0 in
    let room : leb (offset + length whole) (length buf) ≡ true =
      ground (arith, size, total, zeros) in
    let left_over : n - length whole ≡ n - length path - 1 = omega (arith, size) in
    let behind : drop (offset + length whole) buf ≡ replicate (n - length path - 1) 0 =
      drop-append before (replicate n 0) (offset + length whole) (length whole) (omega arith)
      ∙ drop-replicate (length whole) n
      ∙ ap (λ i. replicate i 0) left_over in
    if-true _ _ room
    ∙ (λ i. ok (take_exact before (replicate n 0) offset at i ++ (whole ++ behind i)))
    ∙ ap (λ l. ok (before ++ l)) (append_assoc path (0 ∷ []) (replicate (n - length path - 1) 0))

module _ (req resp : List ℕ) (req-IsPath : IsPath req) (resp-IsPath : IsPath resp) where
  abbrev pub message : List ℕ
  message = 1 ∷ (padded 40 req ++ padded 41 resp)

  longer : padded 81 req ≡ padded 40 req ++ replicate 41 0
  longer =
      let more : 81 - length req - 1 ≡ (40 - length req - 1) + 41 =
        omega (arith, req-IsPath.short) in
      ap (λ n. req ++ 0 ∷ replicate n 0) more
      ∙ ap (λ l. req ++ 0 ∷ l) (replicate-add (40 - length req - 1) 41)
      ∙ sym (append_assoc req (0 ∷ replicate (40 - length req - 1) 0) (replicate 41 0))

  first_path : strcpy 1 req (1 ∷ replicate 81 0) ≡ ok ((1 ∷ padded 40 req) ++ replicate 41 0)
  first_path =
      strcpy_lem (1 ∷ []) req 1 81 refl (omega (arith, req-IsPath.short))
      ∙ ap (λ l. ok (1 ∷ l)) longer

  second_path : strcpy 41 resp ((1 ∷ padded 40 req) ++ replicate 41 0) ≡ ok message
  second_path =
      strcpy_lem (1 ∷ padded 40 req) resp 41 41
        (omega (arith, length-padded 40 req req-IsPath.short)) (omega (arith, resp-IsPath.short))

  pub setup_message_lem : setup_message req resp ≡ ok message
  unfolding setup_message
  setup_message_lem = ap (λ r. r >>= (λ l. strcpy 41 resp l)) first_path ∙ second_path

  pub message-IsSetup : IsSetup message
  message-IsSetup = record {
    size =
        ap suc (length-append (padded 40 req) (padded 41 resp))
        ∙ omega (
          arith,
          length-padded 40 req req-IsPath.short,
          length-padded 41 resp (omega (arith, resp-IsPath.short)),
        );
    op = refl;
  }

  -- The server finds the client's paths in it.
  pub connection_of-message :
      (c_string (connection_of message).req_pipe_path ≡ req)
      × (c_string (connection_of message).resp_pipe_path ≡ resp)
  connection_of-message =
      let forty = length-padded 40 req req-IsPath.short in
      let req_part : take 40 (padded 40 req ++ padded 41 resp) ≡ padded 40 req =
        take_exact (padded 40 req) (padded 41 resp) 40 (sym forty) in
      let behind : drop 40 (padded 40 req ++ padded 41 resp) ≡ padded 41 resp =
        drop-append (padded 40 req) (padded 41 resp) 40 0 (omega (arith, forty)) in
      let one_less : 41 - length resp - 1 ≡ (40 - length resp - 1) + 1 =
        omega (arith, resp-IsPath.short) in
      let shorter : padded 41 resp ≡ padded 40 resp ++ 0 ∷ [] =
        ap (λ n. resp ++ 0 ∷ replicate n 0) one_less
        ∙ ap (λ l. resp ++ 0 ∷ l) (replicate-add (40 - length resp - 1) 1)
        ∙ sym (append_assoc resp (0 ∷ replicate (40 - length resp - 1) 0) (0 ∷ [])) in
      let resp_part : take 40 (drop 40 (padded 40 req ++ padded 41 resp)) ≡ padded 40 resp =
        ap (take 40) (behind ∙ shorter)
        ∙ take_exact (padded 40 resp) (0 ∷ []) 40 (sym (length-padded 40 resp resp-IsPath.short)) in
      (
        ap c_string req_part
            ∙ c_string_lem req (replicate (40 - length req - 1) 0) req-IsPath.bytes,
        ap c_string resp_part
            ∙ c_string_lem resp (replicate (40 - length resp - 1) 0) resp-IsPath.bytes,
      )
