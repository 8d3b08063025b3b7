-- ===== src/Common/Protocol.antt =====
-- The requests that Part2/src/client/api.c sends and Part2/src/server/sessions.c reads: an operation
-- code of one byte (OpCodes in Part2/src/common/constants.h) and the operands.
use so.Base.{ℕ, ◌*◌, ◌<◌, ◌≤◌, ◌≡◌, List, [], ◌∷◌, ◌++◌, length, size_mod, uint_mod}
use so.Common.Bytes.{encode, encode_all, AllBelow}

pub data Request : Type 0 where
  create : (event_id num_rows num_cols : ℕ) → Request
  reserve : (event_id num_seats : ℕ) (xs ys : List ℕ) → Request
  show : (event_id : ℕ) → Request
  list : Request

-- What follows the operation code.
abbrev pub operands : Request → List ℕ
operands (create id rows cols) = encode 4 id ++ encode_all 8 (rows ∷ cols ∷ [])
operands (reserve id n xs ys) = encode 4 id ++ (encode 8 n ++ (encode_all 8 xs ++ encode_all 8 ys))
operands (show id) = encode 4 id
operands list = []

abbrev pub op_code : Request → ℕ
op_code (create id rows cols) = 3
op_code (reserve id n xs ys) = 4
op_code (show id) = 5
op_code list = 6

abbrev pub message : Request → List ℕ
message r = encode 1 (op_code r) ++ operands r

-- The numbers are values of their C types, the arrays have 256 elements and the seats fit.
abbrev pub Fits : Request → Type 0
Fits (create id rows cols) =
    (id < uint_mod) × (rows < size_mod) × (cols < size_mod) × (rows * cols < size_mod)
Fits (reserve id n xs ys) =
    (id < uint_mod)
    × (n ≤ 256)
    × (length xs ≡ 256)
    × (length ys ≡ 256)
    × AllBelow size_mod xs
    × AllBelow size_mod ys
Fits (show id) = id < uint_mod
Fits list = Unit {0}
