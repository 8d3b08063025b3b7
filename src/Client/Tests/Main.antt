-- ===== src/Client/Tests/Main.antt =====
-- A .jobs file of four lines: CREATE, RESERVE, SHOW and WAIT.
use so.Base.{ℕ, ◌+◌, some, List, [], ◌∷◌, replicate}
use so.Common.Tests.Pipes.{input, output}
use so.Client.Tests.{file}
use so.Client.Main.{Memory, Jobs}
use so.Client.Main.Script.{Entry, create, reserve, show, wait}
use so.Client.Main.Whole.{script, replies}

abbrev memory : ℕ → Memory
memory i = record {
  bufs = λ n. replicate 16 7;
  xs = replicate 256 8;
  ys = replicate 256 9;
  num_matrix = [];
  malloc = λ n. some (replicate n 6);
}

-- CREATE 1 1 2; RESERVE 1 [(1,2)]; SHOW 1, which is answered with the seats; WAIT 5.
abbrev entries : List Entry
entries =
    create (record { event_id = 49 ∷ []; num_rows = 49 ∷ []; num_cols = 50 ∷ [] }) 0
    ∷ reserve (49 ∷ []) (49 ∷ [], 50 ∷ []) [] 0
    ∷ show (49 ∷ []) 1 2 (0 ∷ 1 ∷ []) 0
    ∷ wait (53 ∷ [])
    ∷ []

-- A `sprintf` for digits.
abbrev digit : ℕ → List ℕ
digit n = (48 + n) ∷ []

abbrev start : Jobs file input output output
start = record {
  in_fd = script entries;
  client = record { req = []; resp = replies entries []; out = [] };
}
