-- ===== src/Exchange/Tests.antt =====
-- A client that shows and lists the events of the small server.
mod Setup
use so.Base.{ℕ, refl, true, some, List, [], ◌∷◌, ◌++◌, arith, ◌+◌, replicate, length-replicate}
use so.Common.Protocol.{show, list, message}
use so.Common.Tests.Pipes.{input, input-IsSource, output, output-IsSink}
use so.Server.Session.{Answers}
use so.Server.Session.Request.{answer}
use so.Server.Tests.State.{events, events-IsSound}
use so.Client.Api.{Client, ems_show, ems_list_events}
use so.Client.Api.Shown.{Prints}
use so.Exchange.{ems_show-served, ems_list_events-served}

abbrev answers : Answers
answers = record {
  create = record { wrlock = true; event = 21; mutex_init = true; calloc = true; node = 11 };
  reserve = record { rdlock = true; mutex_lock = true };
  rdlock = true;
}

-- A `sprintf` for digits.
abbrev digit : ℕ → List ℕ
digit n = (48 + n) ∷ []

abbrev asks_show : Client input output output
asks_show = record { req = []; resp = (answer answers (show 7) events).0 ++ []; out = [] }

-- Two rows of three seats, the second of which is reserved.
ems_show-served_example :
    Prints input output output input-IsSource output-IsSink output-IsSink
      (ems_show input output output digit (λ n. some (replicate n 6)) [] 7 asks_show)
      asks_show
      (message (show 7))
      (48 ∷ 32 ∷ 49 ∷ 32 ∷ 48 ∷ 10 ∷ 48 ∷ 32 ∷ 48 ∷ 32 ∷ 48 ∷ 10 ∷ [])
      0
      []
ems_show-served_example =
    ems_show-served input output output input-IsSource output-IsSink output-IsSink digit
      (λ n. some (replicate n 6)) (λ n. (replicate n 6, refl, length-replicate {A = ℕ} n 6)) answers
      refl events [] asks_show 7 [] events-IsSound
      (
        omega arith,
        omega arith,
        omega arith,
        (
          omega arith,
          (omega arith, (omega arith, (omega arith, (omega arith, (omega arith, tt))))),
        ),
      )
      refl

abbrev asks_list : Client input output output
asks_list = record { req = []; resp = (answer answers list events).0 ++ []; out = [] }

ems_list_events-served_example :
    Prints input output output input-IsSource output-IsSink output-IsSink
      (ems_list_events input output output digit (λ n. some (replicate n 6)) asks_list)
      asks_list
      (message list)
      (69 ∷ 118 ∷ 101 ∷ 110 ∷ 116 ∷ 58 ∷ 32 ∷ 55 ∷ 10 ∷ [])
      0
      []
ems_list_events-served_example =
    ems_list_events-served input output output input-IsSource output-IsSink output-IsSink digit
      (λ n. some (replicate n 6)) (λ n. (replicate n 6, refl, length-replicate {A = ℕ} n 6)) answers
      refl events [] asks_list (omega arith, tt) (omega arith) refl
