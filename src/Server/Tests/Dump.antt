-- ===== src/Server/Tests/Dump.antt =====
-- What SIGUSR1 prints for the small server.
use so.Base.{ℕ, ◌+◌, true, List, [], ◌∷◌, arith}
use so.Server.Dump.All.{Dumps, ems_sigusr1_action-IsList}
use so.Server.Store.{unlocked}
use so.Server.Tests.State.{server, events, events-IsSound, store-IsList}

abbrev digit : ℕ → List ℕ
digit n = (48 + n) ∷ []

ems_sigusr1_action-IsList_example :
    Dumps digit 9
      (record { rdlock = true; mutex_lock = λ e. true })
      server
      ((10, 20) ∷ [])
      events
      0
      (69 ∷ 118 ∷ 101 ∷ 110 ∷ 116 ∷ 58 ∷ 32 ∷ 55 ∷ 10 ∷ 48 ∷ 32 ∷ 49 ∷ 32 ∷ 48 ∷ 10 ∷ 48 ∷ 32 ∷ 48
        ∷ 32 ∷ 48 ∷ 10 ∷ [])
      unlocked
ems_sigusr1_action-IsList_example =
    ems_sigusr1_action-IsList digit 9 server events
      (record { cells = (10, 20) ∷ []; list = store-IsList }) (λ e. true) events-IsSound
      ((omega arith, omega arith), tt) (omega arith)
