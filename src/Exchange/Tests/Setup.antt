-- ===== src/Exchange/Tests/Setup.antt =====
-- A client whose pipes are "a" and "b", and a server with an empty queue.
use so.Base.{refl, true, false, [], ◌∷◌, ◌++◌, arith}
use so.Common.Bytes.{encode}
use so.Common.Tests.Pipes.{input, input-IsSource, output, output-IsSink}
use so.Server.Register.{Server, Round}
use so.Server.Tests.Queue.{empty, from_start}
use so.Server.Tests.State.{server}
use so.Client.Setup.Message.{IsPath}
use so.Exchange.Setup.{bytes, IsConnected, IsRegistered, ems_setup-IsRegistered}

a-IsPath : IsPath (97 ∷ [])
a-IsPath = record { short = omega arith; bytes = (omega arith, tt) }

b-IsPath : IsPath (98 ∷ [])
b-IsPath = record { short = omega arith; bytes = (omega arith, tt) }

abbrev registers : Server input
registers = record {
  flags = record { terminate = false; usr1_sig = false };
  register_pipe =
      bytes input output input-IsSource output-IsSink [] (encode 4 3 ++ []) [] [] (97 ∷ [])
        (98 ∷ []) a-IsPath b-IsPath
      ++ [];
  queue = empty;
  ems = server;
  printed = [];
}

abbrev quiet : Round
quiet = record {
  before = [];
  during = [];
  interrupted = false;
  enqueue = record { connection = 5; lock = true };
  fuel = 0;
  dump = record { rdlock = true; mutex_lock = λ e. true };
}

ems_setup-IsRegistered_example :
    IsConnected input output input-IsSource output-IsSink []
      (encode 4 3 ++ [])
      []
      []
      (97 ∷ [])
      (98 ∷ [])
      a-IsPath
      b-IsPath
      3
      []
    × IsRegistered input output input-IsSource output-IsSink []
        (encode 4 3 ++ [])
        []
        []
        (97 ∷ [])
        (98 ∷ [])
        a-IsPath
        b-IsPath
        input
        input-IsSource
        (λ n. [])
        registers
        quiet
        []
        []
        []
ems_setup-IsRegistered_example =
    ems_setup-IsRegistered input output input-IsSource output-IsSink [] (encode 4 3 ++ []) [] []
      (97 ∷ []) (98 ∷ []) a-IsPath b-IsPath 3 [] input input-IsSource (λ n. []) registers quiet []
      [] [] (omega arith) refl refl refl refl refl refl (omega arith) refl from_start
