-- ===== src/Server/Tests/Worker.antt =====
-- A worker with one connection in the queue, and one that is told to end.
use so.Base.{none, some, [], ◌++◌}
use so.Common.Bytes.{encode}
use so.Common.Tests.Pipes.{input, output}
use so.Server.Session.{Locals}
use so.Server.Session.Prefix.{messages}
use so.Server.Tests.Queue.{one}
use so.Server.Tests.Session.{script}
use so.Server.Tests.State.{server}
use so.Server.Worker.{Pipes, Worker}

abbrev pipes : Pipes input output
pipes = record {
  open_req = λ path. some (messages script ++ (encode 1 2 ++ []));
  open_resp = λ path. some [];
}

abbrev stack : Locals
stack = record { op = []; event_id = []; num_matrix = []; num_seats = []; xs = []; ys = [] }

abbrev worker : Worker input output
worker = record { queue = one; ems = server; last = none }
