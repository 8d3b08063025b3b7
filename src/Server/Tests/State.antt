-- ===== src/Server/Tests/State.antt =====
-- A small server state: one event of two rows and three columns, one seat taken.
use so.Base.{refl, false, none, some, List, [], ◌∷◌, arith, ◌==◌, if◌then◌else◌}
use so.Base.Nodes.{null}
use so.Chain.{node}
use so.Server.Store.{Event, unlocked, Store}
use so.Server.EventList.Shape.{IsList}
use so.Server.Seats.Index.{IsRoom}
use so.Server.Database.{IsSound}
use so.Server.Operations.{Ems}
use so.Server.Operations.State.{Repr}

abbrev pub concert : Event
concert = record {
  id = 7;
  reservations = 1;
  cols = 3;
  rows = 2;
  seats = 0 ∷ 1 ∷ 0 ∷ 0 ∷ 0 ∷ 0 ∷ [];
  mutex = false;
}

abbrev pub store : Store
store = record {
  lists = λ p.
      if p == 1
      then some (record { event_num = 1; head = 10; tail = 10; rwl = unlocked })
      else none;
  nodes = λ p. if p == 10 then some (node 20 null) else none;
  events = λ p. if p == 20 then some concert else none;
}

abbrev pub server : Ems
server = record { event_list = 1; state_access_delay_us = 0; store = store }

abbrev pub events : List Event
events = concert ∷ []

pub store-IsList : IsList store 1 unlocked ((10, 20) ∷ []) events
store-IsList = record {
  ne_null = omega arith;
  header = refl;
  linked = (omega arith, refl, refl, tt);
  owns = (omega arith, refl, refl, tt);
}

pub server-Repr : Repr server events
server-Repr = record { cells = (10, 20) ∷ []; list = store-IsList }

pub concert-IsRoom : IsRoom concert
concert-IsRoom = record { small = omega arith; full = refl }

pub events-IsSound : IsSound events
events-IsSound = (concert-IsRoom, refl, refl, tt)
