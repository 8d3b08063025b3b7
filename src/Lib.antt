-- ===== src/Lib.antt =====
-- A model of EMS, an event management system in C: events with rows and columns of seats, which
-- can be created, reserved, shown and listed. Part1 is one process whose threads execute files of
-- commands. Part2 is a server that keeps the events and clients that send it requests over pipes.
--
-- Part2/src/common (Common.antt):
--   Common/Kernel.antt      what read(2) and write(2) promise, which the loops below call
--   Common/Io.antt          safe_read and safe_write of io.c, over any such kernel; Io/Print has
--                           print_str, Io/Whole the case of a pipe that works
--   Common/Bytes.antt       numbers and arrays in memory and on a pipe, little-endian
--   Common/Protocol.antt    the requests of the client and their messages
--
-- Part2/src/server (Server.antt):
--   Server/Store.antt       the memory: lists, nodes and events at addresses, with their locks
--   Server/EventList.antt   eventlist.c: create_list, append_to_list, free_event, free_list,
--                           get_event; Shape, Append, Find and Free below it prove them
--   Server/Seats.antt       the three loops of ems_reserve and seat_index, operations.c
--   Server/Operations.antt  ems_init, ems_terminate, ems_create, ems_reserve of operations.c; NewEvent
--                           and Locked below it are about the parts that hold a lock
--   Server/Output.antt      ems_show and ems_list_events of operations.c
--   Server/Dump.antt        ems_sigusr1_action of operations.c; Rounds, Rows and All below it
--   Server/Database.antt    the abstract commands CREATE and RESERVE on a list of events
--   Server/Invariant.antt   the invariant of the server's state
--   Server/Queue.antt       queue.c, and take_connection for the worker's critical section in
--                           sessions.c; Queue/Fifo has the interleavings as a step relation
--   Server/Session.antt     handle_requests of sessions.c; below it Request is the abstract server,
--                           Round one request, Prefix and Conversation a whole client whose rounds'
--                           answers are those of the state that the rounds before them leave, Closed
--                           a client that goes away
--   Server/Worker.antt      check_termination and connect_clients of sessions.c
--   Server/Register.antt    main.c from its loop on: sig_handler, the rounds that read the register
--                           pipe and fill the queue, and the end; Setup has a round with a message
-- The state of operations.c (event_list, state_access_delay_us and the memory) is the record Ems.
-- Each operation takes the answers of the C library (addresses from malloc, whether a lock was
-- granted) as arguments, and returns the code of the source and the next state. In a session they
-- are a function of the round and of the state.
--
-- Part2/src/client (Client.antt):
--   Client/Parser.antt       cleanup and get_next of parser.c; their proofs are in Next (the
--                            loop) and Word (the command words)
--   Client/Arguments.antt    parse_uint of common/io.c, parse_show and parse_create of parser.c, with
--                            strtoul as a parameter and its promise IsStrtoul
--   Client/Reservation.antt  parse_reserve and parse_wait of parser.c
--   Client/Api.antt          ems_create, ems_reserve, ems_show, ems_list_events and ems_quit of api.c;
--                           the blocks of malloc have a length, and a read into a shorter one faults
--   Client/Setup.antt        ems_setup of api.c; Message has the bytes that it sends
--   Client/Main.antt         the loop of main.c; Main/Script describes a .jobs file and its answers
--
-- Exchange.antt puts the client at the other end of the server's pipes; Exchange/Setup does so for
-- a new client and the register pipe.
--
-- Part1/src (Part1.antt):
--   Part1/Seats.antt        the loops of ems_reserve and seat_index, operations.c
--   Part1/Seats/Compare.antt  Part 1's reservation against Part 2's
--   Part1/Parser.antt       read_uint, cleanup and get_next of parser.c; Parser/Compare has them
--                           against Part 2's
--   Part1/Arguments.antt    parse_show, parse_create, parse_reserve and parse_wait of parser.c
--   Part1/Waits.antt        inject_wait of threaded.c
--   Part1/Turns.antt        process_commands of threaded.c, as far as parseMutex is held; Script has the
--                           lines of a file, Take one turn, Order all orders of the turns
--   Part1/Store.antt        the memory of eventlist.h
--   Part1/EventList.antt    eventlist.c, with Shape, Append, Find and Free for the proofs
--   Part1/Operations.antt   ems_init, ems_terminate, ems_create and ems_reserve of operations.c; below
--                           it State, Memory, Insert, Create, Reserve and Lifecycle
--   Part1/Database.antt     the abstract CREATE and RESERVE
--   Part1/Io.antt           safe_write of utils.c
--   Part1/Output.antt       ems_show and ems_list_events with their buffer; Buffer, Rounds,
--                           Rows, Show, Events and Overflow below it
--   Part1/Threads.antt      the commands of several threads as steps on one state; Kept, Ready and
--                           Valid have the invariant, Race and Progress what can come about
-- The state of a job of Part 1 is the record Ems of Part1/Operations: the Ems_t, the heap and the four
-- locks. Each access of ems_create and ems_reserve to them goes through `guarded`, and faults where the
-- lock that it needs is not held. CREATE and RESERVE are two parts each, with no lock held in between:
-- a part is one step of a thread, which can be taken where the state of the locks grants those that
-- the part asks for. BUFSIZ, and the text that snprintf makes of a number, are parameters.
--
-- Shared: Base.antt (lists, tests, pointers and heaps, the result types Run and Outcome) and
-- Chain.antt (the cells of a linked list, with their footprint, which lists and the queue are made
-- of). An access to memory that is not allocated and a read past an array's end are `fault`.
-- Arithmetic on size_t and unsigned int has its wrap-around. A loop that is not over an array takes
-- fuel and ends in `out_of_fuel` without it. For the loops over a list one round more than there are
-- events is enough, for those over bytes one more than there are bytes: each safe_read and safe_write
-- is called with that. The loops that count rows and columns in a size_t have fuel for one round more
-- than there are rows or columns: below the largest size_t that is enough, which the theorems on them
-- ask for, and at the largest size_t the source's counter wraps and the loop never ends. A lemma file
-- named Rounds shows what they do below it. The loops over requests and commands have a number of
-- rounds, one for each and one more to end.
--
-- Not modelled: messages on stdout and stderr and the simulated access delays, on which no decision
-- depends, but for what SIGUSR1 prints; what mkfifo, open,
-- unlink and the making of threads do, whose answers are arguments where the code goes on with them;
-- main of the server and of the client before its loop; print_uint, which nothing calls. Of Part 1:
-- dispatch_threads and process_job, which start the threads, again after a barrier; the processes of
-- main; the names of the files. Turns and Threads are two views of process_commands: the one does not
-- execute the commands, the other does not read them.
pub mod Base
pub mod Chain
pub mod Server
pub mod Common
pub mod Part1
pub mod Client
pub mod Exchange
