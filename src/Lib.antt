-- ===== src/Lib.antt =====
-- bbcom, a serial-port debug assistant: models of the TypeScript core and their theorems.
--
-- The program receives bytes from serial ports, turns them into frames, speaks Modbus over them and keeps
-- sessions in a workspace. The parts that are modelled here are pure state machines and codecs, and
-- each of them is a class or a set of functions of its own:
--
-- RxQueue (src/lib/serial-rx-queue.ts). Native reads are put into a bounded queue between two turns of the
--   consumer. The record `RxQueue` has the fields of the class; `enqueue`, `drain`, `clear_pending` and `reset`
--   are its methods and `create` its constructor. A slot of the backing array that has been released is `none`.
--   `make_room` is the loop of `enqueue` on fuel: every round moves the head, so the number of live
--   chunks is enough. RxQueue/Policy is the specification on a list of chunks; RxQueue/Bounds has sequences of calls.
-- Modbus (src/lib/modbus, from modbus-core.ts and modbus-transport.ts on). Core has limits, spans and function codes,
--   Crc the checksum, Request the builders of PDUs, Response the parser, Value the registers of a
--   value, Transport the framing and the scanner of received bytes. A JavaScript number is a `Number` of
--   Base/Number: a floor and whether there is a fraction, or not finite. The binary32 conversion of DataView is
--   no code of the repository: it is an argument of `encode_value` and `decode_value`. The scanner
--   runs on fuel, one round for each byte of the buffer, and every round moves its offset. Value/Blocks has
--   blocks of several values. Batches (modbus-batches.ts) groups the rows of the register table into read
--   requests; the loop that splits a batch runs on fuel for its rows, and every round takes one. Writes is the
--   same file's grouping of rows into write requests, where what encodes values may throw. Backoff
--   (modbus-backoff.ts) has the delay of a loop; its floating-point product is a parameter.
-- PortLease (src/features/serial/application/port-lease-registry.ts). The registry says which session
--   owns which port. Its two maps share mutable lease objects, so a lease is an object on a heap and a map
--   takes a key to a place. The canonicalizer of port names is a parameter; Names has the one for Unix.
-- Parser (src/lib/protocol-parser.ts). The parser that cuts a stream into frames, by a delimiter, a length field or
--   a fixed size. `ProtocolParser` has the fields of the class, the backing array with its spare bytes
--   among them; a configuration is one that has been validated. Loops run on fuel: `drain` one round more than
--   there are pending bytes, `feed_slices` a round for each byte of the input, the growth of the buffer a round
--   for each byte that is needed. The display helpers are not modelled.
-- WriteScheduler (src/lib/serial-write-scheduler.ts). One queue of writes in front of the driver. `Drain` says where
--   the asynchronous `drain` stands: at rest, at the await of the driver's answer, or at the await of
--   `writeOperation`. `Event` has a call of a method, an answer of the driver, the turn on which `drain` goes on,
--   and the end of a grace period; `run` is a sequence of them. The gate is a function that every event brings
--   along. `finished` and `wire` record what the promises resolved to and which bytes the driver acknowledged;
--   the code ignores what it acknowledges after the promise was resolved, which `late_bytes` of an operation counts.
--   A callback of `onWriteStarted` that calls the scheduler back is not modelled.
-- Trigger (src/lib/trigger-engine.ts). The triggers that answer when a pattern is received. `TriggerEngine` has the
--   fields of the class; `feed` takes the reading of the clock as an argument, and the streaming decoder of UTF-8
--   is a parameter, a state with a function. Hex has the patterns and Hex/Spells what they spell, Search
--   `containsSubarray`, Matches what it means that a trigger is due, in terms of its fields; no loop needs fuel
--   but the two of the search, which have a round for each place and for each byte.
-- Base has the shared names, lists over native numbers, the stable sort of arrays, results, numbers, bits, texts and
--   dictionaries.
--
-- The parts interact through values only: the scheduler of reads hands what `drain` returns to the frame
-- parsers, `parse_frame` reads what `scan_response` cuts, and a connection asks the registry for its port
-- before it opens it. Integers of a machine width have their wrap-around written out; a number of JavaScript
-- that counts bytes stays far below 2 ^ 53 and is a natural number.
--
-- Not modelled: what is asynchronous elsewhere (the scheduler of reads, transactions, reconnection, the
-- coordination of workspaces), the views, the Rust backend and the generated contracts between both.
pub mod Base
pub mod Modbus
pub mod Parser
pub mod PortLease
pub mod RxQueue
pub mod Trigger
pub mod WriteScheduler
