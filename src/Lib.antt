-- ===== src/Lib.antt =====
-- The native addon of btle.js: a client of the Bluetooth attribute protocol (ATT), the connection it
-- works over, the listening side, and the options both take from JavaScript.
--
-- JavaScript calls methods of Peripheral, which makes requests of an `Att`. `Att` keeps the one
-- outstanding request, puts PDUs together in a buffer and writes them to a `Connection`, which
-- runs under libuv. libuv's reads come back through the connection's read callback to
-- `Att::handleRead`, whose handlers parse responses, ask for the rest of a range and call back.
-- `Central` is a socket that listens for one peer. `HCI` makes
-- the adapter advertise. `setOpts` fills what both sides connect with, and the socket functions of
-- btio.c make their sockets from it.
--
-- Files and sources:
--   Prelude: Boolean tests, lists and integers; `Outcome`, a run that is done, that faults (an access
--     outside of an object) or that is stuck (out of fuel).
--   Host: src/uuid.h, and what libbluetooth and the machine bring: byte orders, memory images, UUID
--     constructors. They are parameters, with their documented laws.
--   Wire: src/btio.h (att_get_*, att_put_*), src/att.cc (both `Att::encode`).
--   Parse: src/att.cc (parseAttributeList, parseHandlesInformationList, parseAttributeDataList,
--     parseGroupAttributeDataList). Decoder is an independent one of the 16-bit format.
--   Pdu: src/btio.h (opcodes and error codes), src/att.cc (getErrorString, getOpcodeName).
--   Connection: src/connection.h, src/connection.cc, one function per method or libuv callback.
--   Att: src/att.h, src/att.cc. State has the members, setCurrentRequest and removeCurrentRequest;
--     Request has the public methods; Respond has the handlers (handleFindInfo and so on) and the
--     functions `do...` that send; Read has handleRead. Session and Complete put a whole findInformation
--     together from them, Reach every history of a client, Settle and Ledger what such
--     a history answers, Misdirected a write request beside an outstanding read.
--   Js, Options: src/util.cc and `struct set_opts` of src/btio.h.
--   Btio: src/btio.c and the enumerations of src/btio.h. Set has the functions that set options,
--     Wanted and Get those that read them, Open those that bind, connect and listen. Traces and
--     Runs have the calls and open descriptors that a run leaves, each Keeps the calls of its
--     parent, Counts the values that bt_io_get stores; Addresses has what the sockets are
--     bound and connected to; Owned, Prepared, Calls and Users are about a whole bt_io_connect,
--     Legacy about a kernel without BT_SECURITY.
--   Central: src/central.h, src/central.cc.
--   Hci: src/hci.h, src/hci.cc, from the socket to the commands. Socket has its descriptor, Advertising
--     what reaches the adapter, Arguments what JavaScript calls it with.
--   Peripheral: src/peripheral.h, src/peripheral.cc. State has the members and the callback data, Replies
--     the callbacks up to the calls of JavaScript functions, Dispatch how `Att` and `Connection` call
--     them, Methods and Connect the methods. Guards has their arguments, Closing the end;
--     Owned which callback data is alive, over every order of calls and reports.
--   Discovery: a device with a table of attributes, answering every PDU; whole conversations between
--     JavaScript and it. The device is a specification, not code of the repository. Progress has
--     devices without a table.
--   Tests: concrete runs.
--
-- A method takes the state and gives the next state with the events it caused, in order: writes to
-- the stream, calls of callbacks, throws, deletions. A pointer into memory is the list of bytes from
-- there to the end of its block, so an access past the end is a fault. Pointers to functions and to
-- their data are numbers. A `delete` is an event. What libuv answers is an argument, and so is what
-- bt_io_connect, bt_io_get and bt_io_listen answer to Connection, Peripheral and Central; what the
-- adapter answers, and what the kernel answers to Btio, is a function of what happened. Each call of
-- Btio to the kernel is an event with its answer.
--
-- Bounds and fuel: a `uint16_t` handle wraps at 2^16 where the code adds to it, the
-- length of advertising data at 2^8, `size_t` has 64 bits,
-- and options wrap to the width of their field. A parser's loop runs on as many rounds as the length
-- that it is given: each round takes a byte at least or faults, so they are enough. The fuel of a
-- conversation is its number of answers. An `int` that holds bits is its 32 bits.
--
-- Not modelled: the registration of the methods (`Init`, `New`) and `weak_cb` of src/peripheral.cc;
-- src/btleException.cc and src/debug.cc, the accessors of src/btio.h and src/att.h that nothing calls,
-- the JavaScript library,
-- destructors, buffers that libuv allocates, and locks: all callbacks run on the loop's one thread.
pub mod Prelude
pub mod Host
pub mod Wire
pub mod Parse
pub mod Pdu
pub mod Connection
pub mod Att
pub mod Js
pub mod Options
pub mod Btio
pub mod Central
pub mod Hci
pub mod Peripheral
pub mod Discovery
pub mod Tests
