-- ===== src/Lib.antt =====
-- A model of the speech server openttsd, src/server/*.c, with its correctness theorems.
--
-- The server takes messages from its clients over sockets, keeps them in five queues, one for each
-- priority, and says one at a time through an output module, a process behind a pipe. Two threads
-- work on the queues: the one that serves the clients calls `queue_message` and the commands STOP,
-- CANCEL, PAUSE and RESUME; the speaking thread runs `speak`. The work on
-- queues is done under `element_free_mutex`, so that an operation is one step from a state to the
-- next here; what the two threads do without that lock (`output_stop` in `speaking_cancel_all`, the
-- flags of PAUSE and RESUME, the settings) is taken to be one step as well.
--
-- The parts:
--   Prelude: numbers, lists, integers and tests that all parts share.
--   Types: the data types of include/opentts/opentts_types.h, include/def.h, src/server/fdset.h and
--     src/server/openttsd.h, and the record Server of the globals.
--   Clients: the lookups of clients in src/server/set.c, and the loop over the descriptors.
--   Settings: the setters of src/server/set.c. Settings/Notifications has SET NOTIFICATION,
--     Settings/Debug SET DEBUG, Settings/Naming SET CLIENT_NAME and the settings for named clients.
--     Whether a name fits a pattern is a parameter, `fnmatch`, and so is the table of default modules,
--     `default_module`.
--   Output: the commands to the module that speaks, from src/server/output.c. Output/Dots
--     has `escape_dot` there, and Output/Modules the choice of the module for a message.
--   Speaking: src/server/speaking.c. Speaking/Queues has the loops on queues, Speaking/Priorities
--     the interaction of priorities, Speaking/Select the choice of the next message, Speaking/Stop
--     STOP and CANCEL, Speaking/Pause PAUSE and RESUME, Speaking/Thread what a module reports, and
--     Speaking/Round a round of `speak`. The choice of the module for a message is a parameter there,
--     `module_of`, and so is what the module answers when it gets the message, `deliver`;
--     Speaking/Round/Accounts and Conserved are about where the addresses of messages are. The loop of a
--     resume request runs on fuel, the length of the list of paused messages: each round takes one out.
--   QueueMessage: `queue_message` of src/server/server.c, which fills a message in, puts it into its
--     queue and calls `resolve_priorities`; `copy_message` of src/server/alloc.c.
--   Connections: `connection_new` and `connection_destroy` of src/server/openttsd.c.
--   History: src/server/history.c. History has the cursor, History/Lists the lists of clients and
--     messages. The list of messages is empty, as it always is in the program. Lengths of lists are
--     unsigned numbers of 32 bits there, and wrap around.
--   Messages: the replies of src/server/msg.h and their text. Messages/Decimal is about `%d`.
--   Protocol: src/server/parse.c. Protocol has the words of a line and STOP, CANCEL, PAUSE, RESUME and
--     BLOCK, Protocol/Set SET, Protocol/Events CHAR, KEY and SOUND_ICON, Protocol/Lists LIST, GET and
--     HELP, Protocol/Past HISTORY, and Protocol/Parse the function `parse`. Protocol/Ranges is about
--     SET and the bounds of the parameters. What `parse` uses of the library and of other parts is a
--     field of the record Environment, such as `strdown` for
--     `g_ascii_strdown`. The value of a number has no bound here; `atoi` leaves it undefined beyond
--     the range of `int`. The memory of a new message that nothing has set is the field `garbage`.
--   Api: the side of the client, src/api/c/libopentts.c, in single mode. Api has the escapes, Api/Replies
--     how a reply is read, and Api/Commands what the calls write, with the sizes of their buffers. The
--     three calls of each of STOP, CANCEL, PAUSE and RESUME are one operation, with a Control and a
--     Target as arguments; the calls for settings, with a Setting and an Addressee, and those for events
--     likewise. Where `sprintf` would write behind a buffer of a fixed size, the call has no result,
--     `none`. The `unsigned int` of a client's number goes through `%d`, as `as_int` says. The fuel of
--     `get_reply` is the length of the stream: each round takes a line from it.
--   Session: one client and the server, with what they have sent to each other and not read yet. A
--     call of the client writes, lets the server serve the connection until it has sent something, and
--     reads a reply. The fuel of `serve_rounds` is the length of what is pending, and each round takes a
--     line. Session/Exchange, Words, Lines, Values and Sending carry the proofs of Session/Set,
--     Session/Flow, Session/Events and Session/Say, which is where the calls are.
--   DataMode: how a text comes in, `serve` of src/server/server.c and the data mode of `parse` of
--     src/server/parse.c. Bytes come one by one until the client has no more to send; the number of
--     rounds of the main loop is bounded by fuel, and as much as bytes were sent is enough. Whether
--     a text is valid is a parameter, `valid`, for the library's `g_utf8_validate`.
--   Names: the names of settings, src/libs/common/fdsetconv.c.
--   IndexMarks: src/server/index_marking.c, with the library's `g_unichar_isspace` as the parameter
--     `isspace` of the rest of a text.
--   Tests: concrete runs.
-- An operation has the name of its C function, and takes and returns the state. A `char *` is
-- `Option Bytes`. Where the process ends (FATAL, a NULL pointer that is followed), the result is
-- `none`.
--
-- Messages are shared between queues, lists and the message that is being said, so there is a store:
-- a queue holds addresses, `messages` maps an address to its message, and `freed` lists what was
-- given to `mem_free_message`. The hash tables are maps to an optional value. Ids and uids are
-- numbers from 0 up, and as the source does, nothing looks for an overflow of them. Whether a write
-- to a module's pipe succeeds is a parameter, `pipe_ok`, a function of what went out before. A loop
-- `while (1)` that removes a link in each round runs on fuel, the length of the list, which the
-- lemmas on `stop_rounds` and `strip_rounds` show to be enough.
--
-- Not modelled: sockets, pipes, threads and their locks, log messages, the configuration, the output
-- modules, the audio back ends, the threaded mode of the client library, its lists of modules and
-- voices, and the client libraries for other languages.
pub mod Api
pub mod Clients
pub mod Connections
pub mod DataMode
pub mod History
pub mod IndexMarks
pub mod Messages
pub mod Names
pub mod Output
pub mod Prelude
pub mod Protocol
pub mod QueueMessage
pub mod Session
pub mod Settings
pub mod Speaking
pub mod Tests
pub mod Types
