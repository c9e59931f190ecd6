-- ===== src/Lib.antt =====
-- pg_mimic: the core of a server that speaks the PostgreSQL protocol, and what is proved of it.
--
-- The program. A connection (pg_mimic/connection.py) reads framed messages from a stream
-- (pg_mimic/stream.py, pg_mimic/messages.py, pg_mimic/types.py), dispatches each to a handler, and
-- writes answers. Statements that concern the connection itself, such as SET, BEGIN, SAVEPOINT and
-- LISTEN, are answered by pg_mimic/middleware.py on the connection's SessionState
-- (pg_mimic/state.py). The server (pg_mimic/server.py) keeps a registry of the channels that
-- connections listen to and fans notifications out. COPY data is encoded and decoded by
-- pg_mimic/copy.py, and portals pull rows through pg_mimic/session.py.
--
-- The files.
-- - Prelude: shared names, native lists and numbers, dict and set, exceptions as values.
-- - Errors: pg_mimic/errors.py.
-- - State: SessionState, one function for each method; State/Scopes is about the stack.
-- - Server: add_listener, remove_listener and listeners of PgServer; Server/Husks is about empty
--   entries, World/Once about repeated ones. Server/Connections has _allocate_pid, the connections by their pid, and cancel, with
--   request_cancel; Cancel and Aim are about whom a CancelRequest reaches.
--   Negotiate has _negotiate_startup, on packets that were read, and Params is about the parameters.
-- - Messages: the backend messages as data, for the connections.
-- - Connection: the fields of a Connection and the methods that write or queue messages.
-- - World: the server with all its connections, a heap indexed by pid, since a notification reaches
--   other connections; notify, sync_listeners and the methods around them.
-- - Middleware: the statements' effects. Settings has _apply_set_config and what it calls,
--   Transactions has _transaction_statement and _savepoint_statement, Listen and Execute the rest,
--   Guard the refusal in a failed transaction and the answer to an error. Validity is the invariant
--   and that each step keeps it, Inside and Commit are about whole transactions.
-- - Loop: _command_loop and _dispatch, over handlers that are a parameter.
-- - Protocol: the handlers of Query, Parse, Bind, Describe, Execute and Close, over a session that is
--   a record of operations; Silent gives the loop its handlers, Agree compares the two protocols.
-- - Wire: the integers and frames, UTF-8, and the builders and parsers of messages, on bytes. Reader
--   is an offset that moves on, Messages/Bind the parsers that use it.
-- - Arrays: pg_mimic/arrays.py, the shapes, the literals and the binary format.
-- - Copy: the encoder and the incremental decoder of COPY, on code points. Reader is the frontend
--   side of COPY FROM STDIN, _CopyInReader of pg_mimic/connection.py, and Writer its _copy_out.
-- - Rows: drain_rows and format_code_for; Drains is about single and repeated executions.
-- - Tests: concrete runs.
--
-- Choices. A dict is an association list and a set the list of its members. Awaiting is not
-- modelled: a statement runs to its end before another starts, as the event loop runs the
-- synchronous effects. A loop that moves an index is recursion on the rest of the text, with a count
-- of characters still to skip. The loops on fuel are the COPY decoder's, with one turn for each
-- pending character and one more, that of the startup message, with one for each byte and one more,
-- and the parser of array literals, with four for each character and one more; running out of fuel
-- is a result of its own in the last two, and the amounts are proved enough. What a Session of the
-- application does, and the catalogue and syntax of settings, are the record Host, a parameter;
-- what it prepares, describes and runs is the record Protocol.Session, with splitting and tagging
-- of SQL texts. Python's incremental UTF-8 decoder is the record Copy.Reader.Incremental, and the
-- codecs of array elements are Arrays.Binary.ElementCodec. A task that is cancelled inside a
-- handler is not modelled: Server.Connections stops at the call of the task's cancel. The secret
-- of a connection, from os.urandom, is any integer.
--
-- Not modelled: recognising statements in SQL text, the table sessions and catalogues on sqlglot,
-- the values of types but arrays, authentication, and the transport and its TLS. The handlers take
-- _copy_in and _copy_out as operations of the session; Copy is about what they do. A hook of a
-- Session that reaches back into its connection, and Python's limit on the depth of recursion (an
-- array literal nested a thousand deep) are left out.
pub mod Prelude
pub mod Errors
pub mod State
pub mod Server
pub mod Connection
pub mod Messages
pub mod World
pub mod Middleware
pub mod Loop
pub mod Copy
pub mod Wire
pub mod Arrays
pub mod Protocol
pub mod Rows
pub mod Tests
