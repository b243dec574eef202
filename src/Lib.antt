-- ===== src/Lib.antt =====
-- linen is a Lean library whose effects (sockets, TLS, compression, cryptography, databases, keychains)
-- are bindings in C. This development models that C layer, the files of ffi/, and proves what makes its
-- parts correct. The Lean runtime, the system calls and the libraries that the bindings wrap (OpenSSL,
-- zlib, libpq, SQLite, DuckDB) are parameters.
--
-- Base.antt passes on the shared names: Boolean tests, C arrays as lists, `size_t` and `int` words, and
-- the result of an exported function (`ok`, `error`, and `out_of_fuel` of a loop of the model).
--
-- Classes.antt is the lazy registration of external classes by several threads, in ffi/network.c,
-- ffi/postgres.c, ffi/sqlite3_shim.c and ffi/duckdb_shim.c: an order of turns is a list of thread numbers.
-- ffi/tls.c leaves it to `pthread_once`. Classes/Kept.antt is the invariant, Classes/Ensured.antt that each
-- call returns.
--
-- RecvBuffer.antt is `linen_recvbuf_t` of ffi/network.c: `recvbuf_fill`, `linen_recvbuf_create`,
-- `linen_recvbuf_readline` and `linen_recvbuf_readn`. `recv` is a function of the descriptor, the room
-- and the state of the world. RecvBuffer/Valid.antt is its invariant, and
-- RecvBuffer/Stream.antt states what a stream socket does (`IsStream`) and proves the refill; ReadN and ReadLine, Lines are the two reads. `readn` of n bytes is given n + 2
-- rounds, since each round after the first copies a byte, and `readline` 8193, since each round adds a
-- byte to a line of at most 8191; the theorems exclude `out_of_fuel`.
--
-- Zlib.antt is the driving loops of ffi/zlib.c, `linen_zlib_drive` and `linen_zlib_drive_deflate`, and
-- the growing of their output; Zlib/Handle.antt is the handles and the exported functions. A call of
-- `inflate` or `deflate` is a parameter; `IsCodec` in Zlib/Drive.antt states what zlib documents of it,
-- for inflate with Z_NO_FLUSH and for deflate with both flushes. The loops run on fuel that is an
-- argument: enough is more than the input and the output still to come, since each round after the first
-- consumes or produces a byte.
--
-- Tls.antt is the sessions of ffi/tls.c (`linen_ssl_t`): handshake, blocking and non-blocking reads and
-- writes, close and finalizer, over an OpenSSL that answers as it likes. The session's lock makes each
-- function one step. Tls/Safety.antt is OpenSSL's protocol on one object as a machine of phases, and
-- Tls/Lifetime.antt any sequence of calls, Tls/Write.antt the bytes that the blocking write sends. The loop of the blocking write is given one round more than
-- bytes. Tls/Getters.antt is the two getters. Tls/Setup.antt is how sessions and contexts are set up, as programs over the calls of OpenSSL:
-- Session, Contexts with the CA bundle, Alpn; Ownership is what they hold, Events what has been done when
-- a session or a context is handed out, Fallback which bundle is chosen.
--
-- Calls.antt is such programs: trees of calls that make, use and free objects, with a branch for every
-- answer, and their run over a library. Calls/Legal.antt is the rule of ownership and Calls/Outcomes.antt
-- what is returned after which calls; both are checked on the tree and hold of the run over any library.
--
-- Jose.antt is ffi/jose.c as such programs over libcrypto and malloc: digests and random bytes, Jose/Rsa,
-- Jose/Ec, Jose/Keys and Jose/Base64. What jose.c owns is counted (Jose/Ownership.antt), the arrays of
-- Lean's runtime are not.
--
-- EventLoop.antt is the event loops of ffi/network.c, on epoll and on kqueue, and the closing of their
-- and the sockets' descriptors. EventLoop/Wait.antt is about what a wait reports, EventLoop/Interest.antt
-- about registration, against the interest list (`IsEpoll`), EventLoop/Lifetime.antt about closing.
--
-- Socket.antt is the sockets of ffi/network.c: Socket/Transfer.antt sends and receives, with
-- Socket/Transfer/Streams.antt stating what a stream socket does (`IsStreamSocket`); the loop of
-- `linen_socket_sendall` is given one round more than bytes, since each round sends one at least.
-- Socket/Address.antt is addresses and their resolution, Socket/Options.antt options and limits,
-- Socket/Connect.antt accepting, connecting and polling, Socket/Datagram.antt opening and datagrams.
--
-- Sqlite.antt is ffi/sqlite3_shim.c as programs over SQLite: Sqlite/Statement and Sqlite/Database have a
-- function for each exported one, Sqlite/Life is a connection and its statements from beginning to end,
-- Sqlite/Registration the references to a registered closure, Sqlite/Functions its run.
--
-- Keychain.antt is ffi/keychain.c as programs over CoreFoundation (Keychain/Macos), libsecret (Keychain/Linux)
-- and the Credential Manager (Keychain/Windows); Keychain/Owned is about what they allocate, with
-- Calls/Granted.antt for the allocations of CoreFoundation, which the code does not check, and
-- Keychain/TargetName about names on Windows.
--
-- Postgres.antt is ffi/postgres.c as programs over libpq: Postgres/Connection and Postgres/Getters have the
-- functions on a connection, Postgres/Result those on a result, Postgres/Life and the files below it a
-- connection and its results from beginning to end.
--
-- DuckDb.antt is ffi/duckdb_shim.c. DuckDb/Functions lists DuckDB's functions by what they answer, DuckDb/Api
-- makes them and malloc a library, and DuckDb/Handles has the wrappers, the finalizers and the shapes that the
-- exported functions share: a call that makes something and wraps it, that stores it, that asks, that destroys.
-- The exported functions are named as in C without the prefix linen_duckdb_: DuckDb/Opening (databases and
-- connections), Arrays (the arrays built for a call), Appender, Prepared, Results, Catalogs (with the
-- configuration), Chunks (with error data and raw memory), Types, Files, Callbacks (scalar functions and log
-- storages) and Vectors. DuckDb/Owned and DuckDb/Shapes say what the shapes hold, DuckDb/Steps what each
-- function holds, DuckDb/Ownership brings them together; DuckDb/NewVector is the making of vectors, which no other
-- handle owns. A handle of an argument is known by its position, and
-- what a function makes by its kind. DuckDb/Values has the casts of appended and bound values, DuckDb/Passing what
-- DuckDB gets; DuckDb/Dates the conversions, with DuckDB's own as parameters, DuckDb/RoundTrip their way back;
-- DuckDb/Data the bytes of a vector, low byte first, with an access out of bounds as none; DuckDb/Strings the
-- images of strings; DuckDb/Closures the references to closures.
--
-- Not modelled: ffi/duckdb_glibc_compat.c, which only forwards calls to libc.
--
-- Lean's strings are not modelled: a function that makes one returns its bytes. Allocation by the Lean
-- runtime aborts the process when it fails, and is left out.
pub mod Base
pub mod Classes
pub mod RecvBuffer
pub mod Zlib
pub mod Tls
pub mod EventLoop
pub mod Socket
pub mod Calls
pub mod Jose
pub mod Sqlite
pub mod Keychain
pub mod Postgres
pub mod DuckDb
