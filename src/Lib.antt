-- ===== src/Lib.antt =====
-- A model of yproxy, the proxy between a Greenplum database's segments and external storage.
--
-- A client sends one request packet; the server reads it, decodes its body, and calls the handler of
-- its type. The parts, and the files that model them:
--
--   Base            names shared by all files: the library's, native lists, Boolean tests
--   Bytes           byte slices of Go with their bounds checks, and 64-bit numbers on them
--   Message         pkg/message: a file per message with its record and its Encode and Decode. The
--                   bytes behind the frame's length are `payload`, and `encode` frames them.
--                   Message/Settings is the settings loop that three messages share, Message/Cstring
--                   is GetCstring of utils.go, Message/Kind the constants of message.go.
--   Io/Packet       pkg/io/proto_reader.go: ReadPacket; a connection is the list of bytes that the
--                   peer delivers before it ends the stream
--   Proc/Conn       ProcConn and ProcMotion of pkg/proc/interaction.go, up to the call of a handler of
--                   pkg/proto/mgr.go, which is a value
--   Yio/RetryReader pkg/proc/yio/yrreader.go: Read over the RestartReader interface, which is a
--                   parameter; its state is any type
--   Proc/Garbage    BasicGarbageMgr of pkg/proc/delete_handler.go: Mgr has the record of the manager with
--                   its parameters (storage, database, backups, clock, scheduler), Paths the trash
--                   paths, Batch the parallel operation with its ten rounds of retries, Handlers the
--                   methods; the files below them
--                   hold what is proved of these
--   Proc/Effect     operations on the state outside the program that may return an error
--   Proc/Copy       ListFilesToCopy of pkg/proc/interaction.go, the selection of a copy
--   Proc/List       the answer that ProcessListExtended of pkg/proc/interaction.go writes, in chunks,
--                   and the loop of cmd/client/main.go that reads it
--   Proc/Put        ProcessPutExtended of pkg/proc/interaction.go: the goroutine's loop, the writer
--                   that it writes to, and the handler around them; Proc/Put/Client is the part of
--                   putFunc of cmd/client/main.go behind the request
--   Yio/Writer      pkg/proc/yio/ywriter.go, the Writer of pkg/proc/yio/limiter, and the pipe
--   Proc/Obsolete   ProcessCollectObsolete and ProcessDeleteObsolete of pkg/proc/interaction.go
--   Backups         pkg/backups: GetFirstLSN
--   Database        pkg/database: the indexes of all databases of a segment, over the answers of pgx
--   Storage         pkg/storage: Names the keys of objects, Settings the settings and the maps of the
--                   configuration, S3 the storage over the client of the S3 service with its
--                   listings, moves, what moves and deletions leave (Removes), unfinished uploads and
--                   cache, Sessions the session pool
--   Clients         pkg/clientpool and pkg/client: the pool, and a connection's life in pkg/core/core.go
--   Proc/Cat        ProcessCatExtended of pkg/proc/interaction.go over the retrying reader
--   Yio/RestartReader  YRestartReader of pkg/proc/yio/yrreader.go and the limiter's Reader under it,
--                   with the laws of the retrying reader's interface that it satisfies: Laws what it
--                   reads, Budget how often it fails
--   Proc/Deletion   ProcessDeleteExtended, ProcessDelete2Extended and ProcessUntrashify of
--                   pkg/proc/interaction.go
--   Proc/Copy/Workers  the goroutines of ProcessCopyExtended of pkg/proc/interaction.go, which copy
--                   the objects of a round beside each other, and its rounds
--   Proc/Reply      how the handlers answer, and ReplyError of pkg/client/client.go
--   Proc/Copy/Handler  ProcessCopyExtended of pkg/proc/interaction.go around its rounds
--   Commands        cmd/client/main.go: the flags, the requests and how the answers are read, and a
--                   connection from there to the handlers
--   Console         pkg/core/pg/pg.go over the syntax trees of pkg/core/parser/ast.go; Shown its SHOW
--                   commands, with Quantile of pkg/clientpool
--   Storage/S3/Put  PutFileToDest and PatchFile of pkg/storage/s3storage.go: Running the uploads beside
--                   each other, Flags the settings that the client sends
--   Config          config: Storage and Vacuum the options and defaults of a part each, Config itself
--                   config/instance.go, Reload its life in the running server
--   Storage/File    pkg/storage/filestorage.go over the calls of the operating system: Stored what is
--                   put, Listed what is listed, Copying its CopyObject
--
-- A Go panic is `none` in a decoder and `crashed` in ProcConn. A uint64 is a natural number whose
-- sums wrap at 2 ^ 64. Memory is bounded only by the address space of 2 ^ 48 bytes, in the `make` of
-- the settings. The loop of ObjectInfoMessage.Decode runs on fuel, the length of its body, of which
-- each object takes some; the retries of Read and of the garbage manager are counted down from their
-- limits, as in the code. The client's loop over an answer takes one unit of fuel for a packet.
--
-- The upload loop takes one unit of fuel for a packet, and has one more than the connection has
-- bytes; a listing takes one for each page of the service; the loops that discard and send an object
-- take one for each Read.
--
-- Not modelled are the OpenPGP calls of pkg/crypt, the generated grammar of the console, listeners,
-- signals and the notifier of pkg/core and pkg/sdnotifier, logging and metrics, the command lines of
-- cmd, and the AWS sessions of pkg/storage/sessionpool.go. The services behind the program (S3,
-- PostgreSQL, the token bucket, the operating system's files) are parameters.
pub mod Base
pub mod Bytes
pub mod Message
pub mod Io
pub mod Proc
pub mod Yio
pub mod Backups
pub mod Database
pub mod Storage
pub mod Clients
pub mod Commands
pub mod Console
pub mod Config
