-- ===== src/Lib.antt =====
-- The camera controller, a program for a Raspberry Pi that takes series of exposures with a camera
-- under commands received over TCP.
--
-- The program's parts, and the files that model them:
--   * src/circular_buffer.h, the ring that holds the bytes to send: CircularBuffer, with its
--     abstract contents in CircularBuffer/Contents, writes in /Put, reads in /Get and `print` in
--     /Print.
--   * src/communication/Message.h, MessageDecoder.{h,cpp}: Message and MessageDecoder. The decoder
--     copies data in chunks; MessageDecoder/Automaton is the machine on single bytes that it
--     implements (/Stream), /Split is about cuts of the stream and /Frames about whole frames.
--   * src/communication/MessageEncoder.h: MessageEncoder, with the frames that `sendLog` makes in
--     /Chunks and the way back through the decoder in /RoundTrip.
--   * src/communication/MessageHandler.h: MessageHandler; it parses a telecommand, decodes it and
--     gives it to the listener. /Faults puts it together with the two parts below.
--   * src/commands/Commands.{h,cpp}: Commands, with the types of the decoded commands in /Typing.
--   * src/main.cpp, `onCommandReceived`: CommandHandler. /Rule is the one case distinction on
--     commands from which /Safety, /Effect (the active function) and /World (the camera) follow; /Stuck is
--     about a test capture that throws.
--   * src/main.cpp, `init` and `main`: Startup, with the state that they lead to in /Ready.
--   * src/functions/: CameraFunction, Sequencer and Intervalometer, with their run threads in /Run
--     as functions, and the statistics of a sequence in Sequencer/Stats. RunThread has the run
--     thread beside the thread of the commands as a step relation, with the
--     invariant of both threads in /Invariant, the end after an abort in /Abort, and the camera in
--     /World.
--   * src/utils/RemoteTrigger.{h,cpp}: RemoteTrigger, with its times in /Timing.
--   * src/camera/CameraWrapper.{h,cpp}: CameraWrapper, with the connection in /Connection, the
--     configuration in /Config, and exposures and downloads in /Capture. A call of gphoto2 on a camera that
--     has been freed is a fault. /Capture/Dangling is about the one left by a
--     failed reconnection. The functions know the camera as an interface, by how a capture
--     ends: CameraFunction/Laws is what they ask of one.
--   * src/communication/TCPServer.{h,cpp}: TcpServer, with the order of the bytes sent in /Order,
--     the sender in /Drain and /Sent, the receiver in /Receive, one client after another in
--     /Clients and `start` in /Start. TcpServer/Threads is the two threads and the callers of
--     `sendData`, statement by statement, with the mutex and the condition variable: the order of
--     the bytes is in /Order, the client that they go to in /Client, the sender's sleep in /Wakeups
--     and its way out in /Progress and what is lost in /Lost.
--   * src/communication/TCPStream.h: TcpStream, with what arrives in /Lossless. LogPath is the
--     whole way of a log text, from the stream through encoder, ring and sender to a decoder; its
--     /Lines and /Arrival begin at the calls of the logger. CommandPath is the way of a
--     telecommand, from the client's bytes through decoder and message handler to
--     `onCommandReceived`.
--   * src/logger.h: Logger, with the removal of streams in /Streams, the lines written in /Lines
--     and their size in /Lengths.
--   * Base holds the helpers on lists, machine words and integers, Outcome what a call that may end
--     the program returns, and Tests the runs at concrete inputs.
--
-- Conventions. A C++ object is a record and a method a function from the old state to the new one.
-- `unsigned int` sums and differences wrap at 2 ^ 32, and so do those of `size_t` that could go
-- below 0, as on the 32-bit system that the program is built for; other sums of lengths are those
-- of numbers. Signed sums, whose overflow is undefined, are sums of integers; a cast to
-- `int` keeps the low 32 bits. A buffer passed with
-- its length is a list. Fresh memory holds what a parameter `junk` says. The lines that only log
-- are left out.
--
-- Bounds. The ring's theorems hold for sizes below 2 ^ 31 (the program's ring has 2 ^ 20 bytes).
-- The decoder's loop has fuel for two rounds to a byte, since only a round that ends an empty
-- message consumes nothing; the encoder's has a round to a byte, since each consumes one at least.
-- Both are proved to be enough.
--
-- Threads. The handler of commands runs alone on the thread of the server. In Sequencer and
-- Intervalometer the run thread is a function of a list of rounds, each with the values it reads of
-- the members that another thread changes, and of the clock. In RunThread the two threads take
-- turns in any order: the step relation has a step for each command and for each part of a round of
-- the run thread, a call of the camera being one part. A capture that never returns has no
-- step out of it, nor has one that throws, with which the program ends; the steps of the handler that
-- the relation still has then are more than the program takes.
--
-- The loops of the camera wrapper and of the server that wait for the outside have fuel as well:
-- running out of it stands for waiting on. In TcpServer the two threads of the server are their
-- rounds, in any order; in TcpServer/Threads they are their statements, in any order that the mutex
-- allows.
--
-- Parameters. The JSON library (JsonLib), the camera of the functions (Camera), the calls of
-- gphoto2, the clock and the files (Gphoto), the sockets (Sockets), the handler of messages and
-- `sendData`.
--
-- Not modelled: that the handler of commands uses the camera wrapper between two calls of a capture
-- of the run thread; the heartbeat that `main` logs for ever, the log lines elsewhere, and
-- src/utils/print_functions.h, which prints and which no file includes. The headers of gphoto2,
-- wiringPi and nlohmann::json are other projects' code.
pub mod Base
pub mod CircularBuffer
pub mod Message
pub mod MessageDecoder
pub mod MessageEncoder
pub mod RemoteTrigger
pub mod CameraWrapper
pub mod Commands
pub mod Outcome
pub mod CameraFunction
pub mod Sequencer
pub mod Intervalometer
pub mod CommandHandler
pub mod RunThread
pub mod MessageHandler
pub mod TcpStream
pub mod Logger
pub mod LogPath
pub mod CommandPath
pub mod Startup
pub mod TcpServer
pub mod Tests
