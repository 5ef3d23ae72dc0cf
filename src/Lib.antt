-- ===== src/Lib.antt =====
-- A model of dbdky_gcc, which collects the measurements of devices on serial lines.
--
-- The parts of the program and how they interact. DeviceManager reads the configuration and fills
-- the registries: ports, the monitor units of a port, the measure points of a unit, the parameters
-- of a point. For each unit SerialPort starts a timer. When it fires, the port takes the codec of
-- the unit's protocol from CodecFactory, configures it for the unit's first measure point, lets it
-- make a query, and writes it to the line. A second thread runs the read loop, which gathers bytes
-- until the codec parses them, and hands the values on to be stored. The network layer under
-- src/port has the connections with their buffers, the connector that opens them, the channels by
-- which a poller watches them, the two pollers, the timers, and the loop that runs it all.
--
-- Which file models which part:
--   Crc        crc16 and its tables in src/crc.h; the codecs have the loop once more.
--   Buffer     the class Buffer of src/port/Buffer.h and Buffer.cpp, and the byte order of
--              src/port/Endian.h. An `assert` that fails is `none`.
--   Codec      src/CodecBase.h and what the codecs share; Codec/Mmxn and Codec/Zsar are
--              src/protocols/MMXN/CodecMMXN.cpp and src/protocols/ZSAR/CodecZSAR.cpp.
--   Connector  src/port/Connector.cpp: a state machine. The sockets that the system gives and the
--              outcome of connect are arguments; closed sockets, timers and queued functors are
--              part of the state.
--   PollPoller src/port/PollPoller.cpp, with the system call as a parameter; what it uses of
--              src/port/Channel.h stands in a store.
--   EPollPoller src/port/EPollPoller.cpp; epoll_ctl is a parameter with laws, epoll_wait an argument.
--   Channel    what src/port/Channel.h asks the poller for, and the callbacks of Channel.cpp.
--   TcpConnection src/port/TcpConnection.cpp over Buffer and Channel. What write and readv answer are
--              arguments; the bytes that the system took, the calls of the client's callbacks and the
--              queued functors are part of the state.
--   TcpServer  src/port/TcpServer.cpp and EventLoopThreadPool.cpp: the connections by their names, and the
--              turns of the loops. The loops that the threads return are a parameter.
--   EventLoop  the flags, the queue of functors and the descriptor of src/port/EventLoop.cpp, and the
--              steps of the loop's thread and of the others in any order; eventfd is a parameter.
--   TimerQueue src/port/TimerQueue.cpp, Timer.cpp and TimerId.h: the two sets as ascending lists of
--              pairs, the timers in a heap of addresses, the descriptor as the alarm it was set to.
--   Date       src/utils/Date.h and Date.cpp; Date/Calendar has the calendar as it is usually told.
--   TimeZone   src/utils/TimeZone.cpp; TimeZone/File has the reader of the zone files.
--   ThreadPool src/utils/ThreadPool.cpp: what a thread does under the mutex is one step, and the steps of
--              all threads are interleaved in any order.
--   LogFile    src/utils/LogFile.cpp and LogFile.h. What fwrite and time answer are arguments; the text
--              that fwrite took is the file's, so that a flush changes nothing.
--   LogStream  the integers and the fixed buffer of src/utils/LogStream.cpp and LogStream.h.
--   Loading    load and getFullParams of src/DeviceManager.cpp over Registry; Loading/Xml has the trees
--              that TinyXML makes of a file, as far as they are read.
--   Registry   src/param.h, src/MeasurePoint.cpp, src/MonitorUnit.cpp, and the maps of
--              src/SerialPort.cpp and src/DeviceManager.cpp.
--   SerialPort src/SerialPort.cpp, in SerialPort/Life the start and the end of a port, and getCodec of
--              src/CodecFactory.cpp.
--   Common     lists, numbers, decimal text, 32-bit and 64-bit arithmetic, and maps.
--   Tests      the theorems at concrete inputs.
-- An operation has the name of its C++ function in lower case with underscores, and takes and
-- returns the state that the member function changes. The endless loop of listen is modelled on
-- each finite sequence of its turns. The loops that take a number apart have as many rounds as the
-- number is large, and one more, which is more than it has digits. `none` stands for an access
-- outside an array or a failed assertion.
--
-- A signed overflow, which C++ leaves open, is taken to wrap at 32 bits; a sum of 64 bits of time is
-- taken not to overflow.
--
-- Parameters: the C library's mktime, gmtime_r and timegm, boost's lexical_cast, the floating-point type, the bytes
-- that uninitialised arrays hold, and the descriptor of eventfd. `listen` starts from the state
-- that the source sets up between two frames; the source leaves the counter undefined before the
-- first one.
--
-- Not modelled: the sizes of the text arrays that the parsers fill with strcpy and sprintf, so
-- the names in the configuration are taken to be shorter than 120 bytes; the branch MMXN_SETP,
-- which no build file asks for; the list of the files of a directory; the list of active channels
-- of the event loop, the callbacks and the destructor of a server, the client over the connections, the
-- sockets, the other parts of logging, and the libraries under third_party. Two timers share the codec
-- of a protocol: the model runs the timers and the turns of the read loop one after the other.
-- The loop's own calls, of a timer queue, a channel or a connection, are made in the loop's
-- thread, one after the other.
pub mod Common
pub mod Crc
pub mod Buffer
pub mod Codec
pub mod Registry
pub mod SerialPort
pub mod Channel
pub mod Connector
pub mod Date
pub mod EPollPoller
pub mod EventLoop
pub mod Loading
pub mod LogFile
pub mod LogStream
pub mod PollPoller
pub mod TcpConnection
pub mod TcpServer
pub mod ThreadPool
pub mod TimeZone
pub mod TimerQueue
pub mod Tests
