-- ===== src/Lib.antt =====
-- MyRtspServer: an RTSP server that streams H.264 and AAC files over RTP.
--
-- The parts of the program and how they work together. An event loop waits for sockets and timers.
-- A connection's bytes go into a buffer (`Buffer`); the connection parses a request out of it and
-- answers (`Rtsp`), with the sessions that the server keeps by name (`Rtsp/World`). A session
-- (`Session`) has two tracks; SETUP registers an instance of the connection with a track, PLAY wakes
-- it. A timer (`Timer`) lets a sink (`Rtp/H264`, `Rtp/Aac`) take a frame from its source (`Source`),
-- cut it into RTP packets, and hand each to the session, which sends it by every instance of the track
-- that is alive (`Rtp/Instance`). A connection that is lost is listed, and deleted when the loop
-- handles the server's trigger event (`Server`). The loop (`Scheduler`) asks the poller (`Poller`)
-- which sockets are ready; a connection keeps its socket's flags there (`TcpConnection`). The frames
-- are read by the workers of a pool of threads (`ThreadPool`), and every part writes to a log (`Log`).
--
-- Which file models which code:
--   Prelude: shared tests, lists, machine words and text; no code of its own.
--   Buffer: include/net/buffer.h and src/net/buffer.cpp. `Buffer` is the class's state, the block a
--     list of bytes; a function per method; `Buffer/Search` has FindCRLF and FindLastCRLF.
--   Rtp: include/net/rtp.h and include/net/rtpsink.h. `send_rtp_packet` is SendRtpPacket, and the
--     callback is a trace. `Rtp/H264` and `Rtp/Aac`: HandleFrame of src/net/h264rtp_sink.cpp and
--     src/net/aac_rtp_sink.cpp. `Rtp/Instance`: include/net/rtp_instance.h and
--     include/net/inet_address.h, with the bytes on the wire.
--   Timer: include/net/timer.h and src/net/timer.cpp. `m_timers_map_` is an association list,
--     `m_events_map_` a list sorted by key, the timer file the value it is set to.
--   Session: include/net/media_session.h and src/net/media_session.cpp, with GenerateSdpDescription
--     in `Session/Sdp`.
--   Rtsp: include/net/rtsp_connection.h and src/net/rtsp_connection.cpp. `Rtsp/Scan` is what it uses
--     of the C library's scanning, `Rtsp/RequestLine` and `Rtsp/Request` the parser, `Rtsp/Ports`
--     CreateRtpRtcpOverUdp, `Rtsp/Answer` SendMessage and the handlers of OPTIONS and DESCRIBE,
--     `Rtsp/Response` the other handlers and the destructor, `Rtsp/Creation` the constructor,
--     `Rtsp/Connection` HandleReadBytes, with HandleRead of src/net/tcp_connection.cpp.
--     `Rtsp/World`: the sessions of src/net/rtsp_server.cpp, and the heap of instances.
--   Server: the connections of src/net/rtsp_server.cpp, and HandleTriggleEvents of
--     src/net/event_scheduler.cpp. A deletion runs the destructors of the connection: they delete its
--     instances, take its event from the poller and close its socket; `Server/Owners` counts who
--     owns an instance. `Server/Accepting` is the server with its acceptor and the poller,
--     `Server/Url` GetUrl.
--   Sockets: src/net/socket_ops.cpp and include/net/tcp_socket.h, as programs that make calls;
--     `Sockets/System` is what the calls are. Acceptor: include/net/acceptor.h.
--   Source: include/net/media_source.h and src/net/h264media_source.cpp; `Source/Aac` is
--     src/net/aac_media_source.cpp, and `Source/Delivery` the timer of include/net/rtpsink.h, which
--     takes a frame from the source to the sink. `Source/Creation` opens the files.
--   ThreadPool: include/base/threadpool.h and src/base/threadpool.cpp, as a step relation on the
--     queue, the flag and where each thread stands.
--   Log: include/base/logbuffer.h, include/base/log.h and src/base/log.cpp. `Log/Writing` has Write
--     and the macros, which choose between the terminal and the buffers.
--   Poller: `IOEvent` of include/net/event.h, include/base/epollpoller.h and src/base/epollpoller.cpp.
--   TcpConnection: the event of a connection, of src/net/tcp_connection.cpp; `TcpConnection/Defaults`
--     has the handlers that a class which derives from it may keep.
--   Scheduler: include/net/event_scheduler.h and src/net/event_scheduler.cpp, with `TriggerEvent` of
--     include/net/event.h. `Scheduler/Construction` builds it and takes it down, with the constructor
--     of src/net/timer.cpp.
--   Program: src/main.cpp and include/net/usageenvironment.h, up to the loop.
-- The multicast of a session is `Session/Multicast`; the sinks' lines of its description are
-- `Rtp/H264/Description` and `Rtp/Aac/Description`.
--
-- Conventions. A pointer is a number or an `Option`; a call that an assert stops, or that reads
-- or writes outside of its memory, is `none`. Words of 8, 16 and 32 bits wrap around as in the
-- source. What the system answers (readv, sockets, clocks, random numbers, file bytes) is a
-- parameter, and so are `realloc`, with its documented behaviour as `IsRealloc`, `epoll_ctl`
-- (`IsEpoll`), `fcntl` (`IsFcntl`), the reads and seeks of a file (`IsFile`), and what the
-- callbacks of the loop do. Threads are interleaved step by step: what holds a mutex is one
-- step.
--
-- Fuel. HandleTimerEvent has one round more than there are entries: each round has one due entry
-- fewer, since a timer that repeats goes behind the present. The search for a start code has the
-- rounds of the source's loop, and CreateRtpRtcpOverUdp its ten.
--
-- The loop of HandleOtherEvent has any fuel, since it does not end. HandleRead of the scheduler
-- needs two reads of the eventfd, and GetLocalIp as many rounds as there are entries.
--
-- Not modelled: what the log's writing thread, which the destructor does not wait for, does with the
-- file once it is closed; SetNoSigpipe does nothing. Of a run of `main` that faults, only the fault is
-- told.
pub mod Prelude
pub mod Buffer
pub mod Rtp
pub mod Timer
pub mod Session
pub mod Rtsp
pub mod Server
pub mod Source
pub mod ThreadPool
pub mod Log
pub mod Poller
pub mod TcpConnection
pub mod Scheduler
pub mod Sockets
pub mod Acceptor
pub mod Program
