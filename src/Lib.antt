-- ===== src/Lib.antt =====
-- Verification library of the RTSP server for H.265.
--
-- The program reads a file of H.265 NAL units into memory. For a client that connects, a process runs
-- `workerThread` (main/main.cpp): a round either handles RTSP requests (src/CRtspSession.cpp, called by
-- `handleRequests` of src/CStreamer.cpp for each session) or takes the next unit of the file
-- (src/SimStreamer.cpp, with the search of src/AVC.cpp) and sends it as RTP packets
-- (src/CStreamer.cpp, with the context of src/RTPEnc.h and the stores of src/Utils.cpp).
--
-- Utils: `Load8`, `Load16`, `Load32`. A store gets a buffer and an offset; `none` is a fault.
-- Avc: `ff_avc_find_startcode_internal` and `ff_avc_find_startcode` on memory with an address, so that
--   the loops up to an aligned pointer and over words are as in the source.
-- Mux: `RTPMuxContext` and `initRTPMuxContext`.
-- Session: the fields of `CRtspSession`, its constructor, and `newCommandInit`.
-- Streamer: the fields of `CStreamer`, `rtpSendData` and `rtpSendNALH265`; what is sent is a log.
-- Transport: `InitUdpTransport` and `ReleaseUdpTransport`. Whether a port can be bound, and the
--   descriptors that `socket` gives, are parameters.
-- Rtsp: `ParseRtspRequest` (Text, Parsed, Parser), the handlers (Format, Handlers) and
--   `handleRequests` of a session (Inbox). A pointer into the receive buffer is the list of the bytes
--   from it on; a read behind the buffer is a fault. The date and what `socketread` gives are arguments.
-- Clients: the constructor, `addSession`, `setURI`, `handleRequests` and the destructor of `CStreamer`.
--   The sessions of a streamer are a list, in the order of the ring of src/LinkedListElement.h.
-- Ring: `LinkedListElement`, on a heap of two pointers per address.
-- Sim: `SelectNextNal`, `StreamNal`, and the sending branch of `workerThread`.
-- Server: the loop of `workerThread`; what each round reads from the sockets is an argument.
-- Posix: `socketread`, by what `recv` answers.
-- Files: `readFile`, by what `fopen`, `stat`, `malloc` and `fread` answer.
-- Program: `main` (main/main.cpp), its loop that accepts clients and forks, and the start of a worker.
--   A process is what it does at the end: a connection says whether `fork` returned 0 for it.
-- Esp32, Mbed: of the layers for other platforms (src/platglue-esp32.h, src/platglue-mbed.h), reading
--   and the UDP sockets on the ESP32, and `udpsocketcreate` on mbed.
-- Network: `udpInit` and `udpSend`; what `socket`, `inet_aton` and `sendto` answer are parameters.
-- RtpEnc: the senders of src/RTPEnc.cpp, which the server does not call: `rtpSendData`,
--   `rtpSendNALH264AVC`, `rtpSendNALH265`, `rtpSendH264AVC` and `rtpSendH265HEVC` to one peer.
-- Receiver: not part of the program; receivers by RFC 7798 and RFC 6184 (Receiver/H264), which say
--   what payloads mean. Likewise Sim/AnnexB says what a file of units looks like. Rtsp/Requests and
--   Rtsp/Answers say which requests a client sends and what an answer to them is.
-- Tests: the theorems at small inputs.
--
-- Fuel: the loops of Avc and Sim get the size of the memory, `port_loop` gets 29283 rounds for the 29282
-- ports, the fragments get the size of the unit: more rounds than each of these loops has. The
-- header loop of the parser gets the length of the buffer, every round passing two bytes at least.
-- The loop over the transport's parameters gets the length of the text; running out of it is a fault.
--
-- Not modelled: printing, the time that a round takes, the answers of `send` (the program ignores
-- them), and a file of 2 ^ 31 bytes or more. A NAL unit of layer 0
-- with temporal id 1 is assumed where fragments are put together, as the program writes that header.
mod Prelude
pub mod Posix
pub mod Files
pub mod Utils
pub mod Avc
pub mod Mux
pub mod Network
pub mod Session
pub mod Ring
pub mod Receiver
pub mod Streamer
pub mod Sim
pub mod RtpEnc
pub mod Transport
pub mod Clients
pub mod Rtsp
pub mod Server
pub mod Program
pub mod Esp32
pub mod Mbed
mod Tests
