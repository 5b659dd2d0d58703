-- ===== src/Rtsp.antt =====
-- src/CRtspSession.cpp: the RTSP requests of one session, from the bytes of the socket to the answer.
pub mod Text
pub mod Parsed
pub mod Parser
pub mod Format
pub mod Decimal
pub mod Handlers
pub mod Inbox
pub mod Params
pub mod Parts
pub mod RequestLine
pub mod RoundTrip
pub mod Glued
pub mod Bounds
pub mod SetupTransport
pub mod ClientPort
pub mod WithTransport
pub mod OneRead
pub mod Asked
pub mod GluedReads
pub mod Play
pub mod Fine
pub mod FineLines
pub mod Returns
pub mod HeaderLines
pub mod Requests
pub mod Answers
pub mod Replies
pub mod Conversation
pub mod Total
