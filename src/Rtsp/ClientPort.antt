-- ===== src/Rtsp/ClientPort.antt =====
-- src/CRtspSession.cpp and src/CStreamer.cpp: the ports of a client, from the header of SETUP to where
-- its packets go.
use rtsp_h.Session.{Session}
use rtsp_h.Rtsp.Handlers.{Rtsp}
