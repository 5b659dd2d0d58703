-- ===== src/Clients.antt =====
-- src/CStreamer.cpp: the sessions of a streamer, added, served and deleted. What a session that does
-- not stop keeps is written back at its place in the list.
pub mod Served
use rtsp_h.Prelude.{
  ℕ, Bool, true, false, not, ◌&&◌, Option, none, some, List, [], ◌∷◌, ◌++◌, if◌then◌else◌, ◌>>=◌,
  Bytes, length, ℤ, pos,
}
use rtsp_h.Session.{Session, new_session}
use rtsp_h.Streamer.{Streamer, Sent}
use rtsp_h.Transport.{Udp, System, udpsocketclose, release_udp_transport}
use rtsp_h.Rtsp.Text.{codes}
use rtsp_h.Rtsp.Handlers.{Rtsp}
use rtsp_h.Rtsp.Inbox.{Inbox, clear_full, room, handle_requests}

-- The constructor
unfoldable pub new_streamer : ℕ → ℕ → Streamer
new_streamer width height = record {
  rtp_socket = 0;
  rtcp_socket = 0;
  rtp_server_port = 0;
  rtcp_server_port = 0;
  sequence_number = 0;
  timestamp = 0;
  send_idx = 0;
  clients = [];
  prev_msec = 0;
  udp_ref_count = pos 0;
  width = width;
  height = height;
  debug = false;
  uri_host = codes "127.0.0.1:554";
  uri_presentation = codes "live";
  uri_stream = codes "1";
}

abbrev pub with_clients : Udp → List Session → Udp
with_clients u ss = record u { str = record (u.str) { clients = ss } }

-- `addSession`: the constructor of a session puts it at the end of the list.
unfoldable pub add_session : Udp → ℕ → ℕ → Udp
add_session u random socket =
    with_clients u
      (u.str.clients ++ record (new_session random socket) { debug = u.str.debug } ∷ [])

-- `setURI`
unfoldable pub set_uri : Streamer → Bytes → Bytes → Bytes → Streamer
set_uri str hostport pres stream = record str {
  uri_host = hostport;
  uri_presentation = pres;
  uri_stream = stream;
}

abbrev pub is_empty : List Session → Bool
is_empty [] = true
is_empty (_ ∷ _) = false

-- `anySessions`
unfoldable pub any_sessions : Streamer → Bool
any_sessions str = not (is_empty str.clients)

-- The destructor of a session, less the list.
unfoldable pub close_session : Udp → Session → Udp
close_session u s = udpsocketclose (release_udp_transport u) s.rtsp_client

-- The destructor of the streamer
abbrev pub close_all : Udp → List Session → Udp
close_all u [] = u
close_all u (s ∷ ss) = close_all (close_session u s) ss

unfoldable pub destroy : Udp → Udp
destroy u = with_clients (close_all u u.str.clients) []

-- The sockets, the log and the receive buffer, as one session leaves them to the next.
pub record Round : Type 0 where
  pub udp : Udp
  pub sent : List Sent
  pub inbox : Inbox

-- What `handleRequests` of one session gives, with the session deleted if it stopped.
unfoldable pub after_session : Rtsp → Inbox → Round
after_session r b = record {
  udp = if r.session.stopped then close_session r.udp r.session else r.udp;
  sent = r.sent;
  inbox = b;
}

module _ (sys : System) (date : Bytes) (socketread : ℕ → ℕ → Option Bytes) where
  -- The loop of `CStreamer::handleRequests`, with the sessions that are left.
  unfoldable pub serve_clients : List Session → Round → Option (Bool × List Session × Round)
  serve_clients [] w = some (true, [], w)
  serve_clients (s ∷ ss) w = do
    let received = socketread s.rtsp_client (room (clear_full w.inbox))
    (answered, r, b) ←
        handle_requests sys date received (record { session = s; udp = w.udp; sent = w.sent })
          w.inbox
    (others, left, w') ← serve_clients ss (after_session r b)
    some (answered && others, (if r.session.stopped then left else r.session ∷ left), w')

  -- `CStreamer::handleRequests`
  unfoldable pub handle_all : Round → Option (Bool × Round)
  handle_all w = do
    (answered, left, w') ← serve_clients w.udp.str.clients w
    some (answered, record w' { udp = with_clients w'.udp left })
