-- ===== src/Tests/Conversations.antt =====
-- A conversation of five requests.
use rtsp_h.Rtsp.Text.{codes}
use rtsp_h.Prelude.{ℕ, refl, List, [], ◌∷◌, arith, none, some}
use rtsp_h.Session.{new_session}
use rtsp_h.Rtsp.OneRead.{Method}
use rtsp_h.Rtsp.RequestLine.{request_line}
use rtsp_h.Rtsp.Conversation.{Conversed, converse-Conversed}
use rtsp_h.Rtsp.Requests.{Request, IsRequest}
use rtsp_h.Tests.Data.{system}
use rtsp_h.Tests.Requests.{url, url-IsUrl, rtsp, inbox}

abbrev pub asked : Method → ℕ → Request
asked q n = record { method = q; url = url; digit = n; digits = []; ports = none }

pub fits-options : IsRequest (asked Method.options b'1')
unfolding request_line
fits-options = record {
  url = url-IsUrl;
  number = ground arith;
  cseq_fits = omega arith;
  text_fits = omega arith;
  stream_fits = omega arith;
  ports_fit = tt;
}

pub fits-describe : IsRequest (asked Method.describe b'2')
unfolding request_line
fits-describe = record {
  url = url-IsUrl;
  number = ground arith;
  cseq_fits = omega arith;
  text_fits = omega arith;
  stream_fits = omega arith;
  ports_fit = tt;
}

-- SETUP with ports.
abbrev pub asked_setup : Request
asked_setup = record {
  method = Method.setup;
  url = url;
  digit = b'3';
  digits = [];
  ports = some (record { digit = b'7'; digits = codes "000"; second = codes "7001" });
}

pub fits-setup : IsRequest asked_setup
unfolding request_line
fits-setup = record {
  url = url-IsUrl;
  number = ground arith;
  cseq_fits = omega arith;
  text_fits = omega arith;
  stream_fits = omega arith;
  ports_fit = (refl, ground arith, ground arith, omega arith);
}

pub fits-play : IsRequest (asked Method.play b'4')
unfolding request_line
fits-play = record {
  url = url-IsUrl;
  number = ground arith;
  cseq_fits = omega arith;
  text_fits = omega arith;
  stream_fits = omega arith;
  ports_fit = tt;
}

pub fits-teardown : IsRequest (asked Method.teardown b'5')
unfolding request_line
fits-teardown = record {
  url = url-IsUrl;
  number = ground arith;
  cseq_fits = omega arith;
  text_fits = omega arith;
  stream_fits = omega arith;
  ports_fit = tt;
}

abbrev five : List Request
five =
    asked Method.options b'1'
    ∷ asked Method.describe b'2'
    ∷ asked_setup
    ∷ asked Method.play b'4'
    ∷ asked Method.teardown b'5'
    ∷ []

converse-Conversed_example : Conversed system [] five rtsp inbox
unfolding new_session
converse-Conversed_example =
    converse-Conversed system [] five rtsp inbox
      (fits-options, (fits-describe, (fits-setup, (fits-play, (fits-teardown, tt)))))
      (refl, (refl, (refl, (refl, tt)))) refl refl
