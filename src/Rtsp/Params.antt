-- ===== src/Rtsp/Params.antt =====
-- src/CRtspSession.cpp, `ParseRtspRequest`: the loop over the parameters of the transport.
use rtsp_h.Prelude.{ℕ, zero, suc, ◌≡◌, ◌≢◌, refl, false, ◌∷◌, Bytes, arith, ◌==◌}
use rtsp_h.Session.{Session}
use rtsp_h.Rtsp.Text.{cr, lf, strpbrk}
use rtsp_h.Rtsp.Parsed.{fault}
use rtsp_h.Rtsp.Parser.{param_loop}

-- A CR that no LF follows keeps the loop at its place: no number of rounds ends it.
pub param_loop-lone_cr :
    (k : ℕ) (s : Session) (c : ℕ) (rest : Bytes) → c ≢ lf → param_loop k s (cr ∷ c ∷ rest) ≡ fault
unfolding param_loop strpbrk
param_loop-lone_cr zero s c rest h = refl
param_loop-lone_cr (suc k) s c rest h =
    let no_lf : (c == lf) ≡ false = ground arith in rw no_lf (param_loop-lone_cr k s c rest h)
