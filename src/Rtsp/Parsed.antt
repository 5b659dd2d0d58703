-- ===== src/Rtsp/Parsed.antt =====
-- src/CRtspSession.cpp: how `ParseRtspRequest` ends: a read or write out of bounds (or no end), a
-- `return false` with the session as it then is, or a value to go on with.
use rtsp_h.Prelude.{Bool, true, false, Option, none, some}
use rtsp_h.Session.{Session}

pub data Parsed {ℓ} (A : Type ℓ) : Type ℓ where
  fault : Parsed A
  refused : Session → Parsed A
  ok : A → Parsed A

infixl 5 ◌>>=◌
abbrev pub ◌>>=◌ {ℓ κ} : {A : Type ℓ} {B : Type κ} → Parsed A → (A → Parsed B) → Parsed B
fault >>= f = fault
refused s >>= f = refused s
ok a >>= f = f a

abbrev pub lift {ℓ} : {A : Type ℓ} → Option A → Parsed A
lift none = fault
lift (some a) = ok a

-- `if (!test) return false;`
abbrev pub require : Session → Bool → Parsed {0} (Unit {0})
require s true = ok tt
require s false = refused s
