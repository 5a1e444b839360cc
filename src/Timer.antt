-- ===== src/Timer.antt =====
-- boost::asio::steady_timer as the controllers use it (TurnController.hpp, VoteController.hpp): an
-- interface with the documented behaviour of its calls. `H` is what a wait's handler has captured.
-- A time is a count of nanoseconds. `elapse` is the environment's part: the expiry is reached, and
-- the handlers that wait are handed to the execution context.
use collab_vm_server.Base.{ℕ, ◌≡◌, refl, List, [], ◌∷◌, ◌++◌}

pub record TimerApi (H : Type 0) : Type 1 where
  pub Timer : Type 0
  pub expiry : Timer → ℕ
  pub waits : Timer → List H
  pub expires_at : ℕ → Timer → Timer
  pub async_wait : H → Timer → Timer
  pub cancel : Timer → Timer
  pub elapse : Timer → Timer
  pub expiry-expires_at : (t : ℕ) (tm : Timer) → expiry (expires_at t tm) ≡ t
  pub waits-expires_at : (t : ℕ) (tm : Timer) → waits (expires_at t tm) ≡ []
  pub expiry-async_wait : (h : H) (tm : Timer) → expiry (async_wait h tm) ≡ expiry tm
  pub waits-async_wait : (h : H) (tm : Timer) → waits (async_wait h tm) ≡ waits tm ++ h ∷ []
  pub expiry-cancel : (tm : Timer) → expiry (cancel tm) ≡ expiry tm
  pub waits-cancel : (tm : Timer) → waits (cancel tm) ≡ []
  pub waits-elapse : (tm : Timer) → waits (elapse tm) ≡ []

-- A timer that behaves so.
pub record PlainTimer (H : Type 0) : Type 0 where
  pub at : ℕ
  pub handlers : List H

abbrev pub plain_timer : (H : Type 0) → TimerApi H
plain_timer H = record {
  Timer = PlainTimer H;
  expiry = λ tm. tm.at;
  waits = λ tm. tm.handlers;
  expires_at = λ t tm. record { at = t; handlers = [] };
  async_wait = λ h tm. record { at = tm.at; handlers = tm.handlers ++ h ∷ [] };
  cancel = λ tm. record { at = tm.at; handlers = [] };
  elapse = λ tm. record { at = tm.at; handlers = [] };
  expiry-expires_at = λ t tm. refl;
  waits-expires_at = λ t tm. refl;
  expiry-async_wait = λ h tm. refl;
  waits-async_wait = λ h tm. refl;
  expiry-cancel = λ tm. refl;
  waits-cancel = λ tm. refl;
  waits-elapse = λ tm. refl;
}
