-- ===== src/Captcha/Examples.antt =====
-- CaptchaVerifier.hpp: runs.
use collab_vm_server.Base.{ℕ, true, false, none, some, List, [], ◌∷◌, ◌≡◌, refl, inl}
use collab_vm_server.Message.{Text}
use collab_vm_server.Captcha.{
  VerifyRequest, CaptchaSettings, resolve, CaptchaVerifier, new_verifier,
}
use collab_vm_server.Captcha.Order.{Fifo}
use collab_vm_server.Captcha.Run.{
  CaptchaOp, sets, verifies, completes, captcha_run, captcha_run-Fifo,
}
use collab_vm_server.Captcha.Failure.{
  Round, at_connect, at_handshake, three_rounds, connecting, captcha_run-three_rounds,
}

-- A text without variables.
abbrev same_text : Text → Text → Text → Text
same_text body variable value = body

abbrev service : CaptchaSettings
service = record {
  enabled = true;
  https = false;
  url_host = 99 ∷ [];
  url_path = 47 ∷ [];
  post_params = 112 ∷ [];
}

new_verifier-Fifo : Fifo [] new_verifier
new_verifier-Fifo = record {
  order = refl;
  bound = λ e. absurd (cc);
  state = inl (refl, refl, refl);
}

-- Two requests, of which the first is answered.
abbrev two_requests : List CaptchaOp
two_requests =
    sets service
    ∷ verifies 1 (116 ∷ []) [] false
    ∷ verifies 2 (117 ∷ []) [] false
    ∷ completes false none
    ∷ completes false none
    ∷ completes false none
    ∷ completes false (some true)
    ∷ []

captcha_run-Fifo_example :
    (log : List ℕ) × (v : CaptchaVerifier) × (captcha_run same_text two_requests [] new_verifier
      ≡ some (log, v))
    × Fifo log v
captcha_run-Fifo_example = captcha_run-Fifo same_text two_requests [] new_verifier new_verifier-Fifo

abbrev request_of : ℕ → VerifyRequest
request_of n = record { callback = n; response_token = 116 ∷ []; remote_ip = [] }

-- Nobody arrives, or the third request, and the handshake or the connection fails.
abbrev quiet_round : Round
quiet_round = record {
  arrivals = [];
  failure = at_handshake;
  resolved = true;
  waited = false;
  parsed = none;
}

abbrev busy_round : Round
busy_round = record quiet_round {
  arrivals = record { callback = 3; first = 116; rest = []; remote_ip = []; is_open = false } ∷ [];
  failure = at_connect;
}

captcha_run-three_rounds_example :
    captcha_run same_text (three_rounds true quiet_round busy_round quiet_round) (1 ∷ 2 ∷ []) (
      connecting same_text new_verifier
        (record service { https = true })
        (request_of 1)
        (request_of 2 ∷ [])
        0
        (resolve true ∷ []))
    ≡ some (
      1 ∷ 2 ∷ 3 ∷ [],
      record new_verifier {
        settings = some (record service { https = true });
        pending_settings = none;
        request = none;
        queue = [];
        failed_count = 3;
        operations = [];
        answers = (1, false) ∷ (2, false) ∷ (3, false) ∷ [];
      },
    )
captcha_run-three_rounds_example =
    captcha_run-three_rounds same_text new_verifier (record service { https = true }) (request_of 1)
      quiet_round busy_round quiet_round (1 ∷ 2 ∷ []) (request_of 2 ∷ []) refl
