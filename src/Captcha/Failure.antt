-- ===== src/Captcha/Failure.antt =====
-- CaptchaVerifier.hpp: a captcha service that cannot be reached.
use collab_vm_server.Base.{
  ℕ, ◌+◌, ◌≡◌, refl, ◌∙◌, Bool, true, false, Option, none, some, List, [], ◌∷◌, ◌++◌, leb,
  append-nil, append_assoc,
}
use collab_vm_server.Message.{Text}
use collab_vm_server.Captcha.{
  VerifyRequest, CaptchaSettings, Operation, resolve, CaptchaVerifier, answer, answer_all, connect,
  verify, retry, complete,
}
use collab_vm_server.Captcha.Run.{CaptchaOp, verifies, completes, captcha_step, captcha_run}

-- A request with a token that is not empty.
pub record Arrival : Type 0 where
  pub callback : ℕ
  pub first : ℕ
  pub rest : Text
  pub remote_ip : Text
  pub is_open : Bool

-- An attempt fails when the stream is connected, or in the handshake of a stream with TLS.
pub data Failure : Type 0 where
  at_connect at_handshake : Failure

-- The requests that arrive before an attempt, how the attempt fails, and what the handlers are told
-- that do not look at it.
pub record Round : Type 0 where
  pub arrivals : List Arrival
  pub failure : Failure
  pub resolved : Bool
  pub waited : Bool
  pub parsed : Option Bool

abbrev pub request_of : Arrival → VerifyRequest
request_of a = record {
  callback = a.callback;
  response_token = a.first ∷ a.rest;
  remote_ip = a.remote_ip;
}

abbrev pub requests_of : List Arrival → List VerifyRequest
requests_of [] = []
requests_of (a ∷ more) = request_of a ∷ requests_of more

abbrev pub callbacks_of : List Arrival → List ℕ
callbacks_of [] = []
callbacks_of (a ∷ more) = a.callback ∷ callbacks_of more

abbrev pub arrive : List Arrival → List CaptchaOp → List CaptchaOp
arrive [] ops = ops
arrive (a ∷ more) ops =
    verifies a.callback (a.first ∷ a.rest) a.remote_ip a.is_open ∷ arrive more ops

-- The completions of an attempt that fails.
abbrev pub failing : Bool → Failure → Bool → Option Bool → List CaptchaOp → List CaptchaOp
failing true at_handshake e p ops = completes e p ∷ completes false p ∷ completes true p ∷ ops
failing true at_connect e p ops = completes e p ∷ completes true p ∷ ops
failing false k e p ops = completes e p ∷ completes true p ∷ ops

abbrev pub attempt : Bool → Round → List CaptchaOp → List CaptchaOp
attempt https k ops = failing https k.failure k.resolved k.parsed ops

-- Two rounds with the wait for the next attempt, and the last one.
abbrev pub three_rounds : Bool → Round → Round → Round → List CaptchaOp
three_rounds https k1 k2 k3 = arrive k1.arrivals (
    attempt https k1 (
      completes k1.waited k1.parsed
      ∷ arrive k2.arrivals (
          attempt https k2
            (completes k2.waited k2.parsed ∷ arrive k3.arrivals (attempt https k3 [])))))

module _ (replace_all : Text → Text → Text → Text) (v : CaptchaVerifier) (c : CaptchaSettings)
    (r : VerifyRequest) where
  -- A connection is under way for the request `r`, others wait.
  abbrev pub connecting : List VerifyRequest → ℕ → List Operation → CaptchaVerifier
  connecting waiting failed operations = record v {
    settings = some c;
    pending_settings = none;
    request = some r;
    queue = waiting;
    failed_count = failed;
    operations = operations;
  }

  arrive-run :
      (more : List Arrival) (ops : List CaptchaOp) (log : List ℕ) (waiting : List VerifyRequest)
      (failed : ℕ) (operations : List Operation)
      → c.enabled ≡ true
      → captcha_run replace_all (arrive more ops) log (connecting waiting failed operations)
        ≡ captcha_run replace_all ops
            (log ++ callbacks_of more)
            (connecting (waiting ++ requests_of more) failed operations)
  unfolding captcha_run captcha_step verify
  arrive-run [] ops log waiting failed operations e = rw (append-nil log, append-nil waiting) refl
  arrive-run (a ∷ more) ops log waiting failed operations e = simp e (
      arrive-run more ops (log ++ a.callback ∷ []) (waiting ++ request_of a ∷ []) failed operations
        e
      ∙ rw
          (
            append_assoc log (a.callback ∷ []) (callbacks_of more),
            append_assoc waiting (request_of a ∷ []) (requests_of more),
          )
          refl)

  -- An attempt that is not the last one, and the wait after it.
  failing-run :
      (https : Bool) (k : Failure) (e waited : Bool) (p : Option Bool) (ops : List CaptchaOp)
      (log : List ℕ) (waiting : List VerifyRequest) (failed : ℕ)
      → c.https ≡ https
      → leb 3 (failed + 1) ≡ false
      → captcha_run replace_all
          (failing https k e p (completes waited p ∷ ops))
          log
          (connecting waiting failed (resolve https ∷ []))
        ≡ captcha_run replace_all ops log (connecting waiting (failed + 1) (resolve https ∷ []))
  unfolding captcha_run captcha_step complete retry connect
  failing-run true at_handshake e waited p ops log waiting failed h l =
      simp (l, h, append-nil log) refl
  failing-run true at_connect e waited p ops log waiting failed h l =
      simp (l, h, append-nil log) refl
  failing-run false k e waited p ops log waiting failed h l = simp (l, h, append-nil log) refl

  -- The last attempt.
  abbrev given_up : List VerifyRequest → CaptchaVerifier
  given_up waiting = record v {
    settings = some c;
    pending_settings = none;
    request = none;
    queue = [];
    failed_count = 3;
    operations = [];
    answers = v.answers ++ answer false r ∷ answer_all false waiting;
  }

  last-run :
      (https : Bool) (k : Failure) (e : Bool) (p : Option Bool) (log : List ℕ)
      (waiting : List VerifyRequest)
      → captcha_run replace_all
          (failing https k e p [])
          log
          (connecting waiting 2 (resolve https ∷ []))
        ≡ some (log, given_up waiting)
  unfolding captcha_run captcha_step complete retry
  last-run true at_handshake e p log waiting = simp (append-nil log) refl
  last-run true at_connect e p log waiting = simp (append-nil log) refl
  last-run false k e p log waiting = simp (append-nil log) refl

  -- A connection is under way with settings that ask for captchas, no attempt has failed and no new
  -- settings come. However each of three attempts fails, at the connection or at the handshake, and
  -- whatever requests arrive before them: the callbacks of the request, of those that waited and of those
  -- that arrived are called with false in this order, and the verifier is at rest.
  pub captcha_run-three_rounds :
      (k1 k2 k3 : Round) (log : List ℕ) (waiting : List VerifyRequest)
      → c.enabled ≡ true
      → captcha_run replace_all
          (three_rounds c.https k1 k2 k3)
          log
          (connecting waiting 0 (resolve c.https ∷ []))
        ≡ some (
          ((log ++ callbacks_of k1.arrivals) ++ callbacks_of k2.arrivals)
              ++ callbacks_of k3.arrivals,
          given_up (
              ((waiting ++ requests_of k1.arrivals) ++ requests_of k2.arrivals)
              ++ requests_of k3.arrivals),
        )
  captcha_run-three_rounds k1 k2 k3 log waiting e =
      let s = c.https in
      let l1 = log ++ callbacks_of k1.arrivals in
      let l2 = l1 ++ callbacks_of k2.arrivals in
      let w1 = waiting ++ requests_of k1.arrivals in
      let w2 = w1 ++ requests_of k2.arrivals in
      arrive-run k1.arrivals _ log waiting 0 (resolve s ∷ []) e
      ∙ failing-run s k1.failure k1.resolved k1.waited k1.parsed _ l1 w1 0 refl refl
      ∙ arrive-run k2.arrivals _ l1 w1 1 (resolve s ∷ []) e
      ∙ failing-run s k2.failure k2.resolved k2.waited k2.parsed _ l2 w2 1 refl refl
      ∙ arrive-run k3.arrivals _ l2 w2 2 (resolve s ∷ []) e
      ∙ last-run s k3.failure k3.resolved k3.parsed (l2 ++ callbacks_of k3.arrivals)
          (w2 ++ requests_of k3.arrivals)
