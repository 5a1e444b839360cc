-- ===== src/Captcha/Run.antt =====
-- CaptchaVerifier.hpp: what can happen to the verifier, in any order.
use collab_vm_server.Base.{
  ℕ, ◌≡◌, ◌≢◌, refl, sym, ap, ◌∙◌, subst, Bool, true, false, not, ◌&&◌, Option, none, some, List,
  [], ◌∷◌, ◌++◌, append-nil, append_assoc, if◌then◌else◌, ◌>>=◌, is_empty, Bool-cases, Option-cases,
  inl, inr,
}
use collab_vm_server.Message.{Text}
use collab_vm_server.Captcha.{
  VerifyRequest, CaptchaSettings, Operation, CaptchaVerifier, set_settings, current_settings,
  is_enabled, connect, send_request, verify, complete,
}
use collab_vm_server.Captcha.Order.{called, callbacks, callbacks-append, waiting, Fifo, Does}
use collab_vm_server.Captcha.Handlers.{connect-Does, send_request-Does, complete-Does}

-- Everything that can happen to the verifier. The stream can only be opened once `Connect` has run.
pub data CaptchaOp : Type 0 where
  sets : CaptchaSettings → CaptchaOp
  verifies : ℕ → Text → Text → Bool → CaptchaOp
  completes : Bool → Option Bool → CaptchaOp

-- The request that an operation makes, unless `Verify` answers at once.
abbrev pub accepted : CaptchaOp → CaptchaVerifier → List ℕ
accepted (sets c) v = []
accepted (verifies callback token ip is_open) v =
    if is_enabled v && not (is_empty token) then callback ∷ [] else []
accepted (completes error parsed) v = []

module _ (replace_all : Text → Text → Text → Text) where
  unfoldable pub captcha_step : CaptchaOp → CaptchaVerifier → Option CaptchaVerifier
  captcha_step (sets c) v = some (set_settings c v)
  captcha_step (verifies callback token ip is_open) v =
      verify replace_all callback token ip
        (is_open && elim v.settings as (λ o. Bool) [ none ↦ false | some c ↦ true ]) v
  captcha_step (completes error parsed) v = elim v.operations [
    | [] ↦ some v
    | o ∷ os ↦ complete replace_all o error parsed (record v { operations = os })
  ]

  unfoldable pub captcha_run :
      List CaptchaOp → List ℕ → CaptchaVerifier → Option (List ℕ × CaptchaVerifier)
  captcha_run [] log v = some (log, v)
  captcha_run (op ∷ ops) log v =
      captcha_step op v >>= λ v'. captcha_run ops (log ++ accepted op v) v'

  set_settings-Fifo :
      (c : CaptchaSettings) (log : List ℕ) (v : CaptchaVerifier)
      → Fifo log v
      → Fifo log (set_settings c v)
  unfolding set_settings
  set_settings-Fifo c log v f = record { order = f.order; bound = f.bound; state = f.state }

  -- `Verify` with a request that is made.
  made-Does :
      (r : VerifyRequest) (is_open : Bool) (log : List ℕ) (v : CaptchaVerifier)
      → Fifo log v
      → current_settings v ≢ none
      → (is_open ≡ true → v.settings ≢ none)
      → Does (log ++ r.callback ∷ []) (elim v.request as (λ q. Option CaptchaVerifier) [
        | some current ↦ some (record v { queue = v.queue ++ r ∷ [] })
        | none ↦
            let v' = record v { request = some r } in
            if is_open then send_request replace_all v' else connect v'
      ])
  made-Does r is_open log v f known opened = elim f.state [
    | inl (e, k, quiet) ↦
        let after = at_rest e k in
        elim (Bool-cases is_open) [
          | inl o ↦ elim (Option-cases v.settings) [
            | inl q ↦ absurd (opened o q)
            | inr (c, q) ↦
                rw (e, o)
                  (send_request-Does replace_all (log ++ r.callback ∷ [])
                    (record v { request = some r })
                    (record { order = after; engaged = (r, c, refl, q); quiet = quiet }))
          ]
          | inr o ↦
              rw (e, o)
                (connect-Does (log ++ r.callback ∷ []) (record v { request = some r }) r after refl
                  known quiet)
        ]
    | inr ((q, c, e, k), busy) ↦ rw e (
      record v { queue = v.queue ++ r ∷ [] },
      refl,
      record { order = queued q e; bound = f.bound; state = inr ((q, c, e, k), busy) },
    )
  ]
    where
      at_rest :
          v.request ≡ none
          → v.queue ≡ []
          → called v.answers ++ r.callback ∷ callbacks v.queue ≡ log ++ r.callback ∷ []
      at_rest e k =
          let before : called v.answers ++ [] ≡ log =
            ap (λ (o : Option VerifyRequest). called v.answers ++ callbacks (waiting o [])) (sym e)
            ∙ ap (λ (l : List VerifyRequest). called v.answers ++ callbacks (waiting v.request l))
                (sym k)
            ∙ f.order in
          ap (λ (l : List VerifyRequest). called v.answers ++ r.callback ∷ callbacks l) k
          ∙ ap (λ (l : List ℕ). l ++ r.callback ∷ []) (sym (append-nil (called v.answers)) ∙ before)

      queued :
          (q : VerifyRequest)
          → v.request ≡ some q
          → called v.answers ++ callbacks (waiting v.request (v.queue ++ r ∷ []))
            ≡ log ++ r.callback ∷ []
      queued q e =
          ap
            (λ (o : Option VerifyRequest).
              called v.answers ++ callbacks (waiting o (v.queue ++ r ∷ [])))
            e
          ∙ ap (λ (l : List ℕ). called v.answers ++ q.callback ∷ l)
              (callbacks-append v.queue (r ∷ []))
          ∙ sym (append_assoc (called v.answers) (q.callback ∷ callbacks v.queue) (r.callback ∷ []))
          ∙ ap (λ (l : List ℕ). l ++ r.callback ∷ [])
              (ap (λ (o : Option VerifyRequest). called v.answers ++ callbacks (waiting o v.queue))
                  (sym e)
                ∙ f.order)

  verify-Does :
      (callback : ℕ) (token ip : Text) (is_open : Bool) (log : List ℕ) (v : CaptchaVerifier)
      → Fifo log v
      → (is_open ≡ true → v.settings ≢ none)
      → Does
          (log ++ accepted (verifies callback token ip is_open) v)
          (verify replace_all callback token ip is_open v)
  unfolding verify
  verify-Does callback token ip is_open log v f opened = elim (Bool-cases (is_enabled v)) [
    | inr off ↦ rw off (
      record v { at_once = v.at_once ++ (callback, true) ∷ [] },
      refl,
      record { order = f.order ∙ sym (append-nil log); bound = f.bound; state = f.state },
    )
    | inl on ↦ elim (Bool-cases (is_empty token)) [
      | inl no_token ↦
          rw (on, no_token)
            (
              record v { at_once = v.at_once ++ (callback, false) ∷ [] },
              refl,
              record { order = f.order ∙ sym (append-nil log); bound = f.bound; state = f.state },
            )
      | inr has_token ↦
          rw (on, has_token)
            (made-Does (record { callback = callback; response_token = token; remote_ip = ip })
              is_open log v f (enabled-settings on) opened)
    ]
  ]
    where
      enabled-settings : is_enabled v ≡ true → current_settings v ≢ none
      enabled-settings on = λ e. absurd (
          cc (
            ap
              (λ (o : Option CaptchaSettings). elim o as (λ q. Bool) [
                | none ↦ false
                | some c ↦ c.enabled
              ])
              e))

  -- One step: it does not fault, and the log grows by what it accepts.
  captcha_step-Does :
      (op : CaptchaOp) (log : List ℕ) (v : CaptchaVerifier)
      → Fifo log v
      → Does (log ++ accepted op v) (captcha_step op v)
  unfolding captcha_step
  captcha_step-Does (sets c) log v f = (
    set_settings c v,
    refl,
    subst (λ l. Fifo l (set_settings c v)) (sym (append-nil log)) (set_settings-Fifo c log v f),
  )
  captcha_step-Does (verifies callback token ip is_open) log v f =
      verify-Does callback token ip (is_open && has_settings v.settings) log v f (known v.settings)
    where
      has_settings : Option CaptchaSettings → Bool
      has_settings o = elim o as (λ q. Bool) [ none ↦ false | some c ↦ true ]

      never : (b : Bool) → (b && false) ≢ true
      never true = λ e. cc
      never false = λ e. cc

      known : (o : Option CaptchaSettings) → (is_open && has_settings o) ≡ true → o ≢ none
      known none = λ e q. never is_open e
      known (some c) = λ e q. cc
  captcha_step-Does (completes error parsed) log v f = elim f.state [
    | inl (e, k, quiet) ↦ (v, idle quiet, subst (λ l. Fifo l v) (sym (append-nil log)) f)
    | inr (engaged, (o, busy)) ↦ rw busy (
        subst (λ l. Does l (complete replace_all o error parsed (record v { operations = [] })))
          (sym (append-nil log))
          (complete-Does replace_all o error parsed log (record v { operations = [] })
            (record { order = f.order; engaged = engaged; quiet = refl })))
  ]
    where
      idle : v.operations ≡ [] → captcha_step (completes error parsed) v ≡ some v
      idle quiet =
          ap
            (λ (l : List Operation). elim l as (λ q. Option CaptchaVerifier) [
              | [] ↦ some v
              | o ∷ os ↦ complete replace_all o error parsed (record v { operations = os })
            ])
            quiet

  -- From a state in order, the verifier never faults, whatever is asked of it and whatever the service
  -- does: the callbacks called so far, then those that wait, are all the accepted ones in the order of
  -- the requests; one operation is under way exactly when there is a request.
  pub captcha_run-Fifo :
      (ops : List CaptchaOp) (log : List ℕ) (v : CaptchaVerifier)
      → Fifo log v
      → (log' : List ℕ) × (v' : CaptchaVerifier) × (captcha_run ops log v ≡ some (log', v'))
        × Fifo log' v'
  unfolding captcha_run
  captcha_run-Fifo [] log v f = (log, v, refl, f)
  captcha_run-Fifo (op ∷ ops) log v f =
      let (v1, e, f1) = captcha_step-Does op log v f in
      let (log', v', e', f') = captcha_run-Fifo ops (log ++ accepted op v) v1 f1 in
      (log', v', rw e e', f')
