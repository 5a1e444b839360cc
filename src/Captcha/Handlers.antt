-- ===== src/Captcha/Handlers.antt =====
-- CaptchaVerifier.hpp: the handlers keep the requests in order.
use collab_vm_server.Base.{
  List-cases, ℕ, ◌+◌, ◌≡◌, ◌≢◌, refl, sym, ap, ◌∙◌, Bool, true, false, Option, none, some, List, [],
  ◌∷◌, ◌++◌, append-nil, append_assoc, leb, arith, ◌>>=◌, Bool-cases, Option-cases, inl, inr,
}
use collab_vm_server.Message.{Text}
use collab_vm_server.Captcha.{
  take_settings, VerifyRequest, CaptchaSettings, Operation, resolve, connect_stream, handshake,
  write, read, retry_wait, CaptchaVerifier, max_fail_count, begin, answer, answer_all,
  current_settings, connect, fill_request, send_request, retry, on_read, complete,
}
use collab_vm_server.Captcha.Order.{
  called, called-append, callbacks, called-answer_all, waiting, Ordered, Ready, begin-Fifo, Does,
}

-- `Connect` needs settings only, from one place or the other.
pub connect-Does :
    (log : List ℕ) (v : CaptchaVerifier) (r : VerifyRequest)
    → Ordered log v
    → v.request ≡ some r
    → current_settings v ≢ none
    → v.operations ≡ []
    → Does log (connect v)
unfolding connect
connect-Does log v r order e known quiet = elim (Option-cases (current_settings v)) [
  | inl q ↦ absurd (known q)
  | inr (c, q) ↦ (
    begin (resolve c.https) (take_settings v),
    ap (λ (o : Option CaptchaSettings). o >>= λ d. some (begin (resolve d.https) (take_settings v)))
        q,
    begin-Fifo (resolve c.https) log (take_settings v) (λ e'. absurd (cc))
        (record { order = order; engaged = (r, c, e, q); quiet = quiet }),
  )
]

module _ (replace_all : Text → Text → Text → Text) where
  pub send_request-Does :
      (log : List ℕ) (v : CaptchaVerifier) → Ready log v → Does log (send_request replace_all v)
  unfolding send_request
  send_request-Does log v ready =
      let (r, c, e, q) = ready.engaged in
      let v' = record v { failed_count = 0; req = fill_request replace_all c r v.req } in
      (
        begin write v',
        rw (q, e) refl,
        begin-Fifo write log v' (λ e'. absurd (cc))
            (record { order = ready.order; engaged = (r, c, e, q); quiet = ready.quiet }),
      )

  retry-Does : (log : List ℕ) (v : CaptchaVerifier) → Ready log v → Does log (retry replace_all v)
  unfolding retry
  retry-Does log v ready =
      let (r, c, e, q) = ready.engaged in
      elim (Bool-cases (leb max_fail_count (v.failed_count + 1))) [
        | inr again ↦
            let v' = record v { failed_count = v.failed_count + 1 } in
            (
              begin retry_wait v',
              rw again refl,
              begin-Fifo retry_wait log v' (λ e'. ground arith)
                  (record { order = ready.order; engaged = (r, c, e, q); quiet = ready.quiet }),
            )
        | inl over ↦ (
          record v {
            failed_count = v.failed_count + 1;
            answers = v.answers ++ answer false r ∷ answer_all false v.queue;
            request = none;
            queue = [];
          },
          rw (over, e) refl,
          record {
            order = rejected r e;
            bound = λ e'. absurd (cc (sym ready.quiet ∙ e'));
            state = inl (refl, refl, ready.quiet);
          },
        )
      ]
    where
      rejected :
          (r : VerifyRequest)
          → v.request ≡ some r
          → called (v.answers ++ answer false r ∷ answer_all false v.queue) ++ [] ≡ log
      rejected r e =
          append-nil (called (v.answers ++ answer false r ∷ answer_all false v.queue))
          ∙ called-append v.answers (answer false r ∷ answer_all false v.queue)
          ∙ ap (λ (l : List ℕ). called v.answers ++ r.callback ∷ l)
              (called-answer_all false v.queue)
          ∙ ap (λ (q : Option VerifyRequest). called v.answers ++ callbacks (waiting q v.queue))
              (sym e)
          ∙ ready.order

  on_read-Does :
      (error : Bool) (parsed : Option Bool) (log : List ℕ) (v : CaptchaVerifier)
      → Ready log v
      → Does log (on_read replace_all error parsed v)
  unfolding on_read
  on_read-Does true parsed log v ready = retry-Does log v ready
  on_read-Does false parsed log v ready =
      let (r, c, e, q) = ready.engaged in
      let success : Bool = elim parsed [ none ↦ false | some b ↦ b ] in
      let v' = record v { answers = v.answers ++ answer success r ∷ [] } in
      elim (List-cases v.queue) [
        | inl k ↦ (
          record v' { request = none },
          last success r c (record v' { request = none }) q e k refl,
          record {
            order = answered success r e;
            bound = λ e'. absurd (cc (sym ready.quiet ∙ e'));
            state = inl (refl, k, ready.quiet);
          },
        )
        | inr (next, rest, k) ↦
            rw (q, e, k)
              (send_request-Does log (record v' { request = some next; queue = rest })
                (record {
                  order =
                      ap (λ (l : List VerifyRequest). called v'.answers ++ callbacks l) (sym k)
                      ∙ answered success r e;
                  engaged = (next, c, refl, q);
                  quiet = ready.quiet;
                }))
      ]
    where
      last :
          (success : Bool) (r : VerifyRequest) (c : CaptchaSettings) (w : CaptchaVerifier)
          → v.settings ≡ some c
          → v.request ≡ some r
          → v.queue ≡ []
          → record v { answers = v.answers ++ answer success r ∷ []; request = none } ≡ w
          → on_read replace_all false (some success) v ≡ some w
      last success r c w q e k h = rw (q, e, k) (ap some h)

      answered :
          (success : Bool) (r : VerifyRequest)
          → v.request ≡ some r
          → called (v.answers ++ answer success r ∷ []) ++ callbacks v.queue ≡ log
      answered success r e =
          ap (λ (l : List ℕ). l ++ callbacks v.queue)
            (called-append v.answers (answer success r ∷ []))
          ∙ append_assoc (called v.answers) (r.callback ∷ []) (callbacks v.queue)
          ∙ ap (λ (o : Option VerifyRequest). called v.answers ++ callbacks (waiting o v.queue))
              (sym e)
          ∙ ready.order

  -- The handler of whichever operation was under way.
  pub complete-Does :
      (o : Operation) (error : Bool) (parsed : Option Bool) (log : List ℕ) (v : CaptchaVerifier)
      → Ready log v
      → Does log (complete replace_all o error parsed v)
  unfolding complete
  complete-Does (resolve ssl) error parsed log v ready = (
    begin (connect_stream ssl) v,
    refl,
    begin-Fifo (connect_stream ssl) log v (λ e. absurd (cc)) ready,
  )
  complete-Does (connect_stream ssl) true parsed log v ready = retry-Does log v ready
  complete-Does (connect_stream true) false parsed log v ready =
      (begin handshake v, refl, begin-Fifo handshake log v (λ e. absurd (cc)) ready)
  complete-Does (connect_stream false) false parsed log v ready = send_request-Does log v ready
  complete-Does handshake true parsed log v ready = retry-Does log v ready
  complete-Does handshake false parsed log v ready = send_request-Does log v ready
  complete-Does write true parsed log v ready = retry-Does log v ready
  complete-Does write false parsed log v ready =
      (begin read v, refl, begin-Fifo read log v (λ e. absurd (cc)) ready)
  complete-Does read error parsed log v ready = on_read-Does error parsed log v ready
  complete-Does retry_wait error parsed log v ready =
      let (r, c, e, q) = ready.engaged in
      connect-Does log v r ready.order e (has_settings c q v.pending_settings) ready.quiet
    where
      has_settings :
          (c : CaptchaSettings)
          → v.settings ≡ some c
          → (p : Option CaptchaSettings)
          → (elim p as (λ o. Option CaptchaSettings) [ none ↦ v.settings | some d ↦ some d ]) ≢ none
      has_settings c q none = λ e. cc
      has_settings c q (some d) = λ e. cc
