-- ===== src/Captcha/Order.antt =====
-- CaptchaVerifier.hpp: the requests, the callbacks and the operations under way.
use collab_vm_server.Base.{
  ℕ, ◌<◌, ◌≡◌, refl, sym, ap, ◌∙◌, Bool, Option, none, some, List, [], ◌∷◌, ◌++◌, inr, ◌⊎◌,
}
use collab_vm_server.Captcha.{
  VerifyRequest, CaptchaSettings, Operation, retry_wait, CaptchaVerifier, max_fail_count, begin,
  answer_all,
}

-- The callbacks that have been called, and of the requests that wait.
abbrev pub called : List (ℕ × Bool) → List ℕ
called [] = []
called ((c, b) ∷ cs) = c ∷ called cs

abbrev pub callbacks : List VerifyRequest → List ℕ
callbacks [] = []
callbacks (r ∷ rs) = r.callback ∷ callbacks rs

pub called-append : (xs ys : List (ℕ × Bool)) → called (xs ++ ys) ≡ called xs ++ called ys
called-append [] ys = refl
called-append ((c, b) ∷ xs) ys = ap (λ (l : List ℕ). c ∷ l) (called-append xs ys)

pub callbacks-append :
    (xs ys : List VerifyRequest) → callbacks (xs ++ ys) ≡ callbacks xs ++ callbacks ys
callbacks-append [] ys = refl
callbacks-append (x ∷ xs) ys = ap (λ (l : List ℕ). x.callback ∷ l) (callbacks-append xs ys)

pub called-answer_all :
    (b : Bool) (rs : List VerifyRequest) → called (answer_all b rs) ≡ callbacks rs
called-answer_all b [] = refl
called-answer_all b (r ∷ rs) = ap (λ (l : List ℕ). r.callback ∷ l) (called-answer_all b rs)

-- A verifier without a request is at rest; one with a request has settings.
abbrev pub Engaged : CaptchaVerifier → Type 0
Engaged v =
    ((r : VerifyRequest) × (c : CaptchaSettings) × (v.request ≡ some r) × (v.settings ≡ some c))

-- The requests that wait: the current one and the queue.
abbrev pub waiting : Option VerifyRequest → List VerifyRequest → List VerifyRequest
waiting none queue = queue
waiting (some r) queue = r ∷ queue

-- The requests in the order of `log`: those whose callback has been called, and those that wait.
abbrev pub Ordered : List ℕ → CaptchaVerifier → Type 0
Ordered log v = called v.answers ++ callbacks (waiting v.request v.queue) ≡ log

pub record Fifo (log : List ℕ) (v : CaptchaVerifier) : Type 0 where
  pub order : Ordered log v
  pub bound : v.operations ≡ retry_wait ∷ [] → v.failed_count < max_fail_count
  pub state :
      ((v.request ≡ none) × (v.queue ≡ []) × (v.operations ≡ []))
      ⊎ (Engaged v × ((o : Operation) × (v.operations ≡ o ∷ [])))

-- What may go on: as `Fifo`, with no operation under way.
pub record Ready (log : List ℕ) (v : CaptchaVerifier) : Type 0 where
  pub order : Ordered log v
  pub engaged : Engaged v
  pub quiet : v.operations ≡ []

same_operation : (o p : Operation) → o ∷ [] ≡ p ∷ [] → o ≡ p
same_operation o p e = cc

pub begin-Fifo :
    (o : Operation) (log : List ℕ) (v : CaptchaVerifier)
    → (o ≡ retry_wait → v.failed_count < max_fail_count)
    → Ready log v
    → Fifo log (begin o v)
begin-Fifo o log v bound r =
    let one : v.operations ++ o ∷ [] ≡ o ∷ [] = ap (λ (l : List Operation). l ++ o ∷ []) r.quiet in
    record {
      order = r.order;
      bound = λ e. bound (same_operation o retry_wait (sym one ∙ e));
      state = inr (r.engaged, (o, one));
    }

-- A handler that succeeds, in a state that is in order.
abbrev pub Does : List ℕ → Option CaptchaVerifier → Type 0
Does log result = (v : CaptchaVerifier) × (result ≡ some v) × Fifo log v
