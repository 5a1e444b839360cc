-- ===== src/Outbox/Order.antt =====
-- CollabVmServer.hpp: the order in which a client's messages are written.
use collab_vm_server.Base.{
  is_empty, ℕ, zero, suc, ◌≡◌, refl, sym, ap, ◌∙◌, subst, Bool, true, false, List, [], ◌∷◌, ◌++◌,
  append-nil, append_assoc, arith, Bool-cases, inl, inr, ◌⊎◌,
}
use collab_vm_server.Outbox.{
  Outbox, send_message_callback, queue_message, queue_message_batch, write_message,
}

pub data OutboxOp : Type 0 where
  queues : ℕ → OutboxOp
  batches : List ℕ → OutboxOp
  completes : Bool → OutboxOp

-- A write's handler can only run while the write is outstanding.
unfoldable pub outbox_step : OutboxOp → Outbox → Outbox
outbox_step (queues m) o = queue_message m o
outbox_step (batches ms) o = queue_message_batch ms o
outbox_step (completes error) o = elim o.outstanding [
  | zero ↦ o
  | suc n ↦ send_message_callback error (record o { outstanding = n })
]

pub outbox_run : List OutboxOp → Outbox → Outbox
outbox_run [] o = o
outbox_run (op ∷ ops) o = outbox_run ops (outbox_step op o)

-- The messages that are queued by an operation, and by several.
abbrev pub queued : OutboxOp → List ℕ
queued (queues m) = m ∷ []
queued (batches ms) = ms
queued (completes error) = []

abbrev pub all_queued : List OutboxOp → List ℕ
all_queued [] = []
all_queued (op ∷ ops) = queued op ++ all_queued ops

abbrev pub flatten : List (List ℕ) → List ℕ
flatten [] = []
flatten (ms ∷ mss) = ms ++ flatten mss

flatten-last : (mss : List (List ℕ)) (ms : List ℕ) → flatten (mss ++ ms ∷ []) ≡ flatten mss ++ ms
flatten-last [] ms = append-nil ms
flatten-last (x ∷ mss) ms =
    ap (λ (t : List ℕ). x ++ t) (flatten-last mss ms) ∙ sym (append_assoc x (flatten mss) ms)

-- The messages that were queued so far, in order: those written, and those that wait. There is a write
-- outstanding exactly while the socket sends and has not been closed, and then only one.
pub record Sends (log : List ℕ) (o : Outbox) : Type 0 where
  pub order : flatten o.writes ++ o.send_queue ≡ log
  pub idle : o.sending ≡ false → (o.send_queue ≡ []) × (o.outstanding ≡ 0) × (o.closed ≡ false)
  pub busy : o.sending ≡ true → o.closed ≡ false → o.outstanding ≡ 1
  pub failed : o.closed ≡ true → o.outstanding ≡ 0

-- Messages that join the queue.
pushed-Sends :
    (ms log : List ℕ) (o : Outbox)
    → o.sending ≡ true
    → Sends log o
    → Sends (log ++ ms) (record o { send_queue = o.send_queue ++ ms; sending = true })
pushed-Sends ms log o e s = record {
  order =
      sym (append_assoc (flatten o.writes) o.send_queue ms) ∙ ap (λ (l : List ℕ). l ++ ms) s.order;
  idle = λ f. absurd (cc);
  busy = λ f g. s.busy e g;
  failed = s.failed;
}

-- A socket that writes all that waits.
written-Sends :
    (ms log : List ℕ) (o : Outbox)
    → flatten o.writes ++ ms ≡ log
    → o.closed ≡ false
    → o.outstanding ≡ 0
    → Sends log (write_message ms (record o { send_queue = []; sending = true }))
written-Sends ms log o e c n = record {
  order = append-nil (flatten (o.writes ++ ms ∷ [])) ∙ flatten-last o.writes ms ∙ e;
  idle = λ f. absurd (cc);
  busy = λ f g. omega (arith, n);
  failed = λ f. absurd (cc);
}

-- When nothing is being sent, the log has been written.
idle-order : (log : List ℕ) (o : Outbox) → o.send_queue ≡ [] → Sends log o → flatten o.writes ≡ log
idle-order log o e s =
    sym (append-nil (flatten o.writes))
    ∙ ap (λ (q : List ℕ). flatten o.writes ++ q) (sym e)
    ∙ s.order

queues-Sends :
    (m : ℕ) (log : List ℕ) (o : Outbox) → Sends log o → Sends (log ++ m ∷ []) (queue_message m o)
unfolding queue_message
queues-Sends m log o s = elim (Bool-cases o.sending) [
  | inl e ↦ rw e (pushed-Sends (m ∷ []) log o e s)
  | inr e ↦
      let (q, n, c) = s.idle e in
      rw (e, q)
        (written-Sends (m ∷ []) (log ++ m ∷ []) o
          (ap (λ (l : List ℕ). l ++ m ∷ []) (idle-order log o q s)) c n)
]

idle-batch :
    (ms log : List ℕ) (o : Outbox)
    → Sends log o
    → o.sending ≡ false
    → Sends (log ++ ms) (queue_message_batch ms o)
unfolding queue_message_batch
idle-batch [] log o s e =
    let (q, n, c) = s.idle e in
    rw (q, append-nil log)
      (record {
        order = append-nil (flatten o.writes) ∙ idle-order log o q s;
        idle = λ f. (refl, n, c);
        busy = s.busy;
        failed = s.failed;
      })
idle-batch (m ∷ ms) log o s e =
    let (q, n, c) = s.idle e in
    rw (q, e)
      (written-Sends (m ∷ ms) (log ++ m ∷ ms) o
        (ap (λ (l : List ℕ). l ++ m ∷ ms) (idle-order log o q s)) c n)

batches-Sends :
    (ms log : List ℕ) (o : Outbox) → Sends log o → Sends (log ++ ms) (queue_message_batch ms o)
unfolding queue_message_batch
batches-Sends ms log o s = elim (Bool-cases o.sending) [
  | inl e ↦ elim (Bool-cases (is_empty (o.send_queue ++ ms))) [
    | inl f ↦ rw (e, f) (pushed-Sends ms log o e s)
    | inr f ↦ rw (e, f) (pushed-Sends ms log o e s)
  ]
  | inr e ↦ idle-batch ms log o s e
]

-- A socket with a write outstanding is sending, open, and has no other.
active :
    (log : List ℕ) (n : ℕ) (o : Outbox)
    → Sends log o
    → o.outstanding ≡ suc n
    → (o.sending ≡ true) × (o.closed ≡ false) × (n ≡ 0)
active log n o s e =
    let open_ = not_closed (Bool-cases o.closed) in
    let on = is_sending (Bool-cases o.sending) in (on, open_, omega (arith, e, s.busy on open_))
  where
    not_closed : (o.closed ≡ true) ⊎ (o.closed ≡ false) → o.closed ≡ false
    not_closed (inl c) = absurd (omega (arith, e, s.failed c))
    not_closed (inr c) = c

    is_sending : (o.sending ≡ true) ⊎ (o.sending ≡ false) → o.sending ≡ true
    is_sending (inl c) = c
    is_sending (inr c) = absurd (omega (arith, e, (s.idle c).1))

-- A socket whose one write is done: `n` is what is then outstanding.
done-Sends :
    (error : Bool) (queue log : List ℕ) (n : ℕ) (o : Outbox)
    → Sends log o
    → o.outstanding ≡ suc n
    → o.send_queue ≡ queue
    → Sends log (send_message_callback error (record o { outstanding = n }))
unfolding send_message_callback
done-Sends true queue log n o s e q =
    let (on, c, z) = active log n o s e in
    record { order = s.order; idle = λ f. absurd (cc); busy = λ f g. absurd (cc); failed = λ f. z }
done-Sends false [] log n o s e q =
    let (on, c, z) = active log n o s e in
    rw q
      (record { order = s.order; idle = λ f. (q, z, c); busy = λ f. absurd (cc); failed = λ f. z })
done-Sends false (m ∷ []) log n o s e q =
    let (on, c, z) = active log n o s e in
    rw (q, on) (written-Sends (m ∷ []) log (record o { outstanding = n }) (rest q) c z)
  where
    rest : o.send_queue ≡ m ∷ [] → flatten o.writes ++ m ∷ [] ≡ log
    rest p = ap (λ (l : List ℕ). flatten o.writes ++ l) (sym p) ∙ s.order
done-Sends false (m ∷ k ∷ ms) log n o s e q =
    let (on, c, z) = active log n o s e in
    rw (q, on) (written-Sends o.send_queue log (record o { outstanding = n }) s.order c z)

step-Sends :
    (op : OutboxOp) (log : List ℕ) (o : Outbox)
    → Sends log o
    → Sends (log ++ queued op) (outbox_step op o)
unfolding outbox_step
step-Sends (queues m) log o s = queues-Sends m log o s
step-Sends (batches ms) log o s = batches-Sends ms log o s
step-Sends (completes error) log o s = rw (append-nil log) (complete o.outstanding refl)
  where
    complete :
        (k : ℕ)
        → o.outstanding ≡ k
        → Sends log (elim k as (λ j. Outbox) [
          | zero ↦ o
          | suc n ↦ send_message_callback error (record o { outstanding = n })
        ])
    complete zero e = s
    complete (suc n) e = done-Sends error o.send_queue log n o s e refl

-- What is queued for a client is written in the order in which it is queued, each message once and one
-- write at a time, whatever the batches and whenever the writes end; unless the socket has been closed
-- by an error, nothing waits while nothing is being written.
pub outbox_run-Sends :
    (ops : List OutboxOp) (log : List ℕ) (o : Outbox)
    → Sends log o
    → Sends (log ++ all_queued ops) (outbox_run ops o)
unfolding outbox_run outbox_step
outbox_run-Sends [] log o s = rw (append-nil log) s
outbox_run-Sends (op ∷ ops) log o s =
    subst (λ (l : List ℕ). Sends l (outbox_run ops (outbox_step op o)))
      (append_assoc log (queued op) (all_queued ops))
      (outbox_run-Sends ops (log ++ queued op) (outbox_step op o) (step-Sends op log o s))
