-- ===== src/Ipc/Steps.antt =====
-- The operations of src/kernel/ipc/ipc.cpp in any order.
use rucux.Base.{
  ℕ, suc, ◌<◌, ◌≡◌, inl, inr, refl, sym, ap, ◌∙◌, subst, Bool, true, false, ◌||◌, not, Option, none,
  some, ◌==◌, if◌then◌else◌, length, arith, Bool-cases, Option-cases,
}
use rucux.Ipc.{
  Kind, idle, legacy_receive, call, receive_call, Words, Message, Endpoint, Threads, at, has, pin,
  same_kind, complete, first_loop, first_request, closed,
}
use rucux.Ipc.Calls.{
  Payload, submit_check, enqueue, submit, submit_resume, Got, waits_for, take_or_sleep, ipc_wait,
  wake_up, ipc_reply, detach_thread,
}
use rucux.Ipc.Owned.{is_sending, Sending, IsValid}
use rucux.Ipc.Complete.{at-elim, complete-IsValid, complete-peer}
use rucux.Ipc.Mild.{at-IsValid, free_of_result, free_of_kind, idle_free, wake_up-IsValid}
use rucux.Ipc.Submit.{queued-IsValid}
use rucux.Ipc.Accept.{Searched, first_loop-Searched, accept-IsValid}
use rucux.Ipc.Detach.{detach-IsValid}
use rucux.Ipc.Async.{send_async, receive}
use rucux.Ipc.Messages.{send_async-IsValid, receive-IsValid}

pub data Op : Type 0 where
  submits : Kind → Payload → ℕ → ℕ → Option ℕ → Op
  resumes : ℕ → Bool → Op
  waits : ℕ → Bool → Op
  wakes : ℕ → Op
  replies : ℕ → Words → Op
  detaches : ℕ → Op
  sends_async : ℕ → Option ℕ → Message → Op
  receives : ℕ → Bool → Op

unfoldable pub step : Threads → Op → Threads
step s (submits kind payload sender tid found) = (submit s kind payload sender tid found).1
step s (resumes sender late) = (submit_resume s sender late).1
step s (waits server late) = (ipc_wait s server late).1
step s (wakes t) = wake_up s t
step s (replies server regs) = (ipc_reply s server regs).1
step s (detaches t) = detach_thread s t
step s (sends_async sender found msg) = (send_async s sender found msg).1
step s (receives t late) = (receive s t late).1

-- A request is sent as one of the two kinds, and a receiver that runs again waits for no reply.
abbrev pub Allowed : Threads → Op → Type 0
Allowed s (submits kind payload sender tid found) = is_sending kind ≡ true
Allowed s (resumes sender late) = Unit
Allowed s (waits server late) = Unit
Allowed s (wakes t) = is_sending (s t).ipc_kind ≡ false
Allowed s (replies server regs) = Unit
Allowed s (detaches t) = Unit
Allowed s (sends_async sender found msg) = Unit
Allowed s (receives t late) = Unit

check_passed :
    (s : Threads) (x q : ℕ)
    → (submit_check s x q == 0) ≡ true
    → (same_kind (s x).ipc_kind idle ≡ true) × ((s q).ipc_queue_count < 64)
unfolding submit_check
check_passed s x q h = ground arith

pinned-IsValid : (q : ℕ) (s : Threads) → IsValid s → IsValid (at q pin s)
pinned-IsValid q s v =
    at-IsValid q pin s
      (record { queue = refl; caller = refl; counter = refl; peer = refl; sending = v.sending q }) v

submit-IsValid :
    (s : Threads) (kind : Kind) (payload : Payload) (x tid : ℕ) (found : Option ℕ)
    → IsValid s
    → is_sending kind ≡ true
    → IsValid (submit s kind payload x tid found).1
unfolding submit enqueue
submit-IsValid s kind payload x tid none v sends = elim (Bool-cases (x == tid)) [
  | inl e ↦ rw e v
  | inr e ↦ rw e v
]
submit-IsValid s kind payload x tid (some q) v sends = elim (Bool-cases (x == tid)) [
  | inl e ↦ rw e v
  | inr e ↦ elim (Bool-cases (submit_check s x q == 0)) [
    | inr bad ↦ rw (e, bad) v
    | inl good ↦
        (let passed = check_passed s x q good in
          let pinned : Threads = at q pin s in
          rw (e, good)
            (queued-IsValid kind (if same_kind kind call then receive_call else legacy_receive)
              payload x q pinned (pinned-IsValid q s v) sends
              (at-elim (λ e. e.ipc_peer ≡ none) q pin s x
                (λ here. idle_free (s x) (v.sending x) passed.0)
                (λ there. idle_free (s x) (v.sending x) passed.0))
              (at-elim (λ e. e.ipc_queue_count < 64) q pin s q (λ here. passed.1)
                (λ there. passed.1))))
  ]
]

-- The endpoints of a sender that runs again.
abbrev cancelled_if : Bool → ℕ → Threads → Threads
cancelled_if fatal x s = if fatal then complete x 4 true s else s

cancelled-IsValid :
    (fatal : Bool) (x : ℕ) (s : Threads) → IsValid s → IsValid (cancelled_if fatal x s)
cancelled-IsValid true x s v = complete-IsValid x 4 true s v
cancelled-IsValid false x s v = v

resume-IsValid :
    (s : Threads) (x : ℕ) (late : Bool) → IsValid s → IsValid (submit_resume s x late).1
unfolding submit_resume
resume-IsValid s x late v =
    let t : Threads = cancelled_if (s x).fatal_signal_pending x s in
    let w : IsValid t = cancelled-IsValid (s x).fatal_signal_pending x s v in
    elim (Option-cases (t x).ipc_result) [
      | inr (result, e) ↦
          rw (e, submit_resume)
            (wake_up-IsValid x t (free_of_result (t x) result (w.sending x) e) w)
      | inl e ↦ elim (Bool-cases late) [
        | inl l ↦
            rw (e, l, submit_resume)
              (wake_up-IsValid x (complete x 4 true t) (complete-peer x 4 true t)
                (complete-IsValid x 4 true t w))
        | inr l ↦
            rw (e, l, submit_resume)
              (at-IsValid x (λ y. record y { interruptible_wait = true; is_blocked = true }) t
                (record {
                  queue = refl;
                  caller = refl;
                  counter = refl;
                  peer = refl;
                  sending = w.sending x;
                })
                w)
      ]
    ]

-- What the checks of a wait have shown when they pass.
busy_no_caller :
    (e : Endpoint)
    → (not (same_kind e.ipc_kind idle) || not (elim e.ipc_caller [ none ↦ true | some _ ↦ false ]))
      ≡ false
    → (e.ipc_caller ≡ none) × (same_kind e.ipc_kind idle ≡ true)
busy_no_caller e h = elim (Option-cases e.ipc_caller) [
  | inl f ↦ (f, ground arith)
  | inr (x, f) ↦ absurd (ground arith)
]

waited-IsValid :
    (s : Threads) (server : ℕ) (late : Bool) (r : Option ℕ × Threads)
    → Searched server call s r
    → Sending (s server)
    → same_kind (s server).ipc_kind idle ≡ true
    → IsValid (take_or_sleep server late r).1
unfolding take_or_sleep
waited-IsValid s server late (some x, t) f ok is_idle = elim f.hit [
  | inl n ↦ absurd (ground arith)
  | inr (y, e, present, kind) ↦
      accept-IsValid x server t f.valid
        (subst (λ i. has i (t server).send_queue ≡ true) (ground arith) present) f.caller
]
waited-IsValid s server true (none, t) f ok is_idle = f.valid
waited-IsValid s server false (none, t) f ok is_idle =
    at-IsValid server (waits_for receive_call true) t
      (record {
        queue = refl;
        caller = refl;
        counter = refl;
        peer = refl;
        sending = inl (
            idle_free (t server) (f.valid.sending server)
              (ap (λ k. same_kind k idle) f.kept.kind ∙ is_idle));
      })
      f.valid

wait-IsValid :
    (s : Threads) (server : ℕ) (late : Bool) → IsValid s → IsValid (ipc_wait s server late).1
unfolding ipc_wait first_request
wait-IsValid s server late v =
    let e : Endpoint = s server in
    let search : Option ℕ × Threads = first_loop (suc (length e.send_queue)) server call s in
    elim (Bool-cases (closed e)) [
      | inl c ↦ rw (c, ipc_wait) v
      | inr c ↦ elim (Bool-cases e.fatal_signal_pending) [
        | inl d ↦ rw (c, d, ipc_wait) v
        | inr d ↦
            elim (Bool-cases (
              not (same_kind e.ipc_kind idle)
              || not (elim e.ipc_caller [ none ↦ true | some _ ↦ false ]))) [
                | inl b ↦ rw (c, d, b, ipc_wait) v
                | inr b ↦ elim (Bool-cases e.ipc_reply_cancelled) [
                  | inl l ↦ rw (c, d, b, l, ipc_wait) v
                  | inr l ↦
                      (let (no_caller, is_idle) = busy_no_caller e b in
                        let f : Searched server call s search =
                          first_loop-Searched (suc (length e.send_queue)) server call s v
                            no_caller in
                        let result : ipc_wait s server late ≡ take_or_sleep server late search =
                          rw (c, d, b, l, ipc_wait) refl in
                        subst (λ (z : Got Words × Threads). IsValid z.1) (sym result)
                          (waited-IsValid s server late search f (v.sending server) is_idle))
                ]
              ]
      ]
    ]

uncancelled-IsValid :
    (s : Threads) (t : ℕ)
    → IsValid s
    → IsValid (at t (λ x. record x { ipc_reply_cancelled = false }) s)
uncancelled-IsValid s t v =
    at-IsValid t (λ x. record x { ipc_reply_cancelled = false }) s
      (record { queue = refl; caller = refl; counter = refl; peer = refl; sending = v.sending t }) v

answered-IsValid :
    (s : Threads) (t : ℕ) (regs : Words)
    → IsValid s
    → IsValid (at t (λ x. record x { ipc_regs = regs }) s)
answered-IsValid s t regs v =
    at-IsValid t (λ x. record x { ipc_regs = regs }) s
      (record { queue = refl; caller = refl; counter = refl; peer = refl; sending = v.sending t }) v

reply-IsValid :
    (s : Threads) (server : ℕ) (regs : Words) → IsValid s → IsValid (ipc_reply s server regs).1
unfolding ipc_reply
reply-IsValid s server regs v =
    let e : Endpoint = s server in
    elim (Bool-cases (closed e)) [
      | inl c ↦ rw (c, ipc_reply) v
      | inr c ↦ elim (Bool-cases e.fatal_signal_pending) [
        | inl d ↦ rw (c, d, ipc_reply) v
        | inr d ↦ elim (Bool-cases (same_kind e.ipc_kind idle)) [
          | inr b ↦ rw (c, d, b, ipc_reply) v
          | inl b ↦ elim (Bool-cases e.ipc_reply_cancelled) [
            | inl l ↦ rw (c, d, b, l, ipc_reply) (uncancelled-IsValid s server v)
            | inr l ↦ elim (Option-cases e.ipc_caller) [
              | inl f ↦ rw (c, d, b, l, f, ipc_reply) v
              | inr (x, f) ↦ elim (Bool-cases (s x).fatal_signal_pending) [
                | inl g ↦
                    rw (c, d, b, l, f, g, ipc_reply)
                      (uncancelled-IsValid (complete x 4 true s) server
                        (complete-IsValid x 4 true s v))
                | inr g ↦
                    rw (c, d, b, l, f, g, ipc_reply)
                      (complete-IsValid x 0 false (at x (λ z. record z { ipc_regs = regs }) s)
                        (answered-IsValid s x regs v))
              ]
            ]
          ]
        ]
      ]
    ]

-- Every IPC operation (submitting a request and running again after its sleep, waiting for a call, a
-- receiver that runs again, replying, detaching, sending a message and receiving one) keeps the
-- endpoints in order: each thread that waits for a peer stands exactly once in that peer's queue or
-- is its accepted call, and nowhere else, its result is pending, and each queue is counted and holds
-- 64 requests at most. It is assumed that requests are sent as one of
-- the two kinds of request, and that a receiver that runs again was no sender.
pub ipc_step-IsValid : (s : Threads) (o : Op) → IsValid s → Allowed s o → IsValid (step s o)
unfolding step wake_up
ipc_step-IsValid s (submits kind payload sender tid found) v h =
    submit-IsValid s kind payload sender tid found v h
ipc_step-IsValid s (resumes sender late) v h = resume-IsValid s sender late v
ipc_step-IsValid s (waits server late) v h = wait-IsValid s server late v
ipc_step-IsValid s (wakes t) v h = wake_up-IsValid t s (free_of_kind (s t) (v.sending t) h) v
ipc_step-IsValid s (replies server regs) v h = reply-IsValid s server regs v
ipc_step-IsValid s (detaches t) v h = detach-IsValid s t v
ipc_step-IsValid s (sends_async sender found msg) v h = send_async-IsValid s sender found msg v
ipc_step-IsValid s (receives t late) v h = receive-IsValid s t late v
