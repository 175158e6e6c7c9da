-- ===== src/Process/Signal/Kill.antt =====
-- SIGKILL in src/kernel/process/signal.cpp, from its posting to the end of the thread.
use rucux.Base.{
  ℕ, ◌≡◌, ◌<◌, ◌⊎◌, inl, inr, sym, ◌∙◌, subst, Bool, true, false, ◌&&◌, ◌==◌, List, [], ◌∷◌, arith,
  Bool-cases, some, none, Option-cases,
}
use rucux.Process.Signal.{
  sigkill, Thread, post_signal, enter_kernel, leave_kernel, detach_thread, close_all,
  publish_termination, fatal_signal, consume_fatal_signal, sys_sigaction, sys_sigprocmask,
  change_mask,
}
use rucux.Process.Signal.Fatal.{Call, sigaction, sigprocmask, step}

-- What may happen to a thread: it makes a call about its signals, a signal is posted to it, a scope of
-- the kernel opens or closes, its waiting changes, or a fatal signal is to be delivered.
pub data Event : Type 0 where
  calls : Call → Event
  posts : ℕ → Event
  enters : Event
  leaves : Event
  waits : Bool → Bool → Event
  delivers : Event

unfoldable pub happen : Thread → Event → Thread
happen t (calls c) = step t c
happen t (posts sig) = (post_signal t sig).1
happen t enters = enter_kernel t
happen t leaves = leave_kernel t
happen t (waits blocked interruptible) = record t {
  is_blocked = blocked;
  interruptible_wait = interruptible;
}
happen t delivers = (consume_fatal_signal t).1

unfoldable pub happen_all : Thread → List Event → Thread
happen_all t [] = t
happen_all t (e ∷ es) = happen_all (happen t e) es

-- A live user thread with SIGKILL pending.
abbrev Marked : Thread → Type 0
Marked t = (t.is_user ≡ true) × (t.is_terminated ≡ false) × (t.sig_pending sigkill ≡ true)

abbrev pub Killed : Thread → Type 0
Killed t = (t.is_terminated ≡ true) × (t.exit_code ≡ sigkill)

abbrev Doomed : Thread → Type 0
Doomed t = Marked t ⊎ Killed t

-- What a call about signals leaves alone.
step-kept :
    (t : Thread) (c : Call)
    → ((step t c).is_user ≡ t.is_user)
      × ((step t c).is_terminated ≡ t.is_terminated)
      × ((step t c).sig_pending sigkill ≡ t.sig_pending sigkill)
      × ((step t c).exit_code ≡ t.exit_code)
unfolding step sys_sigaction sys_sigprocmask
step-kept t (sigaction signum none) = (ground arith, ground arith, ground arith, ground arith)
step-kept t (sigaction signum (some new)) = (ground arith, ground arith, ground arith, ground arith)
step-kept t (sigprocmask how none) = (ground arith, ground arith, ground arith, ground arith)
step-kept t (sigprocmask how (some new)) = elim (Option-cases (change_mask how t.sig_mask new)) [
  | inl z ↦ (ground arith, ground arith, ground arith, ground arith)
  | inr (mask, z) ↦ (ground arith, ground arith, ground arith, ground arith)
]

post-kept :
    (t : Thread) (sig : ℕ)
    → t.sig_pending sigkill ≡ true
    → ((post_signal t sig).1.is_user ≡ t.is_user)
      × ((post_signal t sig).1.is_terminated ≡ t.is_terminated)
      × ((post_signal t sig).1.sig_pending sigkill ≡ true)
unfolding post_signal
post-kept t sig pending = (ground arith, ground arith, ground arith)

post_ended : (t : Thread) (sig : ℕ) → t.is_terminated ≡ true → (post_signal t sig).1 ≡ t
unfolding post_signal
post_ended t sig ended = ground arith

consume_ended : (t : Thread) → t.is_terminated ≡ true → (consume_fatal_signal t).1 ≡ t
unfolding consume_fatal_signal
consume_ended t ended = ground arith

-- What a delivery does to a thread that SIGKILL is pending for.
consume-Marked :
    (t : Thread)
    → Marked t
    → ((0 < t.kernel_depth) × (consume_fatal_signal t ≡ (false, t, [])))
      ⊎ ((t.kernel_depth ≡ 0)
          × ((consume_fatal_signal t).0 ≡ true)
          × Killed (consume_fatal_signal t).1
          × ((consume_fatal_signal t).2
              ≡ detach_thread ∷ close_all ∷ publish_termination sigkill ∷ []))
unfolding consume_fatal_signal fatal_signal
consume-Marked t (user, live, pending) = elim (Bool-cases (t.kernel_depth == 0)) [
  | inl out ↦ inr (ground arith, ground arith, (ground arith, ground arith), ground arith)
  | inr inside ↦ inl (ground arith, ground arith)
]

happen-Doomed : (t : Thread) (e : Event) → Doomed t → Doomed (happen t e)
unfolding happen enter_kernel leave_kernel
happen-Doomed t (calls c) (inl (user, live, pending)) =
    let k = step-kept t c in inl (k.0 ∙ user, k.1 ∙ live, k.2 ∙ pending)
happen-Doomed t (calls c) (inr (ended, code)) =
    let k = step-kept t c in inr (k.1 ∙ ended, k.3 ∙ code)
happen-Doomed t (posts sig) (inl (user, live, pending)) =
    let k = post-kept t sig pending in inl (k.0 ∙ user, k.1 ∙ live, k.2)
happen-Doomed t (posts sig) (inr (ended, code)) =
    inr (subst Killed (sym (post_ended t sig ended)) (ended, code))
happen-Doomed t enters doom = doom
happen-Doomed t leaves doom = doom
happen-Doomed t (waits blocked interruptible) doom = doom
happen-Doomed t delivers (inl marked) = elim (consume-Marked t marked) [
  | inl (inside, e) ↦ inl (subst (λ r. Marked r.1) (sym e) marked)
  | inr (out, done, killed, effects) ↦ inr killed
]
happen-Doomed t delivers (inr (ended, code)) =
    inr (subst Killed (sym (consume_ended t ended)) (ended, code))

happen_all-Doomed : (t : Thread) (es : List Event) → Doomed t → Doomed (happen_all t es)
unfolding happen_all
happen_all-Doomed t [] doom = doom
happen_all-Doomed t (e ∷ es) doom = happen_all-Doomed (happen t e) es (happen-Doomed t e doom)

posted_lem :
    (t : Thread)
    → t.is_user ≡ true
    → t.is_terminated ≡ false
    → Marked (post_signal t sigkill).1
      × ((post_signal t sigkill).2 ≡ (t.interruptible_wait && t.is_blocked))
unfolding post_signal
posted_lem t user live = ((ground arith, ground arith, ground arith), ground arith)

-- SIGKILL posted to a live user thread puts it into a run queue exactly if it sleeps in an interruptible
-- wait. Afterwards, whatever calls it makes about its signals, whatever signals are posted to it, however
-- it waits and however often it enters and leaves the kernel: it has been terminated with status 9, or
-- a delivery does nothing as long as it is inside the kernel, and outside terminates it with status 9
-- after its peers are detached and its files closed.
pub kill-delivered :
    (t : Thread) (es : List Event)
    → t.is_user ≡ true
    → t.is_terminated ≡ false
    → let t' = happen_all (post_signal t sigkill).1 es in
      ((post_signal t sigkill).2 ≡ (t.interruptible_wait && t.is_blocked))
      × (Killed t'
          ⊎ ((0 < t'.kernel_depth) × (consume_fatal_signal t' ≡ (false, t', [])))
          ⊎ ((t'.kernel_depth ≡ 0)
              × ((consume_fatal_signal t').0 ≡ true)
              × Killed (consume_fatal_signal t').1
              × ((consume_fatal_signal t').2
                  ≡ detach_thread ∷ close_all ∷ publish_termination sigkill ∷ [])))
kill-delivered t es user live =
    let (marked, woken) = posted_lem t user live in
    (
      woken,
      elim (happen_all-Doomed (post_signal t sigkill).1 es (inl marked)) [
        | inl still ↦ inr (consume-Marked (happen_all (post_signal t sigkill).1 es) still)
        | inr killed ↦ inl killed
      ],
    )
