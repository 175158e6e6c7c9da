-- ===== src/Process/Signal.antt =====
-- src/kernel/process/signal.cpp and the fields of src/include/kernel/scheduler/scheduler.hpp that it uses.
-- A mask of 32 bits is the set of its signals. sys_kill hands the signal to post_signal for the thread
-- that the scheduler finds. The user's structures are in order; a null pointer is `none`.
pub mod Fatal
pub mod Kill
mod Tests
use rucux.Base.{
  ℕ, ◌+◌, ◌-◌, ◌%◌, ◌^◌, Bool, true, false, ◌&&◌, ◌||◌, not, Option, none, some, List, [], ◌∷◌, ltb,
  leb, ◌==◌, if◌then◌else◌,
}

abbrev pub SigSet : Type 0
SigSet = ℕ → Bool

abbrev pub max_signals : ℕ
max_signals = 32

abbrev pub sigkill : ℕ
sigkill = 9

abbrev pub sigterm : ℕ
sigterm = 15

abbrev pub sigstop : ℕ
sigstop = 19

abbrev pub sig_ign : ℕ
sig_ign = 1

-- The handlers and their restorers, by signal; 0 is the default.
pub record Thread : Type 0 where
  pub sig_handlers : ℕ → ℕ
  pub sig_restorers : ℕ → ℕ
  pub sig_mask : SigSet
  pub sig_pending : SigSet
  pub is_blocked : Bool
  pub is_terminated : Bool
  pub is_user : Bool
  pub kernel_depth : ℕ
  pub interruptible_wait : Bool
  pub exit_code : ℕ

abbrev pub at : {A : Type 0} → (ℕ → A) → ℕ → A → ℕ → A
at f i v = λ x. if x == i then v else f x

pub record SigAction : Type 0 where
  pub sa_handler : ℕ
  pub sa_restorer : ℕ

-- -1 is `none`; with success, the old handler and the thread afterwards.
unfoldable pub sys_sigaction : Thread → ℕ → Option SigAction → Option (ℕ × Thread)
sys_sigaction t signum act =
    if ltb signum 1 || leb max_signals signum
    then none
    else if signum == 9 || signum == 19
    then none
    else some (
      t.sig_handlers signum,
      elim act [
        | none ↦ t
        | some new ↦ record t {
          sig_handlers = at t.sig_handlers signum new.sa_handler;
          sig_restorers = at t.sig_restorers signum new.sa_restorer;
        }
      ],
    )

unfoldable pub fatal_signal_pending : Thread → Bool
fatal_signal_pending t = t.sig_pending sigkill || t.sig_pending sigterm && not (t.sig_mask sigterm)

pub data Posted : Type 0 where
  invalid : Posted
  no_thread : Posted
  refused : Posted
  posted : Posted

-- The result, the thread afterwards and whether it is put into a run queue (add_thread).
unfoldable pub post_signal : Thread → ℕ → Posted × Thread × Bool
unfolding fatal_signal_pending
post_signal t sig =
    if leb max_signals sig
    then (invalid, t, false)
    else if t.is_terminated
    then (no_thread, t, false)
    else if sig == 0
    then (posted, t, false)
    else if (sig == sigkill || sig == sigterm) && not t.is_user
    then (refused, t, false)
    else if not (sig == sigkill) && t.sig_handlers sig == sig_ign
    then (posted, t, false)
    else (let t' : Thread = record t { sig_pending = at t.sig_pending sig true } in
        (posted, t', fatal_signal_pending t' && t'.interruptible_wait && t'.is_blocked))

-- How a mask changes: SIG_BLOCK, SIG_UNBLOCK, SIG_SETMASK.
unfoldable pub change_mask : ℕ → SigSet → SigSet → Option SigSet
change_mask how mask new =
    if how == 0
    then some (λ s. mask s || new s)
    else if how == 1
    then some (λ s. mask s && not (new s))
    else if how == 2
    then some new
    else none

-- The old mask goes to the caller; -1 is `none`.
unfoldable pub sys_sigprocmask : Thread → ℕ → Option SigSet → Option (SigSet × Thread)
unfolding change_mask
sys_sigprocmask t how set = elim set [
  | none ↦ some (t.sig_mask, t)
  | some new ↦ elim (change_mask how t.sig_mask new) [
    | none ↦ none
    | some mask ↦ some (
      t.sig_mask,
      record t { sig_mask = λ s. mask s && not (s == sigkill) && not (s == sigstop) },
    )
  ]
]

-- A kernel_scope is opened and closed; signals are delivered in none.
unfoldable pub enter_kernel : Thread → Thread
enter_kernel t = record t { kernel_depth = (t.kernel_depth + 1) % 2 ^ 32 }

unfoldable pub leave_kernel : Thread → Thread
leave_kernel t = record t { kernel_depth = (t.kernel_depth + 2 ^ 32 - 1) % 2 ^ 32 }

pub data Effect : Type 0 where
  detach_thread : Effect
  close_all : Effect
  publish_termination : ℕ → Effect

-- The fatal signal to deliver; 0 is none.
unfoldable pub fatal_signal : Thread → ℕ
fatal_signal t =
    if t.sig_pending sigkill
    then sigkill
    else if t.sig_pending sigterm && not (t.sig_mask sigterm)
    then sigterm
    else 0

unfoldable pub consume_fatal_signal : Thread → Bool × Thread × List Effect
unfolding fatal_signal
consume_fatal_signal t =
    if not t.is_user || t.is_terminated || not (t.kernel_depth == 0)
    then (false, t, [])
    else if fatal_signal t == 0
    then (false, t, [])
    else (
      true,
      record t {
        sig_pending = at t.sig_pending (fatal_signal t) false;
        is_terminated = true;
        is_blocked = false;
        exit_code = fatal_signal t;
      },
      detach_thread ∷ close_all ∷ publish_termination (fatal_signal t) ∷ [],
    )
