-- ===== src/Ipc.antt =====
-- src/kernel/ipc/ipc.cpp and the fields of src/include/kernel/scheduler/scheduler.hpp that it uses. A
-- thread is its number, and a request queue is the list of its senders. The lock is held for the whole
-- of a step; a step ends where a thread sleeps. An error -n is the number n, and a result that is
-- pending is `none`.
pub mod Calls
pub mod Owned
pub mod Complete
pub mod Mild
pub mod Finished
pub mod Submit
pub mod Accept
pub mod Drain
pub mod Detach
pub mod Messages
pub mod Steps
pub mod Async
mod Tests
use rucux.Base.{
  ℕ, zero, suc, ◌+◌, ◌-◌, ◌%◌, ◌^◌, Bool, true, false, ◌&&◌, ◌||◌, not, Option, none, some, List,
  [], ◌∷◌, ◌==◌, if◌then◌else◌, length,
}
use rucux.Process.Credentials.{Credentials}

pub data Kind : Type 0 where
  idle : Kind
  legacy_send : Kind
  legacy_receive : Kind
  call : Kind
  receive_call : Kind

-- fast_msg, four words
pub record Words : Type 0 where
  pub type : ℕ
  pub d0 : ℕ
  pub d1 : ℕ
  pub d2 : ℕ

pub record Message : Type 0 where
  pub sender : ℕ
  pub kind : ℕ
  pub bytes : List ℕ

-- What IPC keeps of a thread.
pub record Endpoint : Type 0 where
  pub creds : Credentials
  pub is_terminated : Bool
  pub is_blocked : Bool
  pub interruptible_wait : Bool
  pub fatal_signal_pending : Bool
  pub ipc_closed : Bool
  pub pins : ℕ
  pub ipc_kind : Kind
  pub ipc_peer : Option ℕ
  pub ipc_caller : Option ℕ
  pub ipc_result : Option ℕ
  pub ipc_regs : Words
  pub ipc_waiting : Bool
  pub ipc_reply_cancelled : Bool
  pub send_queue : List ℕ
  pub ipc_queue_count : ℕ
  pub queued_msg : Message
  pub has_queued_msg : Bool
  pub async_queue : ℕ → Message
  pub async_head : ℕ
  pub async_tail : ℕ

abbrev pub Threads : Type 0
Threads = ℕ → Endpoint

-- A change of one thread.
abbrev pub at : ℕ → (Endpoint → Endpoint) → Threads → Threads
at t f s = λ x. if x == t then f (s x) else s x

abbrev pub is : Option ℕ → ℕ → Bool
is o t = elim o [ none ↦ false | some x ↦ x == t ]

abbrev pub same_kind : Kind → Kind → Bool
same_kind idle idle = true
same_kind legacy_send legacy_send = true
same_kind legacy_receive legacy_receive = true
same_kind call call = true
same_kind receive_call receive_call = true
same_kind _ _ = false

unfoldable pub closed : Endpoint → Bool
closed e = e.ipc_closed || e.is_terminated

abbrev pub pin : Endpoint → Endpoint
pin e = record e { pins = (e.pins + 1) % 2 ^ 32 }

abbrev pub unpin : Endpoint → Endpoint
unpin e = record e { pins = (e.pins + 2 ^ 32 - 1) % 2 ^ 32 }

-- scheduler::unblock. The test of an interruptible wait that is not blocked returns early; the thread is
-- left not blocked either way.
unfoldable pub unblock : Endpoint → Endpoint
unblock e = if e.is_terminated then e else record e { is_blocked = false }

abbrev pub without : ℕ → List ℕ → List ℕ
without t [] = []
without t (x ∷ xs) = if x == t then xs else x ∷ without t xs

abbrev pub has : ℕ → List ℕ → Bool
has t [] = false
has t (x ∷ xs) = x == t || has t xs

unfoldable pub unlink_request : ℕ → Endpoint → Endpoint
unlink_request sender e =
    if has sender e.send_queue
    then record e {
      send_queue = without sender e.send_queue;
      ipc_queue_count = e.ipc_queue_count - 1;
    }
    else e

-- What complete does to the peer: the accepted call or the request is taken out.
unfoldable pub release : ℕ → Bool → Endpoint → Endpoint
unfolding closed unlink_request
release sender cancelled e =
    if is e.ipc_caller sender
    then record e {
      ipc_caller = none;
      ipc_reply_cancelled = if cancelled && not (closed e) then true else e.ipc_reply_cancelled;
    }
    else unlink_request sender e

-- What complete does to the sender.
unfoldable pub finish : ℕ → Endpoint → Endpoint
unfolding unblock
finish result e =
    unblock (record e { ipc_peer = none; has_queued_msg = false; ipc_result = some result })

unfoldable pub complete : ℕ → ℕ → Bool → Threads → Threads
unfolding release finish
complete sender result cancelled s = elim (s sender).ipc_peer [
  | none ↦ s
  | some peer ↦
      at sender (λ e. unpin (finish result e)) (at peer (λ e. unpin (release sender cancelled e)) s)
]

-- The first sender of the kind in the queue.
unfoldable pub find_kind : Threads → Kind → List ℕ → Option ℕ
find_kind s kind [] = none
find_kind s kind (x ∷ xs) = if same_kind (s x).ipc_kind kind then some x else find_kind s kind xs

-- The outer loop of first_request; each round but the last takes a request out of the queue.
unfoldable pub first_loop : ℕ → ℕ → Kind → Threads → Option ℕ × Threads
unfolding find_kind complete
first_loop zero receiver kind s = (none, s)
first_loop (suc fuel) receiver kind s = elim (find_kind s kind (s receiver).send_queue) [
  | none ↦ (none, s)
  | some sender ↦
      let rest = first_loop fuel receiver kind (complete sender 4 true s) in
      if (s sender).fatal_signal_pending then rest else (some sender, s)
]

unfoldable pub first_request : ℕ → Kind → Threads → Option ℕ × Threads
unfolding first_loop
first_request receiver kind s = first_loop (suc (length (s receiver).send_queue)) receiver kind s

unfoldable pub clear_wait : Endpoint → Endpoint
clear_wait e = record e { ipc_kind = idle; ipc_waiting = false; interruptible_wait = false }

-- `none` if a fatal signal is pending.
unfoldable pub begin_interruptible_wait : Endpoint → Option Endpoint
begin_interruptible_wait e =
    if e.fatal_signal_pending
    then none
    else some (record e { interruptible_wait = true; is_blocked = true })
