-- ===== src/Ipc/Tests.antt =====
-- Examples of IPC: a client calls a server and the server ends.
use rucux.Base.{ℕ, ◌≡◌, refl, false, none, some, [], ◌∷◌, inl, arith}
use rucux.Process.Credentials.{root_credentials, may_ipc}
use rucux.Ipc.{idle, call, closed, Message, Endpoint, Threads}
use rucux.Ipc.Calls.{
  Payload, fixed, got, submit, submit_check, enqueue, offer, queue_up, detach_thread,
}
use rucux.Ipc.Owned.{IsValid}
use rucux.Ipc.Detach.{IsDetached, detach-IsDetached}
use rucux.Ipc.Steps.{submits, step, ipc_step-IsValid}
use rucux.Ipc.Async.{send_async, receive}
use rucux.Ipc.Async.Fifo.{waiting, InRing, Sent, send_async_refines, receive_refines}

abbrev text : ℕ → Message
text n = record { sender = 0; kind = n; bytes = n ∷ [] }

abbrev fresh : Endpoint
fresh = record {
  creds = root_credentials 1 1;
  is_terminated = false;
  is_blocked = false;
  interruptible_wait = false;
  fatal_signal_pending = false;
  ipc_closed = false;
  pins = 0;
  ipc_kind = idle;
  ipc_peer = none;
  ipc_caller = none;
  ipc_result = none;
  ipc_regs = record { type = 0; d0 = 0; d1 = 0; d2 = 0 };
  ipc_waiting = false;
  ipc_reply_cancelled = false;
  send_queue = [];
  ipc_queue_count = 0;
  queued_msg = text 0;
  has_queued_msg = false;
  async_queue = λ i. text i;
  async_head = 14;
  async_tail = 0;
}

abbrev threads : Threads
threads t = fresh

threads-IsValid : IsValid threads
threads-IsValid = record {
  owned = λ p t. refl;
  counted = λ p. omega arith;
  sending = λ t. inl refl;
}

abbrev request : Payload
request = fixed (record { type = 1; d0 = 2; d1 = 3; d2 = 4 })

ipc_step-IsValid_example : IsValid (step threads (submits call request 5 6 (some 6)))
ipc_step-IsValid_example =
    ipc_step-IsValid threads (submits call request 5 6 (some 6)) threads-IsValid refl

-- Thread 5 waits for thread 6.
abbrev called : Threads
called = (submit threads call request 5 6 (some 6)).1

called-IsValid : IsValid called
unfolding step
called-IsValid = ipc_step-IsValid threads (submits call request 5 6 (some 6)) threads-IsValid refl

detach-IsDetached_example : IsDetached called (detach_thread called 6) 6
unfolding submit submit_check closed enqueue offer queue_up may_ipc root_credentials
detach-IsDetached_example = detach-IsDetached called 6 called-IsValid refl

send_async_refines_example : Sent threads 5 6 6 (text 9) (send_async threads 5 (some 6) (text 9))
send_async_refines_example = send_async_refines threads 5 6 6 (text 9) (omega arith) (omega arith)

receive_refines_example :
    ((receive threads 6 false).0 ≡ got (text 14))
    × (waiting ((receive threads 6 false).1 6) ≡ text 15 ∷ [])
    × InRing ((receive threads 6 false).1 6)
unfolding closed waiting
receive_refines_example =
    receive_refines threads 6 false (text 14) (text 15 ∷ []) refl refl refl (omega arith) refl
