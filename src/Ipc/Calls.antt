-- ===== src/Ipc/Calls.antt =====
-- The operations of src/kernel/ipc/ipc.cpp.
use rucux.Base.{
  ℕ, zero, suc, ◌+◌, Bool, true, false, ◌||◌, not, Option, none, some, [], ◌∷◌, ◌++◌, leb, ◌==◌,
  if◌then◌else◌, length,
}
use rucux.Process.Credentials.{may_ipc}
use rucux.Ipc.{
  Kind, idle, legacy_receive, call, receive_call, Words, Message, Endpoint, Threads, at, same_kind,
  closed, pin, unblock, unlink_request, complete, first_request, clear_wait,
}

abbrev pub max_pending_requests : ℕ
max_pending_requests = 64

abbrev pub async_queue_size : ℕ
async_queue_size = 16

-- What is sent: a message to be copied, or words.
pub data Payload : Type 0 where
  legacy : Message → Payload
  fixed : Words → Payload

abbrev pub save : ℕ → Payload → Endpoint → Endpoint
save tid (legacy m) e = record e {
  queued_msg = record { sender = tid; kind = m.kind; bytes = m.bytes };
  has_queued_msg = true;
}
save tid (fixed w) e = record e { ipc_regs = w }

-- The checks of submit in their order, for the thread that pin_thread finds; 0 goes on.
unfoldable pub submit_check : Threads → ℕ → ℕ → ℕ
submit_check s sender peer =
    if closed (s sender) || closed (s peer)
    then 32
    else if not (may_ipc (s sender).creds (s peer).creds)
    then 1
    else if not (same_kind (s sender).ipc_kind idle)
    then 16
    else if leb max_pending_requests (s peer).ipc_queue_count
    then 11
    else if (s sender).fatal_signal_pending
    then 4
    else 0

-- What submit writes into the sender, which blocks.
unfoldable pub offer : Kind → Payload → ℕ → ℕ → Endpoint → Endpoint
offer kind payload sender peer e = pin (
    save sender payload (record e {
      interruptible_wait = true;
      is_blocked = true;
      ipc_kind = kind;
      ipc_result = none;
      ipc_peer = some peer;
    }))

-- What it writes into the peer, which is unblocked if it waits for this kind of request.
unfoldable pub queue_up : Kind → ℕ → Endpoint → Endpoint
queue_up wanted sender e =
    let queued : Endpoint = record e {
      send_queue = e.send_queue ++ sender ∷ [];
      ipc_queue_count = e.ipc_queue_count + 1;
    } in
    if same_kind e.ipc_kind wanted then unblock queued else queued

unfoldable pub enqueue : Kind → Payload → ℕ → ℕ → Threads → Threads
unfolding offer queue_up
enqueue kind payload sender peer s =
    at peer (queue_up (if same_kind kind call then receive_call else legacy_receive) sender)
      (at sender (offer kind payload sender peer) s)

-- submit up to its sleep: an error, or 0. `found` is the thread that pin_thread finds; its pin goes
-- to the sender, or is given back.
unfoldable pub submit : Threads → Kind → Payload → ℕ → ℕ → Option ℕ → ℕ × Threads
unfolding submit_check enqueue
submit s kind payload sender tid found = if sender == tid then (35, s) else elim found [
  | none ↦ (3, s)
  | some peer ↦
      let check = submit_check s sender peer in
      if check == 0 then (0, enqueue kind payload sender peer (at peer pin s)) else (check, s)
]

-- One round of the loop after the sleep: the result and the reply, or `none` to sleep again. A fatal
-- signal may come before the wait begins again.
unfoldable pub submit_resume : Threads → ℕ → Bool → Option (ℕ × Words) × Threads
submit_resume s0 sender late =
    let fatal = (s0 sender).fatal_signal_pending in
    let s : Threads = if fatal then complete sender 4 true s0 else s0 in
    elim (s sender).ipc_result [
      | some result ↦
          (some (if fatal then 4 else result, (s sender).ipc_regs), at sender clear_wait s)
      | none ↦
          if late
          then (some (4, (s sender).ipc_regs), at sender clear_wait (complete sender 4 true s))
          else (none, at sender (λ e. record e { interruptible_wait = true; is_blocked = true }) s)
    ]

-- What a receiver gets, or an error, or its sleep.
pub data Got (A : Type 0) : Type 0 where
  got : A → Got A
  refused : ℕ → Got A
  sleeps : Got A

abbrev pub waits_for : Kind → Bool → Endpoint → Endpoint
waits_for kind waiting e = record e {
  interruptible_wait = true;
  is_blocked = true;
  ipc_kind = kind;
  ipc_waiting = waiting;
}

-- The server takes a request as its accepted call.
abbrev pub accept : ℕ → Endpoint → Endpoint
accept caller e = record (unlink_request caller e) { ipc_caller = some caller }

-- A server that has looked for a request takes it, is interrupted, or sleeps. A fatal signal may come
-- before the wait begins.
unfoldable pub take_or_sleep : ℕ → Bool → Option ℕ × Threads → Got Words × Threads
take_or_sleep server late (some caller, s) = (got (s caller).ipc_regs, at server (accept caller) s)
take_or_sleep server late (none, s) =
    if late then (refused 4, s) else (sleeps, at server (waits_for receive_call true) s)

-- sys_ipc_wait up to its sleep.
unfoldable pub ipc_wait : Threads → ℕ → Bool → Got Words × Threads
unfolding take_or_sleep
ipc_wait s server late =
    let e = s server in
    if closed e
    then (refused 32, s)
    else if e.fatal_signal_pending
    then (refused 4, s)
    else if not (same_kind e.ipc_kind idle)
        || not (elim e.ipc_caller [ none ↦ true | some _ ↦ false ])
    then (refused 16, s)
    else if e.ipc_reply_cancelled
    then (refused 125, s)
    else take_or_sleep server late (first_request server call s)

-- After the sleep of a receiver.
unfoldable pub wake_up : Threads → ℕ → Threads
wake_up s t = at t clear_wait s

unfoldable pub ipc_reply : Threads → ℕ → Words → ℕ × Threads
ipc_reply s server regs =
    let e = s server in
    if closed e
    then (32, s)
    else if e.fatal_signal_pending
    then (4, s)
    else if not (same_kind e.ipc_kind idle)
    then (16, s)
    else if e.ipc_reply_cancelled
    then (125, at server (λ x. record x { ipc_reply_cancelled = false }) s)
    else elim e.ipc_caller [
      | none ↦ (2, s)
      | some caller ↦
          if (s caller).fatal_signal_pending
          then (
            125,
            at server (λ x. record x { ipc_reply_cancelled = false }) (complete caller 4 true s),
          )
          else (0, complete caller 0 false (at caller (λ x. record x { ipc_regs = regs }) s))
    ]

-- The loop of detach_thread over the queue.
unfoldable pub detach_loop : ℕ → ℕ → Threads → Threads
detach_loop zero owner s = s
detach_loop (suc fuel) owner s = elim (s owner).send_queue [
  | [] ↦ s
  | sender ∷ _ ↦ detach_loop fuel owner (complete sender 32 false s)
]

abbrev pub complete_all : ℕ → Threads → Threads
complete_all owner s0 =
    let s1 : Threads = complete owner 4 true s0 in
    let s2 : Threads = detach_loop (length (s1 owner).send_queue) owner s1 in
    elim (s2 owner).ipc_caller [ none ↦ s2 | some caller ↦ complete caller 32 false s2 ]

-- The end of detach_thread: a receiver that waits is unblocked.
unfoldable pub close_up : Endpoint → Endpoint
close_up e =
    let cleared : Endpoint = record e {
      ipc_reply_cancelled = false;
      async_head = 0;
      async_tail = 0;
    } in
    if same_kind e.ipc_kind legacy_receive || same_kind e.ipc_kind receive_call
    then unblock cleared
    else cleared

abbrev pub mark_closed : Endpoint → Endpoint
mark_closed e = record e { ipc_closed = true }

unfoldable pub detach_thread : Threads → ℕ → Threads
unfolding detach_loop close_up
detach_thread s owner =
    if (s owner).ipc_closed
    then s
    else at owner close_up (complete_all owner (at owner mark_closed s))
