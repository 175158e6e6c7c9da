-- ===== src/Ipc/Async.antt =====
-- Messages of src/kernel/ipc/ipc.cpp that are not waited for, and the receiver of messages.
pub mod Fifo
use rucux.Base.{
  ℕ, zero, suc, ◌+◌, ◌-◌, ◌%◌, ◌<◌, ◌≡◌, ◌≢◌, ◌⊎◌, inl, inr, refl, sym, ap, ◌∙◌, subst, Bool, true,
  false, ◌&&◌, ◌||◌, not, Option, none, some, List, [], ◌∷◌, ◌++◌, ◌==◌, ltb, if◌then◌else◌, length,
  arith, Bool-cases, ==_self,
}
use rucux.Base.Ring.{slot, elements, elements-suc, elements-write}
use rucux.Process.Credentials.{may_ipc}
use rucux.Ipc.{
  Kind, idle, legacy_send, legacy_receive, Message, Endpoint, Threads, at, same_kind, closed,
  unblock, complete, first_request,
}
use rucux.Ipc.Calls.{async_queue_size, Got, got, refused, sleeps, waits_for}

abbrev pub next_slot : ℕ → ℕ
next_slot i = (i + 1) % async_queue_size

-- The checks of send_async in their order; 0 goes on.
unfoldable pub async_check : Threads → ℕ → ℕ → ℕ
async_check s sender peer =
    if closed (s sender) || closed (s peer)
    then 32
    else if not (may_ipc (s sender).creds (s peer).creds)
    then 1
    else if (s sender).fatal_signal_pending
    then 4
    else if next_slot (s peer).async_tail == (s peer).async_head
    then 11
    else 0

-- The message joins the ring, and a receiver that waits is unblocked.
unfoldable pub deposit : ℕ → Message → Endpoint → Endpoint
deposit sender msg e =
    let full : Endpoint = record e {
      async_queue = λ i.
          if i == e.async_tail
          then record { sender = sender; kind = msg.kind; bytes = msg.bytes }
          else e.async_queue i;
      async_tail = next_slot e.async_tail;
    } in
    if same_kind e.ipc_kind legacy_receive then unblock full else full

unfoldable pub send_async : Threads → ℕ → Option ℕ → Message → ℕ × Threads
unfolding async_check deposit
send_async s sender found msg = elim found [
  | none ↦ (3, s)
  | some peer ↦
      let check = async_check s sender peer in
      if check == 0 then (0, at peer (deposit sender msg) s) else (check, s)
]

unfoldable pub take_async : Endpoint → Message × Endpoint
take_async e = (e.async_queue e.async_head, record e { async_head = next_slot e.async_head })

-- The receiver takes the message of a sender that waits, is interrupted, or sleeps.
unfoldable pub take_message : ℕ → Bool → Option ℕ × Threads → Got Message × Threads
take_message receiver late (some sender, s) = (
  got (record {
    sender = sender;
    kind = (s sender).queued_msg.kind;
    bytes = (s sender).queued_msg.bytes;
  }),
  complete sender 0 false s,
)
take_message receiver late (none, s) =
    if late then (refused 4, s) else (sleeps, at receiver (waits_for legacy_receive false) s)

-- One pass of receive_sync.
unfoldable pub receive : Threads → ℕ → Bool → Got Message × Threads
unfolding take_async take_message
receive s receiver late =
    let e = s receiver in
    if closed e
    then (refused 32, s)
    else if e.fatal_signal_pending
    then (refused 4, s)
    else if not (same_kind e.ipc_kind idle)
    then (refused 16, s)
    else if not (e.async_head == e.async_tail)
    then (got (take_async e).0, at receiver (λ _. (take_async e).1) s)
    else take_message receiver late (first_request receiver legacy_send s)
