-- ===== src/Process/Credentials.antt =====
-- src/kernel/process/credentials.cpp, src/include/kernel/process/credentials.hpp and
-- uapi/kernel/credentials.h.
-- A thread is its tid and its credentials. The scheduler's thread list is `threads`, the running
-- thread is the one whose tid is `current`. A `long` result is `some v`; -1 is `none`.
pub mod Calls
use rucux.Base.{
  ℕ, ◌^◌, Bool, true, false, ◌||◌, Option, none, some, List, [], ◌∷◌, bit_and, ◌==◌, if◌then◌else◌,
}

-- struct rucux_credentials
pub record Credentials : Type 0 where
  pub ruid : ℕ
  pub euid : ℕ
  pub suid : ℕ
  pub rgid : ℕ
  pub egid : ℕ
  pub sgid : ℕ
  pub sid : ℕ
  pub pgid : ℕ
  pub capabilities : ℕ

-- What the credential calls read of a scheduler::thread.
pub record Thread : Type 0 where
  pub tid : ℕ
  pub creds : Credentials
  pub terminated : Bool
  pub ipc_closed : Bool

pub record World : Type 0 where
  pub threads : List Thread
  pub current : Option ℕ

abbrev pub root_uid : ℕ
root_uid = 0

abbrev pub root_gid : ℕ
root_gid = 0

-- RUCUX_CAP_RAW_IO
abbrev pub cap_raw_io : ℕ
cap_raw_io = 2 ^ 5

-- ROOT_CAPABILITIES: bits 0 to 4, each but RUCUX_CAP_RAW_IO.
abbrev pub root_capabilities : ℕ
root_capabilities = 31

unfoldable pub root_credentials : ℕ → ℕ → Credentials
root_credentials sid pgid = record {
  ruid = root_uid;
  euid = root_uid;
  suid = root_uid;
  rgid = root_gid;
  egid = root_gid;
  sgid = root_gid;
  sid = sid;
  pgid = pgid;
  capabilities = root_capabilities;
}

unfoldable pub has_capability : Credentials → ℕ → Bool
has_capability creds cap = if cap == 0 then false else bit_and creds.capabilities cap == cap

unfoldable pub may_signal : Credentials → ℕ → Credentials → ℕ → Bool
may_signal caller caller_tid target target_tid =
    if caller_tid == target_tid
    then true
    else if caller.euid == root_uid
    then true
    else caller.euid == target.ruid || caller.euid == target.euid

unfoldable pub may_ipc : Credentials → Credentials → Bool
may_ipc caller target =
    caller.euid == root_uid || target.euid == root_uid || caller.euid == target.euid

unfoldable pub is_privileged : Credentials → Bool
is_privileged creds = creds.euid == root_uid

-- scheduler::get_thread_by_tid: the first of the list with that tid.
unfoldable pub get_thread_by_tid : List Thread → ℕ → Option Thread
get_thread_by_tid [] tid = none
get_thread_by_tid (t ∷ ts) tid = if t.tid == tid then some t else get_thread_by_tid ts tid

-- scheduler::pin_thread, without the count of pins: the caller drops its pin before it returns.
unfoldable pub pin_thread : List Thread → ℕ → Option Thread
unfolding get_thread_by_tid
pin_thread ts tid = elim (get_thread_by_tid ts tid) [
  | none ↦ none
  | some t ↦ if t.terminated || t.ipc_closed then none else some t
]

unfoldable pub current_thread : World → Option Thread
unfolding get_thread_by_tid
current_thread w = elim w.current [ none ↦ none | some tid ↦ get_thread_by_tid w.threads tid ]

-- A write through a thread pointer: the first thread with that tid.
unfoldable pub set_creds : List Thread → ℕ → Credentials → List Thread
set_creds [] tid c = []
set_creds (t ∷ ts) tid c =
    if t.tid == tid then record t { creds = c } ∷ ts else t ∷ set_creds ts tid c

unfoldable pub raw_io_allowed : World → Bool
raw_io_allowed w = elim (current_thread w) [
  | none ↦ false
  | some t ↦ has_capability t.creds cap_raw_io
]

unfoldable pub ipc_send_allowed : World → ℕ → Bool
ipc_send_allowed w target_tid = elim (current_thread w) [
  | none ↦ false
  | some caller ↦ elim (pin_thread w.threads target_tid) [
    | none ↦ true
    | some target ↦ may_ipc caller.creds target.creds
  ]
]
