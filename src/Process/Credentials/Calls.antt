-- ===== src/Process/Credentials/Calls.antt =====
-- The credential system calls of src/kernel/process/credentials.cpp. Each returns its result (`none`
-- is -1) and the new world. A pid is the bit pattern of an int32_t.
pub mod Laws
pub mod Change
pub mod Drop
pub mod Session
mod Tests
use rucux.Base.{
  ℕ, ◌^◌, ◌≡◌, Bool, true, false, ◌&&◌, ◌||◌, not, Option, none, some, List, [], ◌∷◌, ltb, ◌==◌,
  if◌then◌else◌,
}
use rucux.Process.Credentials.{
  Credentials, Thread, World, root_uid, is_privileged, get_thread_by_tid, current_thread, set_creds,
}

-- pid > 0 for an int32_t
abbrev pub is_positive : ℕ → Bool
is_positive pid = ltb 0 pid && ltb pid (2 ^ 31)

-- What the body of a call makes of the caller's credentials; `none` is the -1 at its end.
abbrev pub on_caller : World → (Credentials → Option Credentials) → Option ℕ × World
on_caller w f = elim (current_thread w) [
  | none ↦ (none, w)
  | some t ↦ elim (f t.creds) [
    | none ↦ (none, w)
    | some c ↦ (some 0, record w { threads = set_creds w.threads t.tid c })
  ]
]

abbrev pub read_caller : World → (Credentials → ℕ) → Option ℕ
read_caller w f = elim (current_thread w) [ none ↦ none | some t ↦ some (f t.creds) ]

pub sys_getuid : World → Option ℕ
sys_getuid w = read_caller w λ c. c.ruid

pub sys_geteuid : World → Option ℕ
sys_geteuid w = read_caller w λ c. c.euid

pub sys_getgid : World → Option ℕ
sys_getgid w = read_caller w λ c. c.rgid

pub sys_getegid : World → Option ℕ
sys_getegid w = read_caller w λ c. c.egid

setuid_creds : ℕ → Credentials → Option Credentials
unfolding is_privileged
setuid_creds uid c =
    if is_privileged c
    then some (record c {
      ruid = uid;
      euid = uid;
      suid = uid;
      capabilities = if uid == root_uid then c.capabilities else 0;
    })
    else if uid == c.ruid || uid == c.suid
    then some (record c { euid = uid })
    else none

pub sys_setuid : World → ℕ → Option ℕ × World
sys_setuid w uid = on_caller w (setuid_creds uid)

seteuid_creds : ℕ → Credentials → Option Credentials
unfolding is_privileged
seteuid_creds uid c =
    if is_privileged c || uid == c.ruid || uid == c.suid
    then some
        (record c { euid = uid; capabilities = if uid == root_uid then c.capabilities else 0 })
    else none

pub sys_seteuid : World → ℕ → Option ℕ × World
sys_seteuid w uid = on_caller w (seteuid_creds uid)

setgid_creds : ℕ → Credentials → Option Credentials
unfolding is_privileged
setgid_creds gid c =
    if is_privileged c
    then some (record c { rgid = gid; egid = gid; sgid = gid })
    else if gid == c.rgid || gid == c.sgid
    then some (record c { egid = gid })
    else none

pub sys_setgid : World → ℕ → Option ℕ × World
sys_setgid w gid = on_caller w (setgid_creds gid)

setegid_creds : ℕ → Credentials → Option Credentials
unfolding is_privileged
setegid_creds gid c =
    if is_privileged c || gid == c.rgid || gid == c.sgid
    then some (record c { egid = gid })
    else none

pub sys_setegid : World → ℕ → Option ℕ × World
sys_setegid w gid = on_caller w (setegid_creds gid)

-- The thread that sys_getsid and sys_getpgid look at.
named_thread : World → ℕ → Option Thread
named_thread w pid =
    if pid == 0
    then current_thread w
    else if is_positive pid
    then get_thread_by_tid w.threads pid
    else none

pub sys_getsid : World → ℕ → Option ℕ
unfolding named_thread
sys_getsid w pid = elim (named_thread w pid) [ none ↦ none | some t ↦ some t.creds.sid ]

pub sys_getpgid : World → ℕ → Option ℕ
unfolding named_thread
sys_getpgid w pid = elim (named_thread w pid) [ none ↦ none | some t ↦ some t.creds.pgid ]

pub sys_setsid : World → Option ℕ × World
sys_setsid w = elim (current_thread w) [
  | none ↦ (none, w)
  | some t ↦ if t.creds.pgid == t.tid then (none, w) else (
    some t.tid,
    record w {
      threads = set_creds w.threads t.tid (record (t.creds) { sid = t.tid; pgid = t.tid });
    },
  )
]

-- The target that sys_setpgid selects.
pub setpgid_target : World → Thread → ℕ → Option Thread
unfolding is_privileged
setpgid_target w caller pid =
    if pid == 0 || pid == caller.tid
    then some caller
    else if is_positive pid && is_privileged caller.creds
    then get_thread_by_tid w.threads pid
    else none

pub sys_setpgid : World → ℕ → ℕ → Option ℕ × World
unfolding setpgid_target
sys_setpgid w pid pgid = elim (current_thread w) [
  | none ↦ (none, w)
  | some caller ↦ elim (setpgid_target w caller pid) [
    | none ↦ (none, w)
    | some target ↦
        if target.creds.sid == caller.creds.sid
        then (
          some 0,
          record w {
            threads =
                set_creds w.threads target.tid
                  (record (target.creds) { pgid = if pgid == 0 then target.tid else pgid });
          },
        )
        else (none, w)
  ]
]

-- The calls of the running thread that write credentials.
pub data Call : Type 0 where
  setuid seteuid setgid setegid : ℕ → Call
  setsid : Call
  setpgid : ℕ → ℕ → Call

unfoldable pub step : World → Call → World
step w (setuid uid) = (sys_setuid w uid).1
step w (seteuid uid) = (sys_seteuid w uid).1
step w (setgid gid) = (sys_setgid w gid).1
step w (setegid gid) = (sys_setegid w gid).1
step w setsid = (sys_setsid w).1
step w (setpgid pid pgid) = (sys_setpgid w pid pgid).1

unfoldable pub run : World → List Call → World
run w [] = w
run w (c ∷ cs) = run (step w c) cs
