-- ===== src/Process/Credentials/Calls/Laws.antt =====
-- The thread list under a credential call of src/kernel/process/credentials.cpp.
use rucux.Base.{ℕ, ◌≡◌, inl, inr, some, List, [], ◌∷◌, arith, ◌==◌, if◌then◌else◌, Option-cases}
use rucux.Process.Credentials.{
  Credentials, Thread, World, get_thread_by_tid, current_thread, set_creds,
}

pub tid-get_thread_by_tid :
    (ts : List Thread) (tid : ℕ) (t : Thread) → get_thread_by_tid ts tid ≡ some t → t.tid ≡ tid
unfolding get_thread_by_tid
tid-get_thread_by_tid [] tid t h = cc
tid-get_thread_by_tid (x ∷ ts) tid t h = ground (arith, tid-get_thread_by_tid ts tid t)

-- The thread that was found has the new credentials, every other is found as before.
pub get_thread_by_tid-set_creds :
    (ts : List Thread) (tid j : ℕ) (c : Credentials) (t : Thread)
    → get_thread_by_tid ts tid ≡ some t
    → get_thread_by_tid (set_creds ts tid c) j
      ≡ (if j == tid then some (record t { creds = c }) else get_thread_by_tid ts j)
unfolding get_thread_by_tid set_creds
get_thread_by_tid-set_creds [] tid j c t h = cc
get_thread_by_tid-set_creds (x ∷ ts) tid j c t h =
    ground (arith, get_thread_by_tid-set_creds ts tid j c t)

pub current_thread-tid :
    (w : World) (t : Thread) → current_thread w ≡ some t → w.current ≡ some t.tid
unfolding current_thread
current_thread-tid w t h = elim (Option-cases w.current) [
  | inl e ↦ ground arith
  | inr (tid, e) ↦ ground (arith, tid-get_thread_by_tid w.threads tid t)
]

pub get_thread_by_tid-current :
    (w : World) (t : Thread)
    → current_thread w ≡ some t
    → get_thread_by_tid w.threads t.tid ≡ some t
unfolding current_thread
get_thread_by_tid-current w t h = elim (Option-cases w.current) [
  | inl e ↦ ground arith
  | inr (tid, e) ↦ ground (arith, tid-get_thread_by_tid w.threads tid t)
]

-- After a write to the thread `tid`, the running thread is the one it was, with the new
-- credentials if it is that thread.
pub current_thread-set_creds :
    (w : World) (t u : Thread) (c : Credentials)
    → current_thread w ≡ some t
    → get_thread_by_tid w.threads u.tid ≡ some u
    → current_thread (record w { threads = set_creds w.threads u.tid c })
      ≡ some (if t.tid == u.tid then record u { creds = c } else t)
unfolding current_thread
current_thread-set_creds w t u c h k =
    rw (current_thread-tid w t h, get_thread_by_tid-set_creds w.threads u.tid t.tid c u k)
      (ground (arith, get_thread_by_tid-current w t h))
