-- ===== src/Process/Credentials/Calls/Drop.antt =====
-- Privileges after any sequence of the calls of src/kernel/process/credentials.cpp.
use rucux.Base.{ℕ, ◌≡◌, refl, ◌∙◌, ◌≢◌, ap, sym, subst, ◌⊎◌, inl, some, List, ◌∷◌, arith}
use rucux.Process.Credentials.{Credentials, Thread, World, is_privileged, current_thread, set_creds}
use rucux.Process.Credentials.Calls.{Call, setuid, setuid_creds, sys_setuid, step, run}
use rucux.Process.Credentials.Calls.Laws.{get_thread_by_tid-current, current_thread-set_creds}
use rucux.Process.Credentials.Calls.Change.{Change, run-keeps}

-- No user id is root's, and the capabilities are at most those of `caps`.
abbrev pub NotRoot : ℕ → Credentials → Type 0
NotRoot caps c =
    (c.ruid ≢ 0) × (c.euid ≢ 0) × (c.suid ≢ 0) × ((c.capabilities ≡ caps) ⊎ (c.capabilities ≡ 0))

Change-NotRoot : (caps : ℕ) (c d : Credentials) → Change c d → NotRoot caps c → NotRoot caps d
Change-NotRoot caps c d ch n = ground (arith, ch.uids, ch.caps)

-- A thread none of whose three user ids is 0 runs on as the same thread through any sequence of
-- credential calls, no user id of it ever becomes 0, and it has the capabilities that it had or
-- none.
pub run-NotRoot :
    (w : World) (t : Thread) (cs : List Call)
    → current_thread w ≡ some t
    → t.creds.ruid ≢ 0
    → t.creds.euid ≢ 0
    → t.creds.suid ≢ 0
    → (d : Credentials) × (current_thread (run w cs) ≡ some (record t { creds = d }))
      × NotRoot t.creds.capabilities d
run-NotRoot w t cs h r e s =
    run-keeps (NotRoot t.creds.capabilities) (Change-NotRoot t.creds.capabilities) w t cs h
      (r, e, s, inl refl)

abbrev pub IsDropped : ℕ → Credentials → Type 0
IsDropped uid c = (c.ruid ≡ uid) × (c.euid ≡ uid) × (c.suid ≡ uid) × (c.capabilities ≡ 0)

Change-IsDropped :
    (uid : ℕ) → uid ≢ 0 → (c d : Credentials) → Change c d → IsDropped uid c → IsDropped uid d
Change-IsDropped uid n c d ch p = ground (arith, ch.uids, ch.caps)

-- When root calls setuid with a user id other than 0, the call succeeds, and after any later
-- sequence of credential calls the thread has that id as its real, effective and saved user id and
-- no capability.
pub run-setuid_drops :
    (w : World) (t : Thread) (uid : ℕ) (cs : List Call)
    → current_thread w ≡ some t
    → t.creds.euid ≡ 0
    → uid ≢ 0
    → ((sys_setuid w uid).0 ≡ some 0)
      × ((d : Credentials) × (current_thread (run w (setuid uid ∷ cs))
            ≡ some (record t { creds = d }))
          × IsDropped uid d)
unfolding run step sys_setuid setuid_creds is_privileged
run-setuid_drops w t uid cs h root n =
    let d : Credentials = record (t.creds) {
      ruid = uid;
      euid = uid;
      suid = uid;
      capabilities = 0;
    } in
    let made : setuid_creds uid t.creds ≡ some d = ground arith in
    let w' : World = record w { threads = set_creds w.threads t.tid d } in
    let moved : sys_setuid w uid ≡ (some 0, w') = ground arith in
    (
      ap (λ r. r.0) moved,
      subst
          (λ (v : World).
            (d : Credentials) × (current_thread (run v cs) ≡ some (record t { creds = d }))
            × IsDropped uid d)
          (sym (ap (λ r. r.1) moved))
          (run-keeps (IsDropped uid) (Change-IsDropped uid n) w' (record t { creds = d }) cs
            (current_thread-set_creds w t t d h (get_thread_by_tid-current w t h) ∙ ground arith)
            (refl, refl, refl, refl)),
    )
