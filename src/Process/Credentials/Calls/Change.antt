-- ===== src/Process/Credentials/Calls/Change.antt =====
-- The rules for what a credential call of src/kernel/process/credentials.cpp may change of its caller.
use rucux.Base.{
  ℕ, ◌≡◌, refl, ◌∙◌, ◌≢◌, ap, subst, ◌⊎◌, inl, inr, Option, some, List, [], ◌∷◌, arith, ◌==◌,
  if◌then◌else◌, Bool-cases, Option-cases,
}
use rucux.Process.Credentials.{
  Credentials, Thread, World, is_privileged, get_thread_by_tid, current_thread, set_creds,
}
use rucux.Process.Credentials.Calls.{
  Call, setuid, seteuid, setgid, setegid, setsid, setpgid, on_caller, setuid_creds, seteuid_creds,
  setgid_creds, setegid_creds, sys_setuid, sys_seteuid, sys_setgid, sys_setegid, sys_setsid,
  sys_setpgid, setpgid_target, step, run,
}
use rucux.Process.Credentials.Calls.Laws.{
  get_thread_by_tid-current, current_thread-set_creds, tid-get_thread_by_tid,
}

-- The rules. Root may take any user id for all three; anyone may move the effective id among the
-- real and the saved id; capabilities are kept or lost, and lost by one who stops being root.
pub record Change (c d : Credentials) : Type 0 where
  pub uids :
      ((d.ruid ≡ c.ruid)
        × (d.suid ≡ c.suid)
        × ((d.euid ≡ c.euid) ⊎ ((c.euid ≡ 0) ⊎ ((d.euid ≡ c.ruid) ⊎ (d.euid ≡ c.suid)))))
      ⊎ ((c.euid ≡ 0) × (d.ruid ≡ d.euid) × (d.suid ≡ d.euid))
  pub caps : (d.capabilities ≡ c.capabilities) ⊎ (d.capabilities ≡ 0)
  pub leaves_root : (c.euid ≢ 0) ⊎ ((d.euid ≡ 0) ⊎ (d.capabilities ≡ 0))

-- The running thread after a step: itself, with credentials that it may have.
abbrev pub Stepped : World → Thread → Type 0
Stepped w t =
    (d : Credentials) × (current_thread w ≡ some (record t { creds = d })) × Change t.creds d

-- Only the group ids, the session or the process group differ.
abbrev SameUser : Credentials → Credentials → Type 0
SameUser c d =
    (d.ruid ≡ c.ruid) × (d.euid ≡ c.euid) × (d.suid ≡ c.suid) × (d.capabilities ≡ c.capabilities)

SameUser-Change : (c d : Credentials) → SameUser c d → Change c d
SameUser-Change c d s = record {
  uids = inl (s.0, s.2, inl s.1);
  caps = inl s.3;
  leaves_root = elim (Bool-cases (c.euid == 0)) [
    | inl e ↦ inr (inl (ground arith))
    | inr e ↦ inl (λ z. ground arith)
  ];
}

setuid_creds-Change : (uid : ℕ) (c d : Credentials) → setuid_creds uid c ≡ some d → Change c d
unfolding setuid_creds is_privileged
setuid_creds-Change uid c d h = record {
  uids = ground arith;
  caps = ground arith;
  leaves_root = ground arith;
}

seteuid_creds-Change : (uid : ℕ) (c d : Credentials) → seteuid_creds uid c ≡ some d → Change c d
unfolding seteuid_creds is_privileged
seteuid_creds-Change uid c d h = record {
  uids = ground arith;
  caps = ground arith;
  leaves_root = ground arith;
}

setgid_creds-SameUser : (gid : ℕ) (c d : Credentials) → setgid_creds gid c ≡ some d → SameUser c d
unfolding setgid_creds is_privileged
setgid_creds-SameUser gid c d h = ground arith

setegid_creds-SameUser : (gid : ℕ) (c d : Credentials) → setegid_creds gid c ≡ some d → SameUser c d
unfolding setegid_creds is_privileged
setegid_creds-SameUser gid c d h = ground arith

same-Stepped : (w v : World) (t : Thread) → v ≡ w → current_thread w ≡ some t → Stepped v t
same-Stepped w v t e h =
    (t.creds, ap current_thread e ∙ h, SameUser-Change t.creds t.creds (refl, refl, refl, refl))

write-Stepped :
    (w v : World) (t : Thread) (d : Credentials)
    → v ≡ record w { threads = set_creds w.threads t.tid d }
    → current_thread w ≡ some t
    → Change t.creds d
    → Stepped v t
write-Stepped w v t d e h ch = (
  d,
  ap current_thread e
      ∙ (current_thread-set_creds w t t d h (get_thread_by_tid-current w t h) ∙ ground arith),
  ch,
)

on_caller-Stepped :
    (w : World) (t : Thread) (f : Credentials → Option Credentials)
    → ((d : Credentials) → f t.creds ≡ some d → Change t.creds d)
    → current_thread w ≡ some t
    → Stepped (on_caller w f).1 t
on_caller-Stepped w t f ok h = elim (Option-cases (f t.creds)) [
  | inl e ↦ same-Stepped w _ t (ground arith) h
  | inr (d, e) ↦ write-Stepped w _ t d (ground arith) h (ok d e)
]

sys_setsid-Stepped :
    (w : World) (t : Thread) → current_thread w ≡ some t → Stepped (sys_setsid w).1 t
unfolding sys_setsid
sys_setsid-Stepped w t h = elim (Bool-cases (t.creds.pgid == t.tid)) [
  | inl e ↦ same-Stepped w _ t (ground arith) h
  | inr e ↦
      let d : Credentials = record (t.creds) { sid = t.tid; pgid = t.tid } in
      write-Stepped w _ t d (ground arith) h (SameUser-Change t.creds d (refl, refl, refl, refl))
]

pub setpgid_target-found :
    (w : World) (t u : Thread) (pid : ℕ)
    → current_thread w ≡ some t
    → setpgid_target w t pid ≡ some u
    → get_thread_by_tid w.threads u.tid ≡ some u
unfolding setpgid_target is_privileged
setpgid_target-found w t u pid h e =
    ground (arith, get_thread_by_tid-current w t h, tid-get_thread_by_tid w.threads pid u)

-- Whichever thread sys_setpgid writes to, the caller keeps its user ids.
write_pgid-Stepped :
    (w : World) (t u : Thread) (pgid : ℕ)
    → current_thread w ≡ some t
    → get_thread_by_tid w.threads u.tid ≡ some u
    → Stepped
        (record w { threads = set_creds w.threads u.tid (record (u.creds) { pgid = pgid }) })
        t
write_pgid-Stepped w t u pgid h k = elim (Bool-cases (t.tid == u.tid)) [
  | inl e ↦
      let d : Credentials = record (u.creds) { pgid = pgid } in
      (
        d,
        current_thread-set_creds w t u d h k ∙ ground (arith, get_thread_by_tid-current w t h),
        SameUser-Change t.creds d (ground (arith, get_thread_by_tid-current w t h)),
      )
  | inr e ↦ (
    t.creds,
    current_thread-set_creds w t u _ h k ∙ ground arith,
    SameUser-Change t.creds t.creds (refl, refl, refl, refl),
  )
]

sys_setpgid-Stepped :
    (w : World) (t : Thread) (pid pgid : ℕ)
    → current_thread w ≡ some t
    → Stepped (sys_setpgid w pid pgid).1 t
unfolding sys_setpgid
sys_setpgid-Stepped w t pid pgid h = elim (Option-cases (setpgid_target w t pid)) [
  | inl e ↦ same-Stepped w _ t (ground arith) h
  | inr (u, e) ↦ elim (Bool-cases (u.creds.sid == t.creds.sid)) [
    | inl same ↦
        subst (λ v. Stepped v t) (ground arith)
          (write_pgid-Stepped w t u (if pgid == 0 then u.tid else pgid) h
            (setpgid_target-found w t u pid h e))
    | inr other ↦ same-Stepped w _ t (ground arith) h
  ]
]

-- Every credential call leaves the same thread running, and changes its user ids and capabilities
-- only as the rules allow.
pub step-Change :
    (w : World) (t : Thread) (c : Call) → current_thread w ≡ some t → Stepped (step w c) t
unfolding step sys_setuid sys_seteuid sys_setgid sys_setegid
step-Change w t (setuid uid) h =
    on_caller-Stepped w t (setuid_creds uid) (setuid_creds-Change uid t.creds) h
step-Change w t (seteuid uid) h =
    on_caller-Stepped w t (seteuid_creds uid) (seteuid_creds-Change uid t.creds) h
step-Change w t (setgid gid) h =
    on_caller-Stepped w t (setgid_creds gid)
      (λ d e. SameUser-Change t.creds d (setgid_creds-SameUser gid t.creds d e)) h
step-Change w t (setegid gid) h =
    on_caller-Stepped w t (setegid_creds gid)
      (λ d e. SameUser-Change t.creds d (setegid_creds-SameUser gid t.creds d e)) h
step-Change w t setsid h = sys_setsid-Stepped w t h
step-Change w t (setpgid pid pgid) h = sys_setpgid-Stepped w t pid pgid h

-- What every change keeps, every sequence of calls keeps.
pub run-keeps {ℓ} :
    (P : Credentials → Type ℓ)
    → ((c d : Credentials) → Change c d → P c → P d)
    → (w : World) (t : Thread) (cs : List Call) → current_thread w ≡ some t
    → P t.creds
    → (d : Credentials) × (current_thread (run w cs) ≡ some (record t { creds = d })) × P d
unfolding run
run-keeps P keep w t [] h p = (t.creds, h, p)
run-keeps P keep w t (c ∷ cs) h p =
    let (d, e, ch) = step-Change w t c h in
    run-keeps P keep (step w c) (record t { creds = d }) cs e (keep t.creds d ch p)
