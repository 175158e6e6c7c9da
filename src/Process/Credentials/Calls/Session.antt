-- ===== src/Process/Credentials/Calls/Session.antt =====
-- Sessions, process groups and other threads under the calls of
-- src/kernel/process/credentials.cpp, and what a getter returns after a setter.
use rucux.Base.{
  ℕ, ◌≡◌, refl, ◌∙◌, ◌≢◌, ap, ◌⊎◌, inl, inr, Option, none, some, arith, ◌==◌, if◌then◌else◌,
  Bool-cases, Option-cases,
}
use rucux.Process.Credentials.{
  Credentials, Thread, World, is_privileged, get_thread_by_tid, current_thread, set_creds,
}
use rucux.Process.Credentials.Calls.{
  Call, setuid, seteuid, setgid, setegid, setsid, setpgid, on_caller, read_caller, setuid_creds,
  seteuid_creds, setgid_creds, setegid_creds, sys_geteuid, sys_getegid, sys_setuid, sys_seteuid,
  sys_setgid, sys_setegid, sys_setsid, sys_setpgid, setpgid_target, step,
}
use rucux.Process.Credentials.Calls.Laws.{
  get_thread_by_tid-current, get_thread_by_tid-set_creds, current_thread-set_creds,
}
use rucux.Process.Credentials.Calls.Change.{setpgid_target-found}

-- What a call by `t` may leave of another thread `u`: only a new process group, and that only for
-- root within one session.
abbrev pub Spared : World → Thread → Thread → Type 0
Spared w t u =
    (p : ℕ) × (get_thread_by_tid w.threads u.tid
      ≡ some (record u { creds = record (u.creds) { pgid = p } }))
    × ((p ≡ u.creds.pgid) ⊎ ((u.creds.sid ≡ t.creds.sid) × (t.creds.euid ≡ 0)))

module _ (w : World) (t u : Thread) (h : current_thread w ≡ some t)
    (k : get_thread_by_tid w.threads u.tid ≡ some u) (ne : u.tid ≢ t.tid) where
  same-Spared : (v : World) → v ≡ w → Spared v t u
  same-Spared v e =
      (u.creds.pgid, ap (λ (x : World). get_thread_by_tid x.threads u.tid) e ∙ k, inl refl)

  write-Spared :
      (v : World) (d : Credentials)
      → v ≡ record w { threads = set_creds w.threads t.tid d }
      → Spared v t u
  write-Spared v d e = (
    u.creds.pgid,
    ap (λ (x : World). get_thread_by_tid x.threads u.tid) e
        ∙ ground (
          arith,
          get_thread_by_tid-set_creds w.threads t.tid u.tid d t (get_thread_by_tid-current w t h),
        ),
    inl refl,
  )

  on_caller-Spared : (f : Credentials → Option Credentials) → Spared (on_caller w f).1 t u
  on_caller-Spared f = elim (Option-cases (f t.creds)) [
    | inl e ↦ same-Spared (on_caller w f).1 (ground arith)
    | inr (d, e) ↦ write-Spared (on_caller w f).1 d (ground arith)
  ]

  sys_setsid-Spared : Spared (sys_setsid w).1 t u
  unfolding sys_setsid
  sys_setsid-Spared = elim (Bool-cases (t.creds.pgid == t.tid)) [
    | inl e ↦ same-Spared (sys_setsid w).1 (ground arith)
    | inr e ↦
        write-Spared (sys_setsid w).1 (record (t.creds) { sid = t.tid; pgid = t.tid })
          (ground arith)
  ]

  root_target :
      (pid : ℕ) (x : Thread) → setpgid_target w t pid ≡ some x → (x ≡ t) ⊎ (t.creds.euid ≡ 0)
  unfolding setpgid_target is_privileged
  root_target pid x e = ground arith

  write_pgid-Spared :
      (v : World) (x : Thread) (pid p : ℕ)
      → setpgid_target w t pid ≡ some x
      → x.creds.sid ≡ t.creds.sid
      → v ≡ record w { threads = set_creds w.threads x.tid (record (x.creds) { pgid = p }) }
      → Spared v t u
  write_pgid-Spared v x pid p e same ve = elim (Bool-cases (u.tid == x.tid)) [
    | inl hit ↦ (
      p,
      ap (λ (y : World). get_thread_by_tid y.threads u.tid) ve
          ∙ ground (
            arith,
            setpgid_target-found w t x pid h e,
            get_thread_by_tid-set_creds w.threads x.tid u.tid (record (x.creds) { pgid = p }) x,
          ),
      ground (arith, setpgid_target-found w t x pid h e, root_target pid x e),
    )
    | inr miss ↦ (
      u.creds.pgid,
      ap (λ (y : World). get_thread_by_tid y.threads u.tid) ve
          ∙ ground (
            arith,
            setpgid_target-found w t x pid h e,
            get_thread_by_tid-set_creds w.threads x.tid u.tid (record (x.creds) { pgid = p }) x,
          ),
      inl refl,
    )
  ]

  sys_setpgid-Spared : (pid pgid : ℕ) → Spared (sys_setpgid w pid pgid).1 t u
  unfolding sys_setpgid
  sys_setpgid-Spared pid pgid = elim (Option-cases (setpgid_target w t pid)) [
    | inl e ↦ same-Spared (sys_setpgid w pid pgid).1 (ground arith)
    | inr (x, e) ↦ elim (Bool-cases (x.creds.sid == t.creds.sid)) [
      | inl same ↦
          write_pgid-Spared (sys_setpgid w pid pgid).1 x pid (if pgid == 0 then x.tid else pgid) e
            (ground arith) (ground arith)
      | inr other ↦ same-Spared (sys_setpgid w pid pgid).1 (ground arith)
    ]
  ]

  -- A credential call leaves every thread but its caller with the credentials that it had, but for
  -- the process group, which changes only if the caller is root and both are in one session.
  pub step-Spared : (c : Call) → Spared (step w c) t u
  unfolding step sys_setuid sys_seteuid sys_setgid sys_setegid
  step-Spared (setuid uid) = on_caller-Spared (setuid_creds uid)
  step-Spared (seteuid uid) = on_caller-Spared (seteuid_creds uid)
  step-Spared (setgid gid) = on_caller-Spared (setgid_creds gid)
  step-Spared (setegid gid) = on_caller-Spared (setegid_creds gid)
  step-Spared setsid = sys_setsid-Spared
  step-Spared (setpgid pid pgid) = sys_setpgid-Spared pid pgid

setuid-euid : (uid : ℕ) (c d : Credentials) → setuid_creds uid c ≡ some d → d.euid ≡ uid
unfolding setuid_creds is_privileged
setuid-euid uid c d h = ground arith

seteuid-euid : (uid : ℕ) (c d : Credentials) → seteuid_creds uid c ≡ some d → d.euid ≡ uid
unfolding seteuid_creds is_privileged
seteuid-euid uid c d h = ground arith

setgid-egid : (gid : ℕ) (c d : Credentials) → setgid_creds gid c ≡ some d → d.egid ≡ gid
unfolding setgid_creds is_privileged
setgid-egid gid c d h = ground arith

setegid-egid : (gid : ℕ) (c d : Credentials) → setegid_creds gid c ≡ some d → d.egid ≡ gid
unfolding setegid_creds is_privileged
setegid-egid gid c d h = ground arith

-- A setter call fails and changes nothing, or returns 0 and sets what `get` reads.
abbrev pub Sets : World → Option ℕ × World → (World → Option ℕ) → ℕ → Type 0
Sets w r get i = (r ≡ (none, w)) ⊎ ((r.0 ≡ some 0) × (get r.1 ≡ some i))

on_caller-Sets :
    (w : World) (f : Credentials → Option Credentials) (get : Credentials → ℕ) (i : ℕ)
    → ((c d : Credentials) → f c ≡ some d → get d ≡ i)
    → Sets w (on_caller w f) (λ v. read_caller v get) i
on_caller-Sets w f get i ok = elim (Option-cases (current_thread w)) [
  | inl e ↦ inl (ground arith)
  | inr (t, h) ↦ elim (Option-cases (f t.creds)) [
    | inl e ↦ inl (ground arith)
    | inr (d, e) ↦
        let w' : World = record w { threads = set_creds w.threads t.tid d } in
        let moved : on_caller w f ≡ (some 0, w') = ground arith in
        let now : current_thread w' ≡ some (record t { creds = d }) =
          current_thread-set_creds w t t d h (get_thread_by_tid-current w t h) ∙ ground arith in
        inr (
          ap (λ r. r.0) moved,
          ap (λ r. read_caller r.1 get) moved ∙ ground (arith, ok t.creds d e),
        )
  ]
]

-- setuid and seteuid either return -1 and change nothing, or return 0 and geteuid then returns the
-- id that was set; so do setgid and setegid with getegid.
pub get_set_effective :
    (w : World) (i : ℕ)
    → Sets w (sys_setuid w i) sys_geteuid i
      × Sets w (sys_seteuid w i) sys_geteuid i
      × Sets w (sys_setgid w i) sys_getegid i
      × Sets w (sys_setegid w i) sys_getegid i
unfolding sys_setuid sys_seteuid sys_setgid sys_setegid sys_geteuid sys_getegid
get_set_effective w i = (
  on_caller-Sets w (setuid_creds i) (λ c. c.euid) i (setuid-euid i),
  on_caller-Sets w (seteuid_creds i) (λ c. c.euid) i (seteuid-euid i),
  on_caller-Sets w (setgid_creds i) (λ c. c.egid) i (setgid-egid i),
  on_caller-Sets w (setegid_creds i) (λ c. c.egid) i (setegid-egid i),
)
