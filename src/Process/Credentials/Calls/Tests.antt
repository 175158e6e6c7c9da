-- ===== src/Process/Credentials/Calls/Tests.antt =====
-- The theorems on credential calls at two threads: root (tid 1) and a user (tid 2) in one session.
use rucux.Base.{◌≡◌, refl, false, some, List, [], ◌∷◌, arith}
use rucux.Process.Credentials.{
  Credentials, Thread, World, root_credentials, current_thread, get_thread_by_tid,
}
use rucux.Process.Credentials.Calls.{
  Call, setuid, seteuid, setgid, setpgid, setsid, sys_setuid, step, run,
}
use rucux.Process.Credentials.Calls.Change.{Stepped, step-Change}
use rucux.Process.Credentials.Calls.Drop.{IsDropped, run-setuid_drops}
use rucux.Process.Credentials.Calls.Session.{Spared, step-Spared}

abbrev root_thread : Thread
unfolding root_credentials
root_thread = record {
  tid = 1;
  creds = root_credentials 7 7;
  terminated = false;
  ipc_closed = false;
}

abbrev user_creds : Credentials
user_creds = record {
  ruid = 1000;
  euid = 1000;
  suid = 1001;
  rgid = 100;
  egid = 100;
  sgid = 100;
  sid = 7;
  pgid = 7;
  capabilities = 16;
}

abbrev user_thread : Thread
user_thread = record { tid = 2; creds = user_creds; terminated = false; ipc_closed = false }

abbrev as_root : World
as_root = record { threads = root_thread ∷ user_thread ∷ []; current = some 1 }

abbrev as_user : World
as_user = record { threads = root_thread ∷ user_thread ∷ []; current = some 2 }

abbrev attempts : List Call
attempts = setuid 0 ∷ seteuid 1001 ∷ setgid 0 ∷ setsid ∷ setuid 1000 ∷ []

step-Change_example : Stepped (step as_user (seteuid 1001)) user_thread
unfolding current_thread get_thread_by_tid root_credentials
step-Change_example = step-Change as_user user_thread (seteuid 1001) refl

run-setuid_drops_example :
    ((sys_setuid as_root 1000).0 ≡ some 0)
    × ((d : Credentials) × (current_thread (run as_root (setuid 1000 ∷ attempts))
          ≡ some (record root_thread { creds = d }))
        × IsDropped 1000 d)
unfolding current_thread get_thread_by_tid root_credentials
run-setuid_drops_example =
    run-setuid_drops as_root root_thread 1000 attempts refl refl (omega arith)

step-Spared_example : Spared (step as_root (setpgid 2 5)) root_thread user_thread
unfolding current_thread get_thread_by_tid root_credentials
step-Spared_example =
    step-Spared as_root root_thread user_thread refl refl (omega arith) (setpgid 2 5)
