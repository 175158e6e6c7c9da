-- ===== src/Process/Signal/Tests.antt =====
-- Examples of signals: a thread that masks what it can and ignores SIGTERM.
use rucux.Base.{◌<◌, ◌⊎◌, ◌≡◌, refl, true, false, ◌&&◌, some, List, [], ◌∷◌}
use rucux.Process.Signal.{
  Thread, sigkill, post_signal, enter_kernel, leave_kernel, consume_fatal_signal, sys_sigprocmask,
  change_mask, detach_thread, close_all, publish_termination,
}
use rucux.Process.Signal.Fatal.{Call, sigaction, sigprocmask, run, step, IsExposed, run-IsExposed}
use rucux.Process.Signal.Kill.{
  Event, calls, posts, leaves, waits, happen, happen_all, Killed, kill-delivered,
}

abbrev fresh : Thread
fresh = record {
  sig_handlers = λ s. 0;
  sig_restorers = λ s. 0;
  sig_mask = λ s. false;
  sig_pending = λ s. false;
  is_blocked = true;
  is_terminated = false;
  is_user = true;
  kernel_depth = 0;
  interruptible_wait = true;
  exit_code = 0;
}

fresh-IsExposed : IsExposed fresh
fresh-IsExposed = record {
  kill_unmasked = refl;
  stop_unmasked = refl;
  kill_default = refl;
  stop_default = refl;
}

abbrev stubborn : List Call
stubborn =
    sigprocmask 2 (some (λ s. true))
    ∷ sigaction 15 (some (record { sa_handler = 1; sa_restorer = 0 }))
    ∷ sigaction 9 (some (record { sa_handler = 1; sa_restorer = 0 }))
    ∷ []

run-IsExposed_example : IsExposed (run fresh stubborn)
run-IsExposed_example = run-IsExposed fresh stubborn fresh-IsExposed

-- The thread sleeps inside the kernel, is woken, ignores what it can and leaves the kernel.
abbrev sleeping : Thread
sleeping = enter_kernel fresh

abbrev way_out : List Event
way_out = waits false false ∷ calls (sigprocmask 2 (some (λ s. true))) ∷ posts 15 ∷ leaves ∷ []

abbrev outside : Thread
outside = happen_all (post_signal sleeping sigkill).1 way_out

kill-delivered_example :
    ((post_signal sleeping sigkill).2 ≡ (sleeping.interruptible_wait && sleeping.is_blocked))
    × (Killed outside
        ⊎ ((0 < outside.kernel_depth) × (consume_fatal_signal outside ≡ (false, outside, [])))
        ⊎ ((outside.kernel_depth ≡ 0)
            × ((consume_fatal_signal outside).0 ≡ true)
            × Killed (consume_fatal_signal outside).1
            × ((consume_fatal_signal outside).2
                ≡ detach_thread ∷ close_all ∷ publish_termination sigkill ∷ [])))
unfolding enter_kernel
kill-delivered_example = kill-delivered sleeping way_out refl refl

outside-depth : outside.kernel_depth ≡ 0
unfolding enter_kernel happen_all happen leave_kernel post_signal sys_sigprocmask change_mask step
outside-depth = refl
