-- ===== src/Process/Signal/Fatal.antt =====
-- Fatal signals of src/kernel/process/signal.cpp: what a thread can and cannot do about them.
use rucux.Base.{
  ℕ, ◌≡◌, refl, ap, ◌∙◌, false, ◌⊎◌, inl, inr, Option, none, some, List, [], ◌∷◌, arith,
  Option-cases,
}
use rucux.Process.Signal.{
  SigSet, sigkill, sigstop, Thread, SigAction, sys_sigaction, change_mask, sys_sigprocmask,
}

-- The calls that a thread makes about its own signals.
pub data Call : Type 0 where
  sigaction : ℕ → Option SigAction → Call
  sigprocmask : ℕ → Option SigSet → Call

abbrev after {ℓ} : {A : Type ℓ} → Thread → Option (A × Thread) → Thread
after t none = t
after t (some r) = r.1

unfoldable pub step : Thread → Call → Thread
unfolding sys_sigaction sys_sigprocmask
step t (sigaction signum act) = after t (sys_sigaction t signum act)
step t (sigprocmask how set) = after t (sys_sigprocmask t how set)

unfoldable pub run : Thread → List Call → Thread
run t [] = t
run t (c ∷ cs) = run (step t c) cs

-- A thread that masks neither SIGKILL nor SIGSTOP and has their default handlers.
pub record IsExposed (t : Thread) : Type 0 where
  pub kill_unmasked : t.sig_mask sigkill ≡ false
  pub stop_unmasked : t.sig_mask sigstop ≡ false
  pub kill_default : t.sig_handlers sigkill ≡ 0
  pub stop_default : t.sig_handlers sigstop ≡ 0

step-sigaction :
    (t : Thread) (signum k : ℕ) (act : Option SigAction)
    → (k ≡ sigkill) ⊎ (k ≡ sigstop)
    → ((step t (sigaction signum act)).sig_handlers k ≡ t.sig_handlers k)
      × ((step t (sigaction signum act)).sig_mask ≡ t.sig_mask)
unfolding step sys_sigaction
step-sigaction t signum k none h = (ground arith, ground arith)
step-sigaction t signum k (some new) h = (ground arith, ground arith)

step-sigprocmask :
    (t : Thread) (how k : ℕ) (set : Option SigSet)
    → (k ≡ sigkill) ⊎ (k ≡ sigstop)
    → t.sig_mask k ≡ false
    → ((step t (sigprocmask how set)).sig_mask k ≡ false)
      × ((step t (sigprocmask how set)).sig_handlers ≡ t.sig_handlers)
unfolding step sys_sigprocmask
step-sigprocmask t how k none h e = (e, refl)
step-sigprocmask t how k (some new) h e = elim (Option-cases (change_mask how t.sig_mask new)) [
  | inl z ↦ (ground arith, ground arith)
  | inr (mask, z) ↦ (ground arith, ground arith)
]

step-IsExposed : (t : Thread) (c : Call) → IsExposed t → IsExposed (step t c)
step-IsExposed t (sigaction signum act) ok =
    let kill = step-sigaction t signum sigkill act (inl refl) in
    let stop = step-sigaction t signum sigstop act (inr refl) in
    record {
      kill_unmasked = ap (λ (s : SigSet). s sigkill) kill.1 ∙ ok.kill_unmasked;
      stop_unmasked = ap (λ (s : SigSet). s sigstop) stop.1 ∙ ok.stop_unmasked;
      kill_default = kill.0 ∙ ok.kill_default;
      stop_default = stop.0 ∙ ok.stop_default;
    }
step-IsExposed t (sigprocmask how set) ok =
    let kill = step-sigprocmask t how sigkill set (inl refl) ok.kill_unmasked in
    let stop = step-sigprocmask t how sigstop set (inr refl) ok.stop_unmasked in
    record {
      kill_unmasked = kill.0;
      stop_unmasked = stop.0;
      kill_default = ap (λ (f : ℕ → ℕ). f sigkill) kill.1 ∙ ok.kill_default;
      stop_default = ap (λ (f : ℕ → ℕ). f sigstop) stop.1 ∙ ok.stop_default;
    }

-- No sequence of sigaction and sigprocmask calls lets a thread mask SIGKILL or SIGSTOP or replace
-- their default handlers, if it starts with both unmasked and default.
pub run-IsExposed : (t : Thread) (cs : List Call) → IsExposed t → IsExposed (run t cs)
unfolding run
run-IsExposed t [] ok = ok
run-IsExposed t (c ∷ cs) ok = run-IsExposed (step t c) cs (step-IsExposed t c ok)
