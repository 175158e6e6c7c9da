-- ===== src/Vfs/Tty/Wakeup.antt =====
-- A thread that reads the terminal of src/kernel/vfs/tty.cpp, its sleep and its wake-up. The terminal has
-- one slot for a waiting reader, so one thread is looked at that is the only one to read.
use rucux.Base.{
  ℕ, ◌≡◌, refl, ap, sym, subst, Bool, true, false, List, [], ◌∷◌, arith, ◌==◌, Bool-cases, inl, inr,
  ◌⊎◌, none, some, Option, Option-cases, if◌then◌else◌, ==_self,
}
use rucux.Vfs.Tty.{
  Tty, canonical, feed, put_char, wake_reader, is_full, translate, is_erase, is_ready,
  read_or_sleep, Pass, finished, interrupted, no_thread, sleeps, read_pass, without, detach_reader,
}
use rucux.Vfs.Tty.Ring.{IsValid}
use rucux.Vfs.Tty.Feed.{feed_refines}
use rucux.Vfs.Tty.Read.{read_pass_lem, PassOf, reads, waits, IsValid-reader, without-record}

-- The terminal, and which threads are blocked.
pub record Machine : Type 0 where
  pub tty : Tty
  pub blocked : ℕ → Bool

-- scheduler::unblock of the thread that feed gives, if it gives one.
abbrev pub unblocked : Option ℕ → (ℕ → Bool) → ℕ → Bool
unblocked none blocked = blocked
unblocked (some t) blocked = λ x. if x == t then false else blocked x

abbrev pub is_asleep : Pass → Bool
is_asleep (finished out) = false
is_asleep interrupted = false
is_asleep no_thread = false
is_asleep sleeps = true

-- What happens: a character is typed; the reader makes a pass of a read, with a fatal signal pending or
-- not at its two looks; or it ends. A signal may wake it too, so it may make a pass at any time.
pub data Event : Type 0 where
  types : ℕ → Event
  reads_line : Bool → Bool → ℕ → Event
  leaves : Event

unfoldable pub step : ℕ → Machine → Event → Machine
step r m (types c) =
    let (s, _, woken) = feed m.blocked m.tty c in
    record { tty = s; blocked = unblocked woken m.blocked }
step r m (reads_line fatal late size) =
    let (how, s) = read_pass (some r) fatal late m.tty size in
    record { tty = s; blocked = λ x. if x == r then is_asleep how else m.blocked x }
step r m leaves = record {
  tty = detach_reader m.tty r;
  blocked = λ x. if x == r then false else m.blocked x;
}

unfoldable pub run : ℕ → Machine → List Event → Machine
run r m [] = m
run r m (e ∷ es) = run r (step r m e) es

abbrev pub IsAwake : Tty → Type 0
IsAwake s = (s.waiting_thread ≡ none) ⊎ (s.lines_available ≡ 0)

-- The reader is not blocked, or it is enrolled as the one to wake and there is no complete line.
abbrev pub SleepsRightly : ℕ → (ℕ → Bool) → Tty → Type 0
SleepsRightly r blocked s =
    (blocked r ≡ false) ⊎ ((s.waiting_thread ≡ some r) × (s.lines_available ≡ 0))

pub record IsServed (r : ℕ) (m : Machine) : Type 0 where
  pub valid : IsValid m.tty
  pub awake : IsAwake m.tty
  pub rightly : SleepsRightly r m.blocked m.tty

-- The state and the wake-up that feed gives.
Served : ℕ → (ℕ → Bool) → Tty → Option ℕ → Type 0
Served r blocked s woken = IsAwake s × SleepsRightly r (unblocked woken blocked) s

without-IsAwake : (s : Tty) (t : ℕ) → IsAwake s → IsAwake (without s t)
without-IsAwake s t awake = elim (Option-cases s.waiting_thread) [
  | inl z ↦ inl (ground arith)
  | inr (q, z) ↦ elim awake [ inl n ↦ absurd (ground arith) | inr n ↦ inr (ground arith) ]
]

without-IsValid : (s : Tty) (t : ℕ) → IsValid s → IsValid (without s t)
without-IsValid s t v =
    let (w, e) = without-record s t in subst IsValid (sym e) (IsValid-reader s w v)

wake_reader-Served :
    (r : ℕ) (blocked : ℕ → Bool) (t : Tty)
    → canonical t ≡ true
    → (blocked r ≡ false) ⊎ (t.waiting_thread ≡ some r)
    → Served r blocked (wake_reader blocked t).0 (wake_reader blocked t).1
unfolding wake_reader Served
wake_reader-Served r blocked t canon before = elim (Option-cases t.waiting_thread) [
  | inl e ↦ elim before [
    | inl up ↦ (inl (ground arith), inl (ground arith))
    | inr enrolled ↦ absurd (cc)
  ]
  | inr (q, e) ↦ elim (Bool-cases (t.lines_available == 0)) [
    | inl idle ↦ elim before [
      | inl up ↦ (inr (ground arith), inl (ground arith))
      | inr enrolled ↦ (inr (ground arith), inr (ground arith, ground arith))
    ]
    | inr busy ↦ elim (Bool-cases (blocked q)) [
      | inl asleep ↦ elim before [
        | inl up ↦ (inl (ground arith), inl (ground arith))
        | inr enrolled ↦ (inl (ground arith), inl (ground arith))
      ]
      | inr up' ↦ elim before [
        | inl up ↦ (inl (ground arith), inl (ground arith))
        | inr enrolled ↦
            let same : q ≡ r = cc in (inl (ground arith), inl (ground (arith, ap blocked same)))
      ]
    ]
  ]
]

feed-Served :
    (r : ℕ) (m : Machine) (typed : ℕ)
    → IsServed r m
    → Served r m.blocked (feed m.blocked m.tty typed).0 (feed m.blocked m.tty typed).2
unfolding feed Served
feed-Served r m typed ok =
    let s : Tty = m.tty in
    let c : ℕ = translate s typed in
    elim (Bool-cases (is_erase c)) [
      | inl editing ↦ rw (ok.valid.canon, editing) (ok.awake, ok.rightly)
      | inr plain ↦ elim (Bool-cases (is_full s c)) [
        | inl full ↦ rw (ok.valid.canon, plain, full) (ok.awake, ok.rightly)
        | inr room ↦
            let before : (m.blocked r ≡ false) ⊎ (s.waiting_thread ≡ some r) = elim ok.rightly [
              | inl up ↦ inl up
              | inr (enrolled, _) ↦ inr enrolled
            ] in
            rw (ok.valid.canon, plain, room)
              (unfold put_char in
                wake_reader-Served r m.blocked (put_char s c) ok.valid.canon before)
      ]
    ]

read_or_sleep-IsAwake :
    (s : Tty) (t size : ℕ) (late : Bool)
    → IsValid s
    → IsAwake s
    → IsAwake (read_or_sleep (some t) late s size).1
unfolding read_or_sleep
read_or_sleep-IsAwake s t size late v awake = elim (Bool-cases (s.lines_available == 0)) [
  | inl idle ↦ inr (ground (arith, v.canon))
  | inr busy ↦ elim awake [
    | inl free ↦ inl (ground (arith, v.canon))
    | inr none_left ↦ absurd (ground arith)
  ]
]

PassOf-IsValid : {s : Tty} {t size : ℕ} {r : Pass × Tty} → PassOf s t size r → IsValid r.1
PassOf-IsValid (reads out busy result line v) = v
PassOf-IsValid (waits idle result enrolled same v) = v

read_or_sleep-late :
    (s : Tty) (t size : ℕ) (late : Bool)
    → ((read_or_sleep (some t) late s size).1 ≡ (read_or_sleep (some t) false s size).1)
      ⊎ ((read_or_sleep (some t) late s size).1 ≡ s)
unfolding read_or_sleep
read_or_sleep-late s t size late = elim (Bool-cases (is_ready s size)) [
  | inl ready ↦ inl (ground arith)
  | inr idle ↦ elim (Bool-cases late) [ inl l ↦ inr (ground arith) | inr l ↦ inl (ground arith) ]
]

read_or_sleep-IsValid :
    (s : Tty) (t size : ℕ) (late : Bool)
    → IsValid s
    → IsValid (read_or_sleep (some t) false s size).1
    → IsValid (read_or_sleep (some t) late s size).1
read_or_sleep-IsValid s t size late v after = elim (read_or_sleep-late s t size late) [
  | inl e ↦ subst IsValid (sym e) after
  | inr e ↦ subst IsValid (sym e) v
]

-- A reader that sleeps is enrolled, and has seen no line.
read_or_sleep-rightly :
    (s : Tty) (t size : ℕ) (late : Bool)
    → IsValid s
    → (is_asleep (read_or_sleep (some t) late s size).0 ≡ false)
      ⊎ (((read_or_sleep (some t) late s size).1.waiting_thread ≡ some t)
          × ((read_or_sleep (some t) late s size).1.lines_available ≡ 0))
unfolding read_or_sleep is_ready
read_or_sleep-rightly s t size late v = elim (Bool-cases (s.lines_available == 0)) [
  | inl idle ↦ elim (Bool-cases late) [
    | inl l ↦ inl (ground (arith, v.canon))
    | inr l ↦ inr (ground (arith, v.canon), ground (arith, v.canon))
  ]
  | inr busy ↦ inl (ground (arith, v.canon))
]

read-IsServed :
    (r : ℕ) (m : Machine) (fatal late : Bool) (size : ℕ)
    → IsServed r m
    → IsServed r (step r m (reads_line fatal late size))
unfolding step read_pass
read-IsServed r m true late size ok = record {
  valid = without-IsValid m.tty r ok.valid;
  awake = without-IsAwake m.tty r ok.awake;
  rightly = inl (rw (==_self r) refl);
}
read-IsServed r m false late size ok =
    let s : Tty = without m.tty r in
    let v : IsValid s = without-IsValid m.tty r ok.valid in
    record {
      valid =
          read_or_sleep-IsValid s r size late v
            (PassOf-IsValid (read_pass_lem m.tty r size ok.valid));
      awake = read_or_sleep-IsAwake s r size late v (without-IsAwake m.tty r ok.awake);
      rightly = rw (==_self r) (read_or_sleep-rightly s r size late v);
    }

step-IsServed : (r : ℕ) (m : Machine) (e : Event) → IsServed r m → IsServed r (step r m e)
unfolding step detach_reader Served
step-IsServed r m (types c) ok = record {
  valid = (feed_refines m.blocked m.tty c ok.valid).valid;
  awake = (feed-Served r m c ok).0;
  rightly = (feed-Served r m c ok).1;
}
step-IsServed r m (reads_line fatal late size) ok = read-IsServed r m fatal late size ok
step-IsServed r m leaves ok = record {
  valid = without-IsValid m.tty r ok.valid;
  awake = without-IsAwake m.tty r ok.awake;
  rightly = inl (rw (==_self r) refl);
}

-- Whatever is typed in canonical mode while one thread reads, in any order, from a terminal where it
-- holds: that thread is not blocked, or it is enrolled as the waiting reader and the ring holds no
-- complete line; no thread is left enrolled while the ring holds one; and the ring and its count of lines
-- stay right.
pub run-IsServed : (r : ℕ) (m : Machine) (es : List Event) → IsServed r m → IsServed r (run r m es)
unfolding run
run-IsServed r m [] ok = ok
run-IsServed r m (e ∷ es) ok = run-IsServed r (step r m e) es (step-IsServed r m e ok)
