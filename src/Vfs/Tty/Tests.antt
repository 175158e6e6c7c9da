-- ===== src/Vfs/Tty/Tests.antt =====
-- Examples of the terminal: a line that is typed, corrected and read.
use rucux.Base.{◌≡◌, refl, false, none, some, [], ◌∷◌, inr, arith, ◌==◌, leb, true, ◌&&◌}
use rucux.Vfs.Tty.{
  Tty, is_set, buf_count, create, translate, feed, read_pass, read_or_sleep, is_full, wake_reader,
  put_char, erase,
}
use rucux.Vfs.Tty.Queue.{lines}
use rucux.Vfs.Tty.Ring.{from, contents}
use rucux.Vfs.Tty.Feed.{Fed, feed_refines}
use rucux.Vfs.Tty.Read.{PassOf, read_pass_lem}
use rucux.Vfs.Tty.Wakeup.{Machine, types, reads_line, step, run, IsServed, run-IsServed}

abbrev blank : Tty
blank = record {
  term = record {
    c_iflag = 0;
    c_oflag = 0;
    c_cflag = 0;
    c_lflag = 0;
    c_line = 0;
    c_cc = λ i. 0;
    c_ispeed = 0;
    c_ospeed = 0;
  };
  rx_buf = λ i. 0;
  rx_head = 0;
  rx_tail = 0;
  lines_available = 0;
  waiting_thread = none;
}

abbrev created : Tty
created = create blank

-- Thread 7 sleeps on the terminal that is created.
abbrev asleep : Machine
asleep = record { tty = record created { waiting_thread = some 7 }; blocked = λ t. t == 7 }

asleep-IsServed : IsServed 7 asleep
unfolding create is_set buf_count contents from lines
asleep-IsServed = record {
  valid = record {
    canon = refl;
    head_small = omega arith;
    tail_small = omega arith;
    counted = refl;
  };
  awake = inr refl;
  rightly = inr (refl, refl);
}

-- "ab", a backspace and a carriage return are typed, which wakes the reader, and then a character.
abbrev typed : Machine
typed = run 7 asleep (types 97 ∷ types 98 ∷ types 127 ∷ types 13 ∷ types 99 ∷ [])

typed-IsServed : IsServed 7 typed
typed-IsServed =
    run-IsServed 7 asleep (types 97 ∷ types 98 ∷ types 127 ∷ types 13 ∷ types 99 ∷ [])
      asleep-IsServed

run-IsServed_example :
    IsServed 7 (run 7 asleep (types 97 ∷ types 10 ∷ reads_line false false 10 ∷ []))
run-IsServed_example =
    run-IsServed 7 asleep (types 97 ∷ types 10 ∷ reads_line false false 10 ∷ []) asleep-IsServed

woken : typed.blocked 7 ≡ false
unfolding run step feed create is_set is_full wake_reader put_char erase
woken = refl

-- Where two threads sleep, the second takes the slot, and only it is woken.
abbrev two_asleep : Machine
two_asleep = record asleep { blocked = λ t. leb 6 t && leb t 7 }

displaced : (run 7 two_asleep (types 10 ∷ [])).blocked 6 ≡ true
unfolding run step feed create is_set is_full wake_reader put_char
displaced = refl

feed_refines_example : Fed typed.tty (translate typed.tty 21) (feed typed.blocked typed.tty 21).0
feed_refines_example = feed_refines typed.blocked typed.tty 21 typed-IsServed.valid

read_pass_lem_example : PassOf typed.tty 7 10 (read_pass (some 7) false false typed.tty 10)
read_pass_lem_example = read_pass_lem typed.tty 7 10 typed-IsServed.valid

typed-contents : contents typed.tty ≡ 97 ∷ 10 ∷ 99 ∷ []
unfolding run step feed read_pass create is_set contents from buf_count read_or_sleep is_full
    wake_reader put_char erase
typed-contents = refl
