-- ===== src/Vfs/Tty.antt =====
-- src/kernel/vfs/tty.cpp: the line discipline, its ring of input and its reader. What the console prints
-- is a list of characters. Whether the waiting reader is blocked is given, and the reader that is
-- unblocked is a result. A character is its code from 0 to 255.
pub mod Queue
pub mod Ring
pub mod Feed
pub mod Read
pub mod Wakeup
mod Tests
use rucux.Base.{
  ℕ, zero, suc, ◌+◌, ◌-◌, ◌%◌, bit_and, Bool, true, false, ◌&&◌, ◌||◌, not, Option, none, some,
  List, [], ◌∷◌, ◌++◌, ltb, leb, ◌==◌, if◌then◌else◌,
}

pub record Termios : Type 0 where
  pub c_iflag : ℕ
  pub c_oflag : ℕ
  pub c_cflag : ℕ
  pub c_lflag : ℕ
  pub c_line : ℕ
  pub c_cc : ℕ → ℕ
  pub c_ispeed : ℕ
  pub c_ospeed : ℕ

abbrev pub icanon : ℕ
icanon = 2

abbrev pub echo_bit : ℕ
echo_bit = 8

abbrev pub echoe : ℕ
echoe = 16

abbrev pub icrnl : ℕ
icrnl = 256

abbrev pub buf_size : ℕ
buf_size = 1024

-- A thread is its number; no waiting thread is `none`.
pub record Tty : Type 0 where
  pub term : Termios
  pub rx_buf : ℕ → ℕ
  pub rx_head : ℕ
  pub rx_tail : ℕ
  pub lines_available : ℕ
  pub waiting_thread : Option ℕ

unfoldable pub is_set : ℕ → ℕ → Bool
is_set flags mask = not (bit_and flags mask == 0)

abbrev pub canonical : Tty → Bool
canonical s = is_set s.term.c_lflag icanon

abbrev pub echo : Tty → Bool
echo s = is_set s.term.c_lflag echo_bit

-- The characters that end a line: newline and end of transmission.
abbrev pub is_delimiter : ℕ → Bool
is_delimiter c = c == 10 || c == 4

abbrev pub previous : ℕ → ℕ
previous i = (i + buf_size - 1) % buf_size

abbrev pub next : ℕ → ℕ
next i = (i + 1) % buf_size

-- Erases one character, or with character 21 the rest of the line; the head, and what is printed.
unfoldable pub erase : ℕ → (ℕ → ℕ) → Bool → ℕ → ℕ → ℕ → ℕ × List ℕ
erase zero rx_buf visible c tail head = (head, [])
erase (suc fuel) rx_buf visible c tail head =
    let rest = erase fuel rx_buf visible c tail (previous head) in
    let shown = (if visible then 8 ∷ 32 ∷ 8 ∷ [] else []) in
    if head == tail || is_delimiter (rx_buf (previous head))
    then (head, [])
    else if not (c == 21)
    then (previous head, shown)
    else (rest.0, shown ++ rest.1)

abbrev pub translate : Tty → ℕ → ℕ
translate s c = if c == 13 && is_set s.term.c_iflag icrnl then 10 else c

abbrev pub is_erase : ℕ → Bool
is_erase c = c == 127 || c == 8 || c == 21

unfoldable pub put_char : Tty → ℕ → Tty
put_char s c = record s {
  rx_buf = λ i. if i == s.rx_head then c else s.rx_buf i;
  rx_head = next s.rx_head;
  lines_available =
      if canonical s && is_delimiter c then s.lines_available + 1 else s.lines_available;
}

-- There is no room for the character; a line keeps one place for its delimiter.
unfoldable pub is_full : Tty → ℕ → Bool
is_full s c =
    next s.rx_head == s.rx_tail
    || canonical s && not (c == 10) && not (c == 4) && next (next s.rx_head) == s.rx_tail

-- The waiting reader is taken out when it has something to read; the thread that is unblocked.
unfoldable pub wake_reader : (ℕ → Bool) → Tty → Tty × Option ℕ
wake_reader blocked s = elim s.waiting_thread [
  | none ↦ (s, none)
  | some reader ↦
      if not (canonical s) || not (s.lines_available == 0)
      then (record s { waiting_thread = none }, if blocked reader then some reader else none)
      else (s, none)
]

-- The state, what is printed and the thread that is unblocked, on a terminal that is ready.
unfoldable pub feed : (ℕ → Bool) → Tty → ℕ → Tty × List ℕ × Option ℕ
feed blocked s typed =
    let c = translate s typed in
    if canonical s && is_erase c
    then (let (head, shown) =
          erase buf_size s.rx_buf (echo s && is_set s.term.c_lflag echoe) c s.rx_tail s.rx_head in
        (record s { rx_head = head }, shown, none))
    else if is_full s c
    then (s, [], none)
    else (let (s', woken) = wake_reader blocked (put_char s c) in
        (s', (if echo s && not (canonical s && c == 4) then c ∷ [] else []), woken))

-- Before create the terminal takes no input.
unfoldable pub feed_input : Bool → (ℕ → Bool) → Tty → ℕ → Tty × List ℕ × Option ℕ
feed_input ready blocked s c = if ready then feed blocked s c else (s, [], none)

abbrev pub without : Tty → ℕ → Tty
without s t = elim s.waiting_thread [
  | none ↦ s
  | some r ↦ if r == t then record s { waiting_thread = none } else s
]

unfoldable pub detach_reader : Tty → ℕ → Tty
detach_reader s t = without s t

unfoldable pub buf_count : Tty → ℕ
buf_count s = (s.rx_head + buf_size - s.rx_tail) % buf_size

-- The characters read, the tail and the lines left; a read of `size` characters takes at most
-- `size` rounds, and one for a delimiter that is not given.
unfoldable pub read_loop : ℕ → (ℕ → ℕ) → Bool → ℕ → ℕ → ℕ → List ℕ × ℕ × ℕ
read_loop zero rx_buf canon head tail lines = ([], tail, lines)
read_loop (suc size) rx_buf canon head tail lines =
    let c = rx_buf tail in
    let (out, tail', lines') = read_loop size rx_buf canon head (next tail) lines in
    if tail == head
    then ([], tail, lines)
    else if canon && c == 4
    then ([], next tail, lines - 1)
    else if canon && c == 10
    then (c ∷ [], next tail, lines - 1)
    else (c ∷ out, tail', lines')

unfoldable pub is_ready : Tty → ℕ → Bool
unfolding buf_count
is_ready s size =
    let vmin = s.term.c_cc 6 in
    if canonical s
    then not (s.lines_available == 0)
    else leb (if ltb size vmin then size else vmin) (buf_count s)

-- How one pass of the read loop ends: with characters, with an error, or asleep.
pub data Pass : Type 0 where
  finished : List ℕ → Pass
  interrupted : Pass
  no_thread : Pass
  sleeps : Pass

-- What a pass does after its first look at the signals; a fatal one may come before the wait begins.
unfoldable pub read_or_sleep : Option ℕ → Bool → Tty → ℕ → Pass × Tty
unfolding is_ready
read_or_sleep reader late s size =
    if is_ready s size
    then (let (out, tail, lines) =
          read_loop size s.rx_buf (canonical s) s.rx_head s.rx_tail s.lines_available in
        (finished out, record s { rx_tail = tail; lines_available = lines }))
    else elim reader [
      | none ↦ (no_thread, s)
      | some t ↦ if late then (interrupted, s) else (sleeps, record s { waiting_thread = some t })
    ]

-- One pass of tty_read for at least one character by a thread, if there is one, that has a fatal
-- signal pending or not, at first and when the wait is to begin.
unfoldable pub read_pass : Option ℕ → Bool → Bool → Tty → ℕ → Pass × Tty
read_pass none fatal late s size = read_or_sleep none late s size
read_pass (some t) fatal late s size =
    if fatal then (interrupted, without s t) else read_or_sleep (some t) late (without s t) size

-- TCGETS and TCSETS, and TIOCSTI as typed input.
pub data Request : Type 0 where
  tcgets : Request
  tcsets : Termios → Request
  tiocsti : ℕ → Request
  unknown : Request

-- Success, the settings that TCGETS gives and the state.
unfoldable pub tty_ioctl : (ℕ → Bool) → Tty → Request → Bool × Option Termios × Tty
tty_ioctl blocked s tcgets = (true, some s.term, s)
tty_ioctl blocked s (tcsets t) = (true, none, record s { term = t })
tty_ioctl blocked s (tiocsti c) = (true, none, (feed blocked s c).0)
tty_ioctl blocked s unknown = (false, none, s)

-- POLLIN; POLLOUT always holds.
unfoldable pub poll_in : Tty → Bool
poll_in s =
    if s.rx_head == s.rx_tail then false else if canonical s then ltb 0 s.lines_available else true

-- The settings are those before create, with the fields that it sets.
unfoldable pub create : Tty → Tty
create s = record s {
  rx_head = 0;
  rx_tail = 0;
  lines_available = 0;
  waiting_thread = none;
  term = record s.term {
    c_iflag = icrnl;
    c_cc = λ i. if i == 6 then 1 else s.term.c_cc i;
    c_lflag = 2 + 8 + 16 + 32 + 64;
    c_oflag = 64;
  };
}
