-- ===== src/Vfs/Tty/Read.antt =====
-- Reading lines from the terminal of src/kernel/vfs/tty.cpp in canonical mode.
use rucux.Base.{
  ℕ, zero, suc, ◌+◌, ◌%◌, ◌<◌, ◌≤◌, ◌≡◌, ◌≢◌, refl, sym, ap, ◌∙◌, subst, true, false, List, [], ◌∷◌,
  arith, ◌==◌, if◌then◌else◌, Bool-cases, inl, inr, Option, none, some, Option-cases,
}
use rucux.Vfs.Tty.{
  buf_size, next, Tty, buf_count, read_or_sleep, read_loop, read_pass, Pass, finished, sleeps,
  without, is_delimiter,
}
use rucux.Vfs.Tty.Queue.{lines, read_line}
use rucux.Vfs.Tty.Ring.{from, contents, contents_of, head_of, IsValid}

-- What the read loop leaves of `k` characters.
record Taken (rx_buf : ℕ → ℕ) (size head tail k : ℕ) (r : List ℕ × ℕ × ℕ) : Type 0 where
  pub left : ℕ
  pub fewer : left ≤ k
  pub small : r.1 < buf_size
  pub place : head ≡ (r.1 + left) % buf_size
  pub line : (r.0, from rx_buf r.1 left) ≡ read_line size (from rx_buf tail k)
  pub counted : r.2 ≡ lines (from rx_buf r.1 left)

read_loop_lem :
    (size : ℕ) (rx_buf : ℕ → ℕ) (head tail k : ℕ)
    → k < buf_size
    → tail < buf_size
    → head ≡ (tail + k) % buf_size
    → Taken rx_buf size head tail k
        (read_loop size rx_buf true head tail (lines (from rx_buf tail k)))
unfolding read_loop from read_line
read_loop_lem zero rx_buf head tail k room t h = record {
  left = k;
  fewer = omega arith;
  small = t;
  place = h;
  line = refl;
  counted = refl;
}
read_loop_lem (suc size) rx_buf head tail zero room t h =
    let result : read_loop (suc size) rx_buf true head tail (lines (from rx_buf tail zero))
        ≡ ([], tail, 0) =
      unfold lines in ground arith in
    subst (Taken rx_buf (suc size) head tail zero) (sym result) (record {
      left = 0;
      fewer = omega arith;
      small = t;
      place = h;
      line = refl;
      counted = unfold lines in refl;
    })
read_loop_lem (suc size) rx_buf head tail (suc k) room t h =
    let x : ℕ = rx_buf tail in
    let rest : List ℕ = from rx_buf (next tail) k in
    let apart : tail ≢ head = λ e. omega arith in
    let place : head ≡ (next tail + k) % buf_size = omega arith in
    let ih : Taken rx_buf size head (next tail) k
        (read_loop size rx_buf true head (next tail) (lines rest)) =
      read_loop_lem size rx_buf head (next tail) k (omega arith) (omega arith) place in
    let loop : List ℕ × ℕ × ℕ = read_loop (suc size) rx_buf true head tail (lines (x ∷ rest)) in
    elim (Bool-cases (is_delimiter x)) [
      | inl stop ↦
          (let out : List ℕ = (if x == 4 then [] else x ∷ []) in
            let result : loop ≡ (out, next tail, lines rest) = unfold lines in ground arith in
            subst (Taken rx_buf (suc size) head tail (suc k)) (sym result) (record {
              left = k;
              fewer = omega arith;
              small = omega arith;
              place = place;
              line = ground arith;
              counted = refl;
            }))
      | inr go ↦
          (let same : lines (x ∷ rest) ≡ lines rest = unfold lines in ground arith in
            let r : List ℕ × ℕ × ℕ = read_loop size rx_buf true head (next tail) (lines rest) in
            let result : loop ≡ (x ∷ r.0, r.1, r.2) = ground arith in
            subst (Taken rx_buf (suc size) head tail (suc k)) (sym result) (record {
              left = ih.left;
              fewer = omega (arith, ih.fewer);
              small = ih.small;
              place = ih.place;
              line = ground (arith, ih.line);
              counted = ih.counted;
            }))
    ]

-- A pass either takes from the first line, or finds no line and sleeps with the ring untouched.
pub data PassOf (s : Tty) (reader size : ℕ) (r : Pass × Tty) : Type 0 where
  reads :
      (out : List ℕ)
      → lines (contents s) ≢ 0
      → r.0 ≡ finished out
      → (out, contents r.1) ≡ read_line size (contents s)
      → IsValid r.1
      → PassOf s reader size r
  waits :
      lines (contents s) ≡ 0
      → r.0 ≡ sleeps
      → r.1.waiting_thread ≡ some reader
      → contents r.1 ≡ contents s
      → IsValid r.1
      → PassOf s reader size r

module _ (s0 : Tty) (reader size : ℕ) where
  read_or_sleep_lem :
      (s : Tty)
      → contents s ≡ contents s0
      → IsValid s
      → PassOf s0 reader size (read_or_sleep (some reader) false s size)
  unfolding read_or_sleep
  read_or_sleep_lem s same v = elim (Bool-cases (s.lines_available == 0)) [
    | inl idle ↦
        (let t : Tty = record s { waiting_thread = some reader } in
          let result : read_or_sleep (some reader) false s size ≡ (sleeps, t) =
            ground (arith, v.canon) in
          subst (PassOf s0 reader size) (sym result) (
            waits (ground (arith, v.counted, ap lines same)) refl refl
              (unfold contents buf_count in same)
              (unfold contents buf_count in
                record {
                  canon = v.canon;
                  head_small = v.head_small;
                  tail_small = v.tail_small;
                  counted = v.counted;
                })))
    | inr busy ↦
        (let at_head = head_of s v.head_small v.tail_small in
          let k : ℕ = buf_count s in
          let old : contents s ≡ from s.rx_buf s.rx_tail k =
            contents_of s k v.tail_small at_head.0 at_head.1 in
          let r : List ℕ × ℕ × ℕ =
            read_loop size s.rx_buf true s.rx_head s.rx_tail s.lines_available in
          let taken : Taken s.rx_buf size s.rx_head s.rx_tail k r =
            subst
              (λ n.
                Taken s.rx_buf size s.rx_head s.rx_tail k
                  (read_loop size s.rx_buf true s.rx_head s.rx_tail n))
              (sym (v.counted ∙ ap lines old))
              (read_loop_lem size s.rx_buf s.rx_head s.rx_tail k at_head.0 v.tail_small
                at_head.1) in
          let t : Tty = record s { rx_tail = r.1; lines_available = r.2 } in
          let now : contents t ≡ from s.rx_buf r.1 taken.left =
            contents_of t taken.left taken.small (omega (arith, taken.fewer, at_head.0))
              taken.place in
          let result : read_or_sleep (some reader) false s size ≡ (finished r.0, t) =
            ground (arith, v.canon) in
          subst (PassOf s0 reader size) (sym result) (
            reads r.0 (λ none_left. ground (arith, v.counted, ap lines same)) refl
              (ap (λ q. (r.0, q)) now ∙ taken.line ∙ ap (read_line size) (sym old ∙ same))
              (record {
                canon = v.canon;
                head_small = v.head_small;
                tail_small = taken.small;
                counted = taken.counted ∙ ap lines (sym now);
              })))
  ]

-- A terminal is as valid with any other reader.
pub IsValid-reader :
    (s : Tty) (w : Option ℕ) → IsValid s → IsValid (record s { waiting_thread = w })
unfolding contents buf_count
IsValid-reader s w v = record {
  canon = v.canon;
  head_small = v.head_small;
  tail_small = v.tail_small;
  counted = v.counted;
}

pub without-record :
    (s : Tty) (t : ℕ) → (w : Option ℕ) × (without s t ≡ record s { waiting_thread = w })
without-record s t = elim (Option-cases s.waiting_thread) [
  | inl e ↦ (none, ground arith)
  | inr (r, e) ↦ elim (Bool-cases (r == t)) [
    | inl same ↦ (none, ground arith)
    | inr other ↦ (some r, ground arith)
  ]
]

-- A pass of a read of canonical input, by a thread with no fatal signal pending, takes the first
-- line if there is a complete one: its characters up to the size asked for, its newline included and
-- its end of transmission not. Otherwise the thread is enrolled and sleeps, and no input is lost.
pub read_pass_lem :
    (s : Tty) (reader size : ℕ)
    → IsValid s
    → PassOf s reader size (read_pass (some reader) false false s size)
unfolding read_pass
read_pass_lem s reader size v =
    let (w, e) = without-record s reader in
    let t : Tty = record s { waiting_thread = w } in
    subst (λ x. PassOf s reader size (read_or_sleep (some reader) false x size)) (sym e)
      (read_or_sleep_lem s reader size t (unfold contents buf_count in refl) (IsValid-reader s w v))
