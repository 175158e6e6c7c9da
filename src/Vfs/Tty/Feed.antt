-- ===== src/Vfs/Tty/Feed.antt =====
-- Typing into the terminal of src/kernel/vfs/tty.cpp in canonical mode.
use rucux.Base.{
  ℕ, zero, suc, ◌+◌, ◌%◌, ◌<◌, ◌≤◌, ◌≡◌, ◌≢◌, sym, ap, ◌∙◌, subst, Bool, true, false, ◌||◌, ◌&&◌,
  not, List, [], ◌∷◌, ◌++◌, arith, ◌==◌, if◌then◌else◌, Bool-cases, length, inl, inr, ap₂, ◌⊎◌,
  Option, none, Option-cases,
}
use rucux.Vfs.Tty.{
  buf_size, previous, Tty, buf_count, is_set, canonical, erase, feed, put_char, wake_reader,
  is_full, translate, is_delimiter, echo, echoe, is_erase,
}
use rucux.Vfs.Tty.Queue.{
  lines, complete, erase_last, type_char, erase_last-snoc, complete-snoc, lines-snoc,
  lines-complete, lines-erase_last,
}
use rucux.Vfs.Tty.Ring.{
  from, contents, contents_of, head_of, length-from, from-suc, from-write, IsValid,
}

abbrev edited : ℕ → List ℕ → List ℕ
edited c q = if c == 21 then complete q else erase_last q

-- What erasing leaves of `k` characters.
record Erased (rx_buf : ℕ → ℕ) (c tail k head : ℕ) : Type 0 where
  pub left : ℕ
  pub fewer : left ≤ k
  pub place : head ≡ (tail + left) % buf_size
  pub content : from rx_buf tail left ≡ edited c (from rx_buf tail k)

edited-snoc-stop :
    (q : List ℕ) (c x : ℕ) → is_delimiter x ≡ true → edited c (q ++ x ∷ []) ≡ q ++ x ∷ []
edited-snoc-stop q c x e = ground (arith, complete-snoc q x, erase_last-snoc q x)

edited-snoc-go :
    (q : List ℕ) (c x : ℕ)
    → is_delimiter x ≡ false
    → (c == 21) ≡ true
    → edited c q ≡ edited c (q ++ x ∷ [])
edited-snoc-go q c x e kill = ground (arith, complete-snoc q x)

edited-snoc-one :
    (q : List ℕ) (c x : ℕ) → is_delimiter x ≡ false → (c == 21) ≡ false → q ≡ edited c (q ++ x ∷ [])
edited-snoc-one q c x e one = ground (arith, erase_last-snoc q x)

erase_lem :
    (fuel : ℕ) (rx_buf : ℕ → ℕ) (visible : Bool) (c tail k head : ℕ)
    → k < fuel
    → k < buf_size
    → tail < buf_size
    → head ≡ (tail + k) % buf_size
    → Erased rx_buf c tail k (erase fuel rx_buf visible c tail head).0
unfolding erase
erase_lem zero rx_buf visible c tail k head enough small t h = absurd (omega arith)
erase_lem (suc fuel) rx_buf visible c tail zero head enough small t h =
    let result : (erase (suc fuel) rx_buf visible c tail head).0 ≡ head = ground arith in
    subst (Erased rx_buf c tail zero) (sym result) (record {
      left = 0;
      fewer = omega arith;
      place = h;
      content = unfold from complete erase_last in ground arith;
    })
erase_lem (suc fuel) rx_buf visible c tail (suc k) head enough small t h =
    let apart : head ≢ tail = λ e. omega arith in
    let back : previous head ≡ (tail + k) % buf_size = omega arith in
    let x : ℕ = rx_buf (previous head) in
    let all : from rx_buf tail (suc k) ≡ from rx_buf tail k ++ x ∷ [] =
      from-suc rx_buf tail k t ∙ ap (λ i. from rx_buf tail k ++ rx_buf i ∷ []) (sym back) in
    let rest : Erased rx_buf c tail k (erase fuel rx_buf visible c tail (previous head)).0 =
      erase_lem fuel rx_buf visible c tail k (previous head) (omega arith) (omega arith) t back in
    elim (Bool-cases (is_delimiter x)) [
      | inl stop ↦
          (let result : (erase (suc fuel) rx_buf visible c tail head).0 ≡ head = ground arith in
            subst (Erased rx_buf c tail (suc k)) (sym result) (record {
              left = suc k;
              fewer = omega arith;
              place = h;
              content =
                  all
                  ∙ sym (edited-snoc-stop (from rx_buf tail k) c x stop)
                  ∙ ap (edited c) (sym all);
            }))
      | inr go ↦ elim (Bool-cases (c == 21)) [
        | inl kill ↦
            (let result : (erase (suc fuel) rx_buf visible c tail head).0
                  ≡ (erase fuel rx_buf visible c tail (previous head)).0 =
                ground arith in
              subst (Erased rx_buf c tail (suc k)) (sym result) (record {
                left = rest.left;
                fewer = omega (arith, rest.fewer);
                place = rest.place;
                content =
                    rest.content
                    ∙ edited-snoc-go (from rx_buf tail k) c x go kill
                    ∙ ap (edited c) (sym all);
              }))
        | inr one ↦
            (let result : (erase (suc fuel) rx_buf visible c tail head).0 ≡ previous head =
                ground arith in
              subst (Erased rx_buf c tail (suc k)) (sym result) (record {
                left = k;
                fewer = omega arith;
                place = back;
                content = edited-snoc-one (from rx_buf tail k) c x go one ∙ ap (edited c) (sym all);
              }))
      ]
    ]

pub record Fed (s : Tty) (c : ℕ) (s' : Tty) : Type 0 where
  pub content : contents s' ≡ type_char (contents s) c
  pub valid : IsValid s'

typed_edit : (q : List ℕ) (c : ℕ) → is_erase c ≡ true → edited c q ≡ type_char q c
unfolding type_char
typed_edit q c e = ground arith

lines-edited : (q : List ℕ) (c : ℕ) → lines (edited c q) ≡ lines q
lines-edited q c = ground (arith, lines-complete q, lines-erase_last q)

module _ (s : Tty) (c : ℕ) (v : IsValid s) where
  erase-Fed :
      (head : ℕ)
      → is_erase c ≡ true
      → Erased s.rx_buf c s.rx_tail (buf_count s) head
      → Fed s c (record s { rx_head = head })
  erase-Fed head editing e =
      let at_head = head_of s v.head_small v.tail_small in
      let t : Tty = record s { rx_head = head } in
      let now : contents t ≡ edited c (contents s) =
        contents_of t e.left v.tail_small (omega (arith, e.fewer, at_head.0)) e.place
        ∙ e.content
        ∙ ap (edited c) (sym (contents_of s (buf_count s) v.tail_small at_head.0 at_head.1)) in
      record {
        content = now ∙ typed_edit (contents s) c editing;
        valid = record {
          canon = v.canon;
          head_small = omega (arith, e.place);
          tail_small = v.tail_small;
          counted = v.counted ∙ sym (lines-edited (contents s) c) ∙ ap lines (sym now);
        };
      }

  length-contents : length (contents s) ≡ buf_count s
  length-contents =
      let at_head = head_of s v.head_small v.tail_small in
      ap length (contents_of s (buf_count s) v.tail_small at_head.0 at_head.1)
      ∙ length-from s.rx_buf s.rx_tail (buf_count s)

  room_left :
      is_full s c ≡ false → (buf_count s < 1023) × (is_delimiter c ≡ true ⊎ (buf_count s < 1022))
  unfolding is_full
  room_left room =
      let at_head = head_of s v.head_small v.tail_small in
      let canon = v.canon in
      elim (Bool-cases (is_delimiter c)) [
        | inl d ↦ (ground arith, inl d)
        | inr d ↦ (ground arith, inr (ground arith))
      ]

  put_char-Fed : is_erase c ≡ false → is_full s c ≡ false → Fed s c (put_char s c)
  unfolding put_char type_char
  put_char-Fed plain room =
      let at_head = head_of s v.head_small v.tail_small in
      let (short, fits) = room_left room in
      let k : ℕ = buf_count s in
      let t : Tty = put_char s c in
      let old : contents s ≡ from s.rx_buf s.rx_tail k =
        contents_of s k v.tail_small at_head.0 at_head.1 in
      let now : contents t ≡ contents s ++ c ∷ [] =
        contents_of t (suc k) v.tail_small (omega arith) (omega (arith, at_head.1))
        ∙ from-suc t.rx_buf s.rx_tail k v.tail_small
        ∙ ap₂ (λ xs x. xs ++ x ∷ [])
            (from-write s.rx_buf s.rx_tail k s.rx_head c v.tail_small 0 (omega arith)
                (omega (arith, at_head.1))
              ∙ sym old)
            (ground (arith, at_head.1)) in
      record {
        content = now ∙ ground (arith, length-contents);
        valid = record {
          canon = v.canon;
          head_small = omega arith;
          tail_small = v.tail_small;
          counted =
              ground (arith, v.canon, v.counted, lines-snoc (contents s) c) ∙ ap lines (sym now);
        };
      }

  full-Fed : is_erase c ≡ false → is_full s c ≡ true → Fed s c s
  unfolding is_full type_char
  full-Fed plain full =
      let at_head = head_of s v.head_small v.tail_small in
      record { content = ground (arith, length-contents); valid = v }

  -- Taking the reader out leaves the ring as it is.
  Fed-without : (r : Option ℕ) {t : Tty} → Fed s c t → Fed s c (record t { waiting_thread = r })
  unfolding contents buf_count
  Fed-without r f = record {
    content = f.content;
    valid = record {
      canon = f.valid.canon;
      head_small = f.valid.head_small;
      tail_small = f.valid.tail_small;
      counted = f.valid.counted;
    };
  }

  wake_reader-Fed : (blocked : ℕ → Bool) {t : Tty} → Fed s c t → Fed s c (wake_reader blocked t).0
  unfolding wake_reader
  wake_reader-Fed blocked {t} f = elim (Option-cases t.waiting_thread) [
    | inl e ↦
        (let same : (wake_reader blocked t).0 ≡ t = ground arith in subst (Fed s c) (sym same) f)
    | inr (r, e) ↦ elim (Bool-cases (not (canonical t) || not (t.lines_available == 0))) [
      | inl ready ↦
          (let same : (wake_reader blocked t).0 ≡ record t { waiting_thread = none } =
              ground arith in
            subst (Fed s c) (sym same) (Fed-without none f))
      | inr idle ↦
          (let same : (wake_reader blocked t).0 ≡ t = ground arith in subst (Fed s c) (sym same) f)
    ]
  ]

-- Typing a character into a terminal in canonical mode edits the queue of characters as the line
-- discipline says: character 21 drops the unfinished line, 8 and 127 its last character, any other
-- is appended if there is room, where an unfinished line keeps a place for its delimiter. The ring
-- stays in bounds and the lines available stay the delimiters in it.
pub feed_refines :
    (blocked : ℕ → Bool) (s : Tty) (typed : ℕ)
    → IsValid s
    → Fed s (translate s typed) (feed blocked s typed).0
unfolding feed
feed_refines blocked s typed v =
    let c : ℕ = translate s typed in
    let at_head = head_of s v.head_small v.tail_small in
    elim (Bool-cases (is_erase c)) [
      | inl editing ↦
          rw (v.canon, editing)
            (erase-Fed s c v _ editing (
              erase_lem buf_size s.rx_buf (echo s && is_set s.term.c_lflag echoe) c s.rx_tail
                (buf_count s) s.rx_head at_head.0 at_head.0 v.tail_small at_head.1))
      | inr plain ↦ elim (Bool-cases (is_full s c)) [
        | inl full ↦ rw (v.canon, plain, full) (full-Fed s c v plain full)
        | inr room ↦
            rw (v.canon, plain, room)
              (wake_reader-Fed s c v blocked (put_char-Fed s c v plain room))
      ]
    ]
