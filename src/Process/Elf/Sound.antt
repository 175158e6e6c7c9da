-- ===== src/Process/Elf/Sound.antt =====
-- What a program file that elf::validate of src/kernel/process/elf_validate.cpp accepts is.
use rucux.Base.{
  ℕ, ◌+◌, ◌%◌, ◌≤◌, ◌≡◌, ◌≢◌, refl, sym, Bool, true, false, ◌||◌, ◌⊎◌, inl, inr, some, List, [],
  ◌∷◌, arith, All, Bool-cases, Option-cases,
}
use rucux.Process.Elf.{
  Ehdr, Phdr, is_loaded, segment_bad, has_entry, page_begin, page_end, overlaps, any_overlaps, scan,
  validate,
}

-- A header that is loaded lies in the file and in the user's addresses, and no page of it is both
-- writable and executable.
pub record SegmentOk (user_begin user_end size : ℕ) (p : Phdr) : Type 0 where
  pub in_file : p.p_offset + p.p_filesz ≤ size
  pub fits : p.p_filesz ≤ p.p_memsz
  pub in_user : (user_begin ≤ p.p_vaddr) × (p.p_vaddr + p.p_memsz ≤ user_end)
  pub not_both : p.p_flags % 4 ≢ 3

abbrev pub Good : ℕ → ℕ → ℕ → Phdr → Type 0
Good user_begin user_end size p = (is_loaded p ≡ false) ⊎ SegmentOk user_begin user_end size p

-- Two headers of which both are loaded share no page.
abbrev pub Apart : Phdr → Phdr → Type 0
Apart p q =
    (is_loaded p ≡ false)
    ⊎ (is_loaded q ≡ false)
    ⊎ (page_end p ≤ page_begin q)
    ⊎ (page_end q ≤ page_begin p)

abbrev pub Pairwise : List Phdr → Type 0
Pairwise [] = Unit {0}
Pairwise (p ∷ ps) = All (λ q. Apart q p) ps × Pairwise ps

-- Some header of the list that is loaded has the entry point in its file part and is executable.
abbrev pub Enters : Ehdr → List Phdr → Type 0
Enters h [] = true ≡ false
Enters h (p ∷ ps) = ((is_loaded p ≡ true) × (has_entry h p ≡ true)) ⊎ Enters h ps

any_overlaps-Apart :
    (p : Phdr) (prevs : List Phdr) → any_overlaps p prevs ≡ false → All (λ q. Apart p q) prevs
unfolding any_overlaps overlaps
any_overlaps-Apart p [] h = tt
any_overlaps-Apart p (q ∷ qs) h = (ground arith, any_overlaps-Apart p qs (ground arith))

segment-SegmentOk :
    (user_begin user_end size : ℕ) (p : Phdr)
    → segment_bad user_begin user_end size p ≡ false
    → SegmentOk user_begin user_end size p
unfolding segment_bad
segment-SegmentOk user_begin user_end size p h = record {
  in_file = ground arith;
  fits = ground arith;
  in_user = (ground arith, ground arith);
  not_both = ground arith;
}

unloaded-Apart : (p : Phdr) (qs : List Phdr) → is_loaded p ≡ false → All (λ q. Apart p q) qs
unloaded-Apart p [] h = tt
unloaded-Apart p (q ∷ qs) h = (inl h, unloaded-Apart p qs h)

-- The rows of a table of pairs, without its first column.
first_column :
    (p : Phdr) (prevs ps : List Phdr)
    → All (λ q. All (λ r. Apart q r) (p ∷ prevs)) ps
    → All (λ q. Apart q p) ps × All (λ q. All (λ r. Apart q r) prevs) ps
first_column p prevs [] h = (tt, tt)
first_column p prevs (q ∷ qs) h =
    let rest = first_column p prevs qs h.1 in ((h.0.0, rest.0), (h.0.1, rest.1))

first_entry :
    {E : Type 0} (entry result : Bool) → entry ≡ result → (result ≡ false) ⊎ (entry ≡ true) ⊎ E
first_entry true result e = inr (inl refl)
first_entry false result e = inl (sym e)

later_entry :
    (h : Ehdr) (p : Phdr) (ps : List Phdr) (entry result : Bool)
    → is_loaded p ≡ true
    → (result ≡ false) ⊎ ((entry || has_entry h p) ≡ true) ⊎ Enters h ps
    → (result ≡ false) ⊎ (entry ≡ true) ⊎ Enters h (p ∷ ps)
later_entry h p ps true result loaded e = inr (inl refl)
later_entry h p ps false result loaded (inl none_yet) = inl none_yet
later_entry h p ps false result loaded (inr (inl here)) = inr (inr (inl (loaded, here)))
later_entry h p ps false result loaded (inr (inr there)) = inr (inr (inr there))

module _ (user_begin user_end size : ℕ) (h : Ehdr) where
  record Scanned (prevs ps : List Phdr) (entry result : Bool) : Type 0 where
    good : All (Good user_begin user_end size) ps
    apart : All (λ q. All (λ r. Apart q r) prevs) ps
    pairs : Pairwise ps
    entered : (result ≡ false) ⊎ (entry ≡ true) ⊎ Enters h ps

  -- One header: it is passed over, or it is good and shares no page with those before it.
  one_header :
      (prevs : List Phdr) (p : Phdr) (ps : List Phdr) (entry result : Bool)
      → scan user_begin user_end size h prevs (p ∷ ps) entry ≡ some result
      → ((is_loaded p ≡ false)
          × (scan user_begin user_end size h (p ∷ prevs) ps entry ≡ some result))
        ⊎ ((is_loaded p ≡ true)
            × (segment_bad user_begin user_end size p ≡ false)
            × (any_overlaps p prevs ≡ false)
            × (scan user_begin user_end size h (p ∷ prevs) ps (entry || has_entry h p)
                ≡ some result))
  unfolding scan
  one_header prevs p ps entry result e = elim (Bool-cases (is_loaded p)) [
    | inr f ↦ inl (f, ground arith)
    | inl f ↦ inr (f, ground arith, ground arith, ground arith)
  ]

  scan-Scanned :
      (prevs ps : List Phdr) (entry result : Bool)
      → scan user_begin user_end size h prevs ps entry ≡ some result
      → Scanned prevs ps entry result
  unfolding scan
  scan-Scanned prevs [] entry result e = record {
    good = tt;
    apart = tt;
    pairs = tt;
    entered = first_entry entry result (ground arith);
  }
  scan-Scanned prevs (p ∷ ps) entry result e = elim (one_header prevs p ps entry result e) [
    | inl (f, rest) ↦
        let ih = scan-Scanned (p ∷ prevs) ps entry result rest in
        let (column, rows) = first_column p prevs ps ih.apart in
        record {
          good = (inl f, ih.good);
          apart = (unloaded-Apart p prevs f, rows);
          pairs = (column, ih.pairs);
          entered = elim ih.entered [
            | inl f' ↦ inl f'
            | inr (inl was) ↦ inr (inl was)
            | inr (inr in_rest) ↦ inr (inr (inr in_rest))
          ];
        }
    | inr (f, fine, free, rest) ↦
        let ih = scan-Scanned (p ∷ prevs) ps (entry || has_entry h p) result rest in
        let (column, rows) = first_column p prevs ps ih.apart in
        record {
          good = (inr (segment-SegmentOk user_begin user_end size p fine), ih.good);
          apart = (any_overlaps-Apart p prevs free, rows);
          pairs = (column, ih.pairs);
          entered = later_entry h p ps entry result f ih.entered;
        }
  ]

-- A file that validate accepts has only segments that lie in the file and in the user's addresses and
-- are not both writable and executable, no two segments that share a page, and an executable segment
-- whose file part has the entry point.
pub validate_sound :
    (user_begin user_end size machine : ℕ) (h : Ehdr) (table : List Phdr)
    → validate user_begin user_end size machine h table ≡ true
    → All (Good user_begin user_end size) table × Pairwise table × Enters h table
unfolding validate
validate_sound user_begin user_end size machine h table e =
    elim (Option-cases (scan user_begin user_end size h [] table false)) [
      | inl z ↦ absurd (ground arith)
      | inr (result, z) ↦
          let accepted : result ≡ true = ground arith in
          let s = scan-Scanned user_begin user_end size h [] table false result z in
          (
            s.good,
            s.pairs,
            elim s.entered [
              | inl f ↦ absurd (ground arith)
              | inr (inl f) ↦ absurd (ground arith)
              | inr (inr there) ↦ there
            ],
          )
    ]
