-- ===== src/FilePersistence/Rotation.antt =====
-- What a rotation does to the lines of all files.
use mathlib.Core.List.{append-nil, append_assoc}
use eventful.Base.{
  false, ℕ, zero, suc, ◌-◌, ◌≤◌, ◌<◌, Option, none, some, List, [], ◌++◌, ◌≡◌, refl, sym, ◌∙◌, ap,
  arith, ◌==◌, Option-cases, inl, inr,
}
use eventful.FilePersistence.{
  Line, Backups, FilePersistence, lines_of, at_path, replace, shift, rotate, backup_lines,
  all_lines,
}

replace_absent : (n m : ℕ) (b : Backups) → b n ≡ none → replace n m b ≡ b
replace_absent n m b e = rw (replace, e) refl

replace_present :
    (n m : ℕ) (b : Backups) (ls : List Line)
    → b n ≡ some ls
    → replace n m b ≡ at_path n none (at_path m (some ls) b)
replace_present n m b ls e = rw (replace, e) refl

-- A file moves to the next path, where there is none.
module _ (n : ℕ) (b : Backups) (free : b (suc n) ≡ none) where
  replace-source : replace n (suc n) b n ≡ none
  replace-source = elim (Option-cases (b n)) [
    | inl e ↦ rw (replace_absent n (suc n) b e) e
    | inr (ls, e) ↦ rw (replace_present n (suc n) b ls e) (ground arith)
  ]

  replace-target : replace n (suc n) b (suc n) ≡ b n
  replace-target = elim (Option-cases (b n)) [
    | inl e ↦ rw (replace_absent n (suc n) b e) (free ∙ sym e)
    | inr (ls, e) ↦ rw (replace_present n (suc n) b ls e) (ground (arith, e))
  ]

  replace_other : (i : ℕ) → (i == n) ≡ false → (i == suc n) ≡ false → replace n (suc n) b i ≡ b i
  replace_other i x y = elim (Option-cases (b n)) [
    | inl e ↦ rw (replace_absent n (suc n) b e) refl
    | inr (ls, e) ↦ rw (replace_present n (suc n) b ls e, x, y) refl
  ]

-- Paths above the loop keep their files.
shift_above : (n : ℕ) (b : Backups) (i : ℕ) → b (suc n) ≡ none → suc n < i → shift n b i ≡ b i
unfolding shift
shift_above zero b i free above = refl
shift_above (suc n) b i free above =
    shift_above n (replace (suc n) (suc (suc n)) b) i (replace-source (suc n) b free)
      (omega (arith, above))
    ∙ replace_other (suc n) b free i (ground (arith, above)) (ground (arith, above))

shift_first : (n : ℕ) (b : Backups) → b (suc n) ≡ none → shift n b 1 ≡ none
unfolding shift
shift_first zero b free = free
shift_first (suc n) b free =
    shift_first n (replace (suc n) (suc (suc n)) b) (replace-source (suc n) b free)

backup_lines_same :
    (n : ℕ) (b c : Backups) → ((i : ℕ) → i ≤ n → b i ≡ c i) → backup_lines n b ≡ backup_lines n c
unfolding backup_lines
backup_lines_same zero b c same = refl
backup_lines_same (suc n) b c same =
    ap (λ x. lines_of x ++ backup_lines n b) (same (suc n) (omega arith))
    ∙ ap (λ x. lines_of (c (suc n)) ++ x)
        (backup_lines_same n b c (λ i below. same i (omega (arith, below))))

-- The loop keeps all lines in their order.
backup_lines-shift :
    (n : ℕ) (b : Backups) → b (suc n) ≡ none → backup_lines (suc n) (shift n b) ≡ backup_lines n b
unfolding shift backup_lines
backup_lines-shift zero b free = rw free
backup_lines-shift (suc n) b free =
    let c = replace (suc n) (suc (suc n)) b in
    let source = replace-source (suc n) b free in
    ap (λ x. lines_of x ++ backup_lines (suc n) (shift n c))
      (shift_above n c (suc (suc n)) source (omega arith) ∙ replace-target (suc n) b free)
    ∙ ap (λ x. lines_of (b (suc n)) ++ x)
        (backup_lines-shift n c source
          ∙ backup_lines_same n c b (λ i below.
            replace_other (suc n) b free i (ground (arith, below)) (ground (arith, below))))

-- A new first backup comes last.
backup_lines_first :
    (n : ℕ) (b : Backups) (content : Option (List Line))
    → b 1 ≡ none
    → backup_lines (suc n) (at_path 1 content b) ≡ backup_lines (suc n) b ++ lines_of content
unfolding backup_lines
backup_lines_first zero b content free = rw free (append-nil (lines_of content))
backup_lines_first (suc n) b content free =
    let higher : at_path 1 content b (suc (suc n)) ≡ b (suc (suc n)) = ground arith in
    ap (λ x. lines_of x ++ backup_lines (suc n) (at_path 1 content b)) higher
    ∙ ap (λ x. lines_of (b (suc (suc n))) ++ x) (backup_lines_first n b content free)
    ∙ sym (append_assoc (lines_of (b (suc (suc n)))) (backup_lines (suc n) b) (lines_of content))

-- The backups after a rotation.
rotated : ℕ → ℕ → Backups → Option (List Line) → Backups
rotated count above b file =
    let kept = shift above (at_path count none b) in
    elim file [ none ↦ kept | some ls ↦ at_path 1 (some ls) kept ]

backup_lines-rotated :
    (n : ℕ) (b : Backups) (file : Option (List Line))
    → backup_lines (suc n) (rotated (suc n) n b file) ≡ backup_lines n b ++ lines_of file
unfolding rotated
backup_lines-rotated n b file = by_file file
  where
    free : at_path (suc n) none b (suc n) ≡ none
    free = ground arith

    shifted : backup_lines (suc n) (shift n (at_path (suc n) none b)) ≡ backup_lines n b
    shifted =
        backup_lines-shift n (at_path (suc n) none b) free
        ∙ backup_lines_same n (at_path (suc n) none b) b (λ i le. ground (arith, le))

    by_file :
        (file : Option (List Line))
        → backup_lines (suc n) (rotated (suc n) n b file) ≡ backup_lines n b ++ lines_of file
    by_file none = shifted ∙ sym (append-nil (backup_lines n b))
    by_file (some ls) =
        backup_lines_first n (shift n (at_path (suc n) none b)) (some ls)
          (shift_first n (at_path (suc n) none b) free)
        ∙ ap (λ x. x ++ ls) shifted

rotation_keeps :
    (count : ℕ) (b : Backups) (file : Option (List Line))
    → 0 < count
    → lines_of (b count) ++ (backup_lines count (rotated count (count - 1) b file) ++ [])
      ≡ backup_lines count b ++ lines_of file
unfolding backup_lines
rotation_keeps zero b file positive = absurd (omega (arith, positive))
rotation_keeps (suc n) b file positive =
    let pred : suc n - 1 ≡ n = omega arith in
    ap (λ x. lines_of (b (suc n)) ++ x)
      (append-nil (backup_lines (suc n) (rotated (suc n) (suc n - 1) b file))
        ∙ ap (λ x. backup_lines (suc n) (rotated (suc n) x b file)) pred
        ∙ backup_lines-rotated n b file)
    ∙ sym (append_assoc (lines_of (b (suc n))) (backup_lines n b) (lines_of file))

-- A rotation loses the lines of the oldest backup, and no others, and keeps the order.
pub all_lines-rotate :
    (s : FilePersistence)
    → 0 < s.backup_count
    → lines_of (s.backups s.backup_count) ++ all_lines (rotate s) ≡ all_lines s
unfolding all_lines rotate rotated
all_lines-rotate s positive = rotation_keeps s.backup_count s.backups s.file positive
