-- ===== src/LoadTest/Notes.antt =====
-- The notes of a stream in the report of src/bin/loadtest.rs: up to two stalls and two violations of
-- each subscription, in their order, until eight lines are printed.
use hypeha.Base.{
  ℕ, zero, suc, ap₂, ◌+◌, ◌-◌, ◌≤◌, ◌≡◌, refl, ◌∙◌, ap, sym, false, List, [], ◌∷◌, ◌++◌, append-nil,
  append_assoc, Option, none, some, ltb, ◌==◌, if◌then◌else◌, if_cases, map, length, length-append,
  take, add_u64, arith, Text,
}
use hypeha.LoadTest.{KeyStats}
use hypeha.LoadTest.Percentile.{sum_u64}

abbrev pub max_notes : ℕ
max_notes = 8

pub data Note : Type 0 where
  stalled : Text → ℕ → ℕ → Note
  violation : Text → Note

abbrev stall_note : Text → ℕ × ℕ → Note
stall_note name (at, len) = Note.stalled name at len

abbrev stall_notes : Text → KeyStats → List Note
stall_notes name k = map (stall_note name) (take 2 k.stalls)

abbrev violation_notes : KeyStats → List Note
violation_notes k = map Note.violation (take 2 k.violations)

-- A loop that prints each of some lines, and breaks when enough are printed. `shown` is the number of
-- lines so far, and they stand in `out`.
unfoldable pub print_some : List Note → ℕ × List Note → ℕ × List Note
print_some [] (shown, out) = (shown, out)
print_some (n ∷ ns) (shown, out) =
    let rest = print_some ns (suc shown, out ++ (n ∷ [])) in
    if shown == max_notes then (shown, out) else rest

-- The loop over the subscriptions.
unfoldable pub print_notes : List (Text × KeyStats) → ℕ × List Note → ℕ × List Note
unfolding print_some
print_notes [] printed = printed
print_notes ((name, k) ∷ keys) printed =
    let here = print_some (violation_notes k) (print_some (stall_notes name k) printed) in
    let rest = print_notes keys here in if here.0 == max_notes then here else rest

-- How many more there are, where the report says so.
unfoldable pub more_notes : List (Text × KeyStats) → ℕ → Option ℕ
unfolding sum_u64
more_notes keys shown =
    let total = sum_u64 (map (λ p. add_u64 p.1.stall_count p.1.violation_count) keys) in
    if ltb shown total then some (total - shown) else none

-- Every note there could be.
abbrev pub all_notes : List (Text × KeyStats) → List Note
all_notes [] = []
all_notes ((name, k) ∷ keys) = stall_notes name k ++ (violation_notes k ++ all_notes keys)

-- As many of some lines as there is room for, behind those so far.
abbrev fill : ℕ → List Note → ℕ × List Note → ℕ × List Note
fill room ns (shown, out) = (shown + length (take room ns), out ++ take room ns)

take-none : (room : ℕ) → take {A = Note} room [] ≡ []
take-none zero = refl
take-none (suc room) = refl

fill-none : (room : ℕ) (shown : ℕ) (out : List Note) → fill room [] (shown, out) ≡ (shown, out)
fill-none room shown out =
    rw (take-none room) (ap₂ (λ (n : ℕ) (l : List Note). (n, l)) (omega arith) (append-nil out))

print_some-fill :
    (ns : List Note) (room shown : ℕ) (out : List Note)
    → shown + room ≡ max_notes
    → print_some ns (shown, out) ≡ fill room ns (shown, out)
unfolding print_some
print_some-fill [] room shown out h = sym (fill-none room shown out)
print_some-fill (n ∷ ns) zero shown out h =
    let full : shown ≡ 8 = omega (arith, h) in
    rw full (ap₂ (λ (m : ℕ) (l : List Note). (m, l)) (omega arith) (sym (append-nil out)))
print_some-fill (n ∷ ns) (suc room) shown out h =
    let rest = print_some-fill ns room (suc shown) (out ++ (n ∷ [])) (omega (arith, h)) in
    let more : (shown == max_notes) ≡ false = ground (arith, h) in
    rw more (
      rest
      ∙ ap₂ (λ (m : ℕ) (l : List Note). (m, l)) (omega arith)
          (append_assoc out (n ∷ []) (take room ns)))

take-append :
    (room : ℕ) (xs ys : List Note)
    → take room (xs ++ ys) ≡ take room xs ++ take (room - length (take room xs)) ys
take-append zero xs ys = refl
take-append (suc room) [] ys = let same : suc room - 0 ≡ suc room = omega arith in rw same refl
take-append (suc room) (x ∷ xs) ys =
    let same : suc room - suc (length (take room xs)) ≡ room - length (take room xs) =
      omega arith in
    rw same (ap (λ l. x ∷ l) (take-append room xs ys))

fill-append :
    (room : ℕ) (xs ys : List Note) (shown : ℕ) (out : List Note)
    → fill room (xs ++ ys) (shown, out)
      ≡ fill (room - length (take room xs)) ys (fill room xs (shown, out))
fill-append room xs ys shown out = rw (take-append room xs ys) (
    ap₂ (λ (m : ℕ) (l : List Note). (m, l))
      (omega (arith, length-append (take room xs) (take (room - length (take room xs)) ys)))
      (sym (append_assoc out (take room xs) (take (room - length (take room xs)) ys))))

length-take_le : (n : ℕ) (xs : List Note) → length (take n xs) ≤ n
length-take_le zero xs = omega arith
length-take_le (suc n) [] = omega arith
length-take_le (suc n) (x ∷ xs) = omega (arith, length-take_le n xs)

-- Two loops one behind the other.
print_both-fill :
    (xs ys : List Note) (room shown : ℕ) (out : List Note)
    → shown + room ≡ max_notes
    → print_some ys (print_some xs (shown, out)) ≡ fill room (xs ++ ys) (shown, out)
print_both-fill xs ys room shown out h =
    ap (print_some ys) (print_some-fill xs room shown out h)
    ∙ print_some-fill ys (room - length (take room xs)) _ _
        (omega (arith, h, length-take_le room xs))
    ∙ sym (fill-append room xs ys shown out)

print_notes-fill :
    (keys : List (Text × KeyStats)) (room shown : ℕ) (out : List Note)
    → shown + room ≡ max_notes
    → print_notes keys (shown, out) ≡ fill room (all_notes keys) (shown, out)
unfolding print_notes
print_notes-fill [] room shown out h = sym (fill-none room shown out)
print_notes-fill ((name, k) ∷ keys) room shown out h =
    let mine = stall_notes name k ++ violation_notes k in
    let left = room - length (take room mine) in
    let here = fill room mine (shown, out) in
    let placed : here.0 + left ≡ max_notes = omega (arith, h, length-take_le room mine) in
    let others = all_notes keys in
    rw (print_both-fill (stall_notes name k) (violation_notes k) room shown out h) (
      if_cases (λ (r : ℕ × List Note). r ≡ fill left others here) (here.0 == max_notes)
        (λ full.
          let none_left : left ≡ 0 = ground (arith, full, placed) in
          rw none_left
            (ap₂ (λ (m : ℕ) (l : List Note). (m, l)) (omega arith) (sym (append-nil here.1))))
        (λ more. print_notes-fill keys left here.0 here.1 placed)
      ∙ sym (fill-append room mine others shown out)
      ∙ ap (λ l. fill room l (shown, out))
          (append_assoc (stall_notes name k) (violation_notes k) others))

-- The nested loops over the subscriptions, which break at eight lines, print the first eight of the
-- notes in their order, and count them.
pub print_notes_lem :
    (keys : List (Text × KeyStats))
    → let shown = take max_notes (all_notes keys) in
      print_notes keys (0, []) ≡ (length shown, shown)
print_notes_lem keys =
    print_notes-fill keys max_notes 0 [] refl
    ∙ ap (λ (n : ℕ). (n, take max_notes (all_notes keys))) (omega arith)
