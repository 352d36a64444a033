-- ===== src/Summarize/Clamp/Laws.antt =====
-- The bound of `clamp_chars`, and what a tag of a project holds.
use mathlib.Core.List.{reverse, reverse_aux}
use agent_feed.Prelude.{
  Bool, Bool-cases, List, Option-cases, [], arith, if-cases, if◌then◌else◌, inl, inr, is_empty, leb,
  leb→le, length, length-append, length-take-le, list_eq, ltb, ltb→lt, map_or, min, nat_eq,
  option_eq, pair_eq, refl, replicate, some, suc, take, zero, ℕ, ◌++◌, ◌+◌, ◌-◌, ◌/◌, ◌<◌, ◌==◌,
  ◌||◌, ◌∷◌, ◌≡◌, ◌≤◌,
}
use agent_feed.Summarize.Clamp.{clamp_chars, is_clamp_end, last_whitespace, project_chips}
use agent_feed.Text.{Str, byte_len, chars, decimal, drop_while, drop_while_end}

length-reverse_aux : (xs acc : Str) → length (reverse_aux xs acc) ≡ length xs + length acc
length-reverse_aux [] acc = omega arith
length-reverse_aux (x ∷ xs) acc = omega (arith, length-reverse_aux xs (x ∷ acc))

pub length-reverse : (xs : Str) → length (reverse xs) ≡ length xs
length-reverse xs = omega (arith, length-reverse_aux xs [])

length-drop_while-le : (p : ℕ → Bool) (s : Str) → length (drop_while p s) ≤ length s
unfolding drop_while
length-drop_while-le p [] = omega arith
length-drop_while-le p (c ∷ s) =
    if-cases (λ t. length t ≤ suc (length s)) (p c) (drop_while p s) (c ∷ s)
      (λ h. omega (arith, length-drop_while-le p s)) (λ h. omega arith)

length-drop_while_end-le : (p : ℕ → Bool) (s : Str) → length (drop_while_end p s) ≤ length s
unfolding drop_while_end
length-drop_while_end-le p s = omega (
  arith,
  length-reverse (drop_while p (reverse s)),
  length-drop_while-le p (reverse s),
  length-reverse s,
)

length-replicate : (n c : ℕ) → length (replicate n c) ≡ n
length-replicate zero c = refl
length-replicate (suc n) c = omega (arith, length-replicate n c)

-- A break at white space lies within the text.
length-last_whitespace-le :
    (s before : Str) → last_whitespace s ≡ some before → length before ≤ length s
unfolding last_whitespace
length-last_whitespace-le [] before h = cc
length-last_whitespace-le (c ∷ s) before h = elim (Option-cases (last_whitespace s)) [
  | inl absent ↦ ground arith
  | inr (start, found) ↦ let short = length-last_whitespace-le s start found in ground arith
]

-- The cut at white space, where enough of the text stands before it.
length-cut-le :
    (room : ℕ) (output : Str)
    → length (
        map_or
          (last_whitespace output)
          output
          λ before. if leb (room / 2) (byte_len before) then before else output)
      ≤ length output
length-cut-le room output = elim (Option-cases (last_whitespace output)) [
  | inl absent ↦ rw absent (omega arith)
  | inr (before, found) ↦
      let short = length-last_whitespace-le output before found in
      rw found (
        if-cases (λ t. length t ≤ length output) (leb (room / 2) (byte_len before)) before output
          (λ h. short) (λ h. omega arith))
]

-- A clamped text has at most as many characters as the bound, whatever the text and the bound.
pub length-clamp_chars-le :
    (input : Str) (max_chars : ℕ) → length (clamp_chars input max_chars) ≤ max_chars
unfolding clamp_chars
length-clamp_chars-le input max_chars =
    let room = max_chars - 3 in
    let output = take room input in
    let cut =
      map_or (last_whitespace output) output
        λ before. if leb (room / 2) (byte_len before) then before else output in
    elim (Bool-cases (leb (length input) max_chars)) [
      | inl fits ↦ rw fits (leb→le (length input) max_chars fits)
      | inr long ↦ elim (Bool-cases (leb max_chars 3)) [
        | inl dots ↦ rw (long, dots) (omega (arith, length-replicate max_chars b'.'))
        | inr wide ↦
            let above : 3 < max_chars = ground arith in
            rw (long, wide)
              (omega (
                arith,
                above,
                length-append (drop_while_end is_clamp_end cut) (chars "..."),
                length-drop_while_end-le is_clamp_end cut,
                length-cut-le room output,
                length-take-le room input,
              ))
      ]
    ]

-- A row of chips has no more of them than the bound.
pub length-project_chips-le :
    (project_tags : List Str) (max_chips : ℕ)
    → length (project_chips project_tags max_chips) ≤ max_chips
unfolding project_chips
length-project_chips-le project_tags max_chips =
    let row = take (min (max_chips - 1) 2) project_tags in
    let some_chips = length-take-le (min (max_chips - 1) 2) project_tags in
    let counted = length-append row ((decimal (length project_tags) ++ chars " projects") ∷ []) in
    if-cases (λ t. length t ≤ max_chips) (max_chips == 0 || is_empty project_tags) [] _
      (λ h. omega arith)
      λ h.
        if-cases (λ t. length t ≤ max_chips) (leb (length project_tags) 3)
          (take max_chips project_tags)
          (if ltb (length row) max_chips
            then row ++ (decimal (length project_tags) ++ chars " projects") ∷ []
            else row)
          (λ few. length-take-le max_chips project_tags)
          λ many.
            if-cases (λ t. length t ≤ max_chips) (ltb (length row) max_chips)
              (row ++ (decimal (length project_tags) ++ chars " projects") ∷ []) row
              (λ room. omega (arith, ltb→lt (length row) max_chips room, counted))
              (λ full. omega (arith, some_chips))
