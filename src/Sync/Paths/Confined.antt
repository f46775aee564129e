-- ===== src/Sync/Paths/Confined.antt =====
-- A path that crates/rds-sync/src/proto.rs accepts stays below the root and out of the journal.
use remote_device_sync.Base.{
  ℕ, ◌<◌, ◌≡◌, refl, ap, ◌∙◌, subst, ◌⊎◌, inl, inr, false, List, [], ◌∷◌, ◌++◌, length, All,
  Bool-cases, ok, arith, map, true,
}
use remote_device_sync.Base.Text.{bytes}
use remote_device_sync.Grant.Scope.{is_separator, is_slash, split, push_head}
use remote_device_sync.Sync.Paths.{
  Part, to_ascii_lowercase, eq_ignore_ascii_case, state_dir, part, push, push_parts, check_rel_path,
}

-- A component that names something: not empty, not `.` or `..`, and not the journal's directory in
-- any case.
abbrev pub IsPlain : List ℕ → Type 0
IsPlain w =
    ¬ (w ≡ [])
    × ¬ (w ≡ bytes ".")
    × ¬ (w ≡ bytes "..")
    × ¬ (map to_ascii_lowercase w ≡ bytes ".rds-sync")

-- What the code's classification of a part rules out.
plain-IsPlain : (w : List ℕ) → part w ≡ Part.plain → IsPlain w
unfolding part
plain-IsPlain w h = (
  λ e. let h' = rw e at h in ground (arith, h'),
  λ e. let h' = rw e at h in ground (arith, h'),
  λ e. let h' = rw e at h in ground (arith, h'),
  λ e.
      let same : eq_ignore_ascii_case w state_dir ≡ true = rw e refl in
      absurd (ground (arith, same, h)),
)

-- No byte is a separator.
abbrev IsWhole : List ℕ → Type 0
IsWhole = All (λ b. is_separator b ≡ false)

All-append : (xs ys : List (List ℕ)) → All IsPlain xs → All IsPlain ys → All IsPlain (xs ++ ys)
All-append [] ys p q = q
All-append (x ∷ xs) ys p q = (p.0, All-append xs ys p.1 q)

push_head-IsWhole :
    (c : ℕ) (ws : List (List ℕ))
    → is_separator c ≡ false
    → All IsWhole ws
    → All IsWhole (push_head c ws)
push_head-IsWhole c [] s a = ((s, tt), tt)
push_head-IsWhole c (w ∷ ws) s a = ((s, a.0), a.1)

split-IsWhole : (cs : List ℕ) → All IsWhole (split is_separator cs)
unfolding split
split-IsWhole [] = (tt, tt)
split-IsWhole (c ∷ cs) =
    let later = split-IsWhole cs in
    elim (Bool-cases (is_separator c)) [
      | inl s ↦ rw s (tt, later)
      | inr s ↦ rw s (push_head-IsWhole c (split is_separator cs) s later)
    ]

slash_lem : (c : ℕ) → is_separator c ≡ false → is_slash c ≡ false
slash_lem c h = ground arith

-- A whole word is one part.
split-whole : (w : List ℕ) → IsWhole w → split is_slash w ≡ w ∷ []
unfolding split
split-whole [] a = refl
split-whole (c ∷ cs) a = rw (split-whole cs a.1) (rw (slash_lem c a.0) refl)

push_head-append :
    (c : ℕ) (xs ys : List (List ℕ)) → 0 < length xs → push_head c (xs ++ ys) ≡ push_head c xs ++ ys
push_head-append c [] ys h = absurd (omega arith)
push_head-append c (x ∷ xs) ys h = refl

length-split : (cs : List ℕ) → 0 < length (split is_slash cs)
unfolding split
length-split [] = omega arith
length-split (c ∷ cs) = ground arith

-- A slash ends a part.
split-append :
    (xs w : List ℕ) → split is_slash (xs ++ (b'/' ∷ w)) ≡ split is_slash xs ++ split is_slash w
unfolding split
split-append [] w = refl
split-append (x ∷ xs) w = elim (Bool-cases (is_slash x)) [
  | inl s ↦ rw s (ap (λ l. [] ∷ l) (split-append xs w))
  | inr s ↦ rw s (
      ap (push_head x) (split-append xs w)
      ∙ push_head-append x (split is_slash xs) (split is_slash w) (length-split xs))
]

-- The path so far is empty or consists of plain components.
abbrev IsSofar : List ℕ → Type 0
IsSofar out = (out ≡ []) ⊎ All IsPlain (split is_slash out)

sofar_lem : (b : ℕ) (bs : List ℕ) → IsSofar (b ∷ bs) → All IsPlain (split is_slash (b ∷ bs))
sofar_lem b bs (inl e) = absurd (ground arith)
sofar_lem b bs (inr a) = a

push-IsSofar :
    (out w : List ℕ)
    → IsSofar out
    → IsWhole w
    → IsPlain w
    → All IsPlain (split is_slash (push out w))
push-IsSofar [] w s a p = rw (split-whole w a) (p, tt)
push-IsSofar (b ∷ bs) w s a p = rw (split-append (b ∷ bs) w) (
    rw (split-whole w a) (All-append (split is_slash (b ∷ bs)) (w ∷ []) (sofar_lem b bs s) (p, tt)))

push_parts_nil : (out result : List ℕ) → push_parts out [] ≡ ok result → out ≡ result
unfolding push_parts
push_parts_nil out result h = ground arith

-- A part is skipped or pushed.
push_parts-step :
    (out w : List ℕ) (ws : List (List ℕ)) (result : List ℕ)
    → push_parts out (w ∷ ws) ≡ ok result
    → (push_parts out ws ≡ ok result)
      ⊎ ((part w ≡ Part.plain) × (push_parts (push out w) ws ≡ ok result))
unfolding push_parts
push_parts-step out w ws result h = ground arith

push_parts-IsSofar :
    (out : List ℕ) (ws : List (List ℕ)) (result : List ℕ)
    → IsSofar out
    → All IsWhole ws
    → push_parts out ws ≡ ok result
    → IsSofar result
unfolding push_parts
push_parts-IsSofar out [] result s a h = subst IsSofar (push_parts_nil out result h) s
push_parts-IsSofar out (w ∷ ws) result s a h = elim (push_parts-step out w ws result h) [
  | inl later ↦ push_parts-IsSofar out ws result s a.1 later
  | inr (p, later) ↦
      push_parts-IsSofar (push out w) ws result (inr (push-IsSofar out w s a.0 (plain-IsPlain w p)))
        a.1 later
]

check_rel_path_lem :
    (rel out : List ℕ)
    → check_rel_path rel ≡ ok out
    → (push_parts [] (split is_separator rel) ≡ ok out) × (0 < length out)
unfolding check_rel_path
check_rel_path_lem rel out h = (ground arith, ground arith)

nonempty_lem : (out : List ℕ) → 0 < length out → IsSofar out → All IsPlain (split is_slash out)
nonempty_lem [] n s = absurd (omega arith)
nonempty_lem (b ∷ bs) n s = sofar_lem b bs s

-- A path that the check accepts becomes a path of plain components, split at each `/`: none is empty,
-- `.` or `..`, and none is the journal's directory in upper or lower case.
pub check_rel_path-IsPlain :
    (rel out : List ℕ) → check_rel_path rel ≡ ok out → All IsPlain (split is_slash out)
check_rel_path-IsPlain rel out h =
    let (pushed, n) = check_rel_path_lem rel out h in
    nonempty_lem out n
      (push_parts-IsSofar [] (split is_separator rel) out (inl refl) (split-IsWhole rel) pushed)
