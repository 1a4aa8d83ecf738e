-- ===== src/Memory/Owners.antt =====
-- include/rtes/memory_safety.hpp, `FileDescriptor`: what becomes of the descriptors that the objects
-- own.
use rtes.Prelude.{
  ℕ, zero, suc, ◌+◌, ◌<◌, ◌≤◌, ◌≡◌, ◌==◌, List, [], ◌∷◌, Option, none, some, arith, if◌then◌else◌,
  length, set, length-set, ap, sym, subst, refl, ◌∙◌, ◌≢◌, Bool-cases, All, inl, inr,
}
use rtes.Memory.{Descriptors, listed, fd, close, release, reset, move_from}

pub data Call : Type 0 where
  close_call : ℕ → Call
  release_call : ℕ → Call
  reset_call : ℕ → Option ℕ → Call
  move_call : ℕ → ℕ → Call

unfoldable pub call : Call → Descriptors → Descriptors
unfolding release reset move_from
call (close_call i) s = close i s
call (release_call i) s = (release i s).1
call (reset_call i new_fd) s = reset i new_fd s
call (move_call i j) s = move_from i j s

unfoldable pub calls : List Call → Descriptors → Descriptors
unfolding call
calls [] s = s
calls (c ∷ cs) s = calls cs (call c s)

-- The destructors of the first `n` objects
unfoldable pub destroy_all : ℕ → Descriptors → Descriptors
destroy_all zero s = s
destroy_all (suc n) s = destroy_all n (close n s)

abbrev pub InRange : ℕ → Call → Type 0
InRange n (close_call i) = i < n
InRange n (release_call i) = i < n
InRange n (reset_call i new_fd) = i < n
InRange n (move_call i j) = (i < n) × (j < n)

abbrev pub one : ℕ → Option ℕ → ℕ
one d none = 0
one d (some e) = if d == e then 1 else 0

-- How many objects hold `d`
abbrev pub holders : ℕ → List (Option ℕ) → ℕ
holders d [] = 0
holders d (o ∷ os) = one d o + holders d os

-- How often `d` is in a list
abbrev pub times : ℕ → List ℕ → ℕ
times d [] = 0
times d (e ∷ es) = (if d == e then 1 else 0) + times d es

-- How often `d` is given to an object
abbrev pub given : ℕ → List Call → ℕ
given d [] = 0
given d (reset_call i new_fd ∷ cs) = one d new_fd + given d cs
given d (close_call i ∷ cs) = given d cs
given d (release_call i ∷ cs) = given d cs
given d (move_call i j ∷ cs) = given d cs

abbrev pub whole : ℕ → Descriptors → ℕ
whole d s = holders d s.held + times d s.closed + times d s.released

holders-set :
    (d i : ℕ) (xs : List (Option ℕ)) (v : Option ℕ)
    → i < length xs
    → holders d (set xs i v) + one d (fd xs i) ≡ holders d xs + one d v
holders-set d zero [] v h = absurd (omega arith)
holders-set d (suc i) [] v h = absurd (omega arith)
holders-set d zero (x ∷ xs) v h = omega arith
holders-set d (suc i) (x ∷ xs) v h = omega (arith, holders-set d i xs v (omega arith))

times-listed : (d : ℕ) (o : Option ℕ) (es : List ℕ) → times d (listed o es) ≡ one d o + times d es
times-listed d none es = omega arith
times-listed d (some e) es = omega arith

whole-close : (d i : ℕ) (s : Descriptors) → i < length s.held → whole d (close i s) ≡ whole d s
whole-close d i s h =
    omega (arith, holders-set d i s.held none h, times-listed d (fd s.held i) s.closed)

fd-set : (i : ℕ) (xs : List (Option ℕ)) (v : Option ℕ) → i < length xs → fd (set xs i v) i ≡ v
fd-set i [] v h = absurd (omega arith)
fd-set zero (x ∷ xs) v h = refl
fd-set (suc i) (x ∷ xs) v h = fd-set i xs v (omega arith)

fd-set_other : (i j : ℕ) (xs : List (Option ℕ)) (v : Option ℕ) → i ≢ j → fd (set xs i v) j ≡ fd xs j
fd-set_other i j [] v h = refl
fd-set_other zero zero (x ∷ xs) v h = absurd (h refl)
fd-set_other zero (suc j) (x ∷ xs) v h = refl
fd-set_other (suc i) zero (x ∷ xs) v h = refl
fd-set_other (suc i) (suc j) (x ∷ xs) v h = fd-set_other i j xs v (λ e. h (ap suc e))

whole-reset :
    (d i : ℕ) (o : Option ℕ) (s : Descriptors)
    → i < length s.held
    → whole d (reset i o s) ≡ whole d s + one d o
unfolding reset
whole-reset d i o s h = omega (
  arith,
  whole-close d i s h,
  holders-set d i (set s.held i none) o (subst (λ n. i < n) (sym (length-set s.held i none)) h),
  ap (one d) (fd-set i s.held none h),
)

-- What moves from `j` is taken away there.
holders-moved :
    (d i j : ℕ) (xs : List (Option ℕ))
    → i < length xs
    → j < length xs
    → i ≢ j
    → holders d (set (set (set xs i none) i (fd xs j)) j none) + one d (fd xs i) ≡ holders d xs
holders-moved d i j xs h k ne =
    let cleared = set xs i none in
    let taken = set cleared i (fd xs j) in
    let n = length-set xs i none in
    let m = length-set cleared i (fd xs j) in
    omega (
      arith,
      holders-set d i xs none h,
      holders-set d i cleared (fd xs j) (omega arith),
      ap (one d) (fd-set i xs none h),
      holders-set d j taken none (omega arith),
      ap (one d) (fd-set_other i j cleared (fd xs j) ne ∙ fd-set_other i j xs none ne),
    )

whole-move :
    (d i j : ℕ) (s : Descriptors)
    → i < length s.held
    → j < length s.held
    → whole d (move_from i j s) ≡ whole d s
unfolding move_from
whole-move d i j s h k = elim (Bool-cases (i == j)) [
  | inl e ↦ rw e refl
  | inr e ↦
      let apart = holders-moved d i j s.held h k (λ p. absurd (ground arith)) in
      rw e (omega (arith, apart, times-listed d (fd s.held i) s.closed))
]

-- Every call keeps the count of a descriptor, but for those it adds.
whole-call :
    (d : ℕ) (c : Call) (s : Descriptors)
    → InRange (length s.held) c
    → whole d (call c s) ≡ whole d s + given d (c ∷ [])
unfolding call release
whole-call d (close_call i) s h = omega (arith, whole-close d i s h)
whole-call d (release_call i) s h =
    omega (arith, holders-set d i s.held none h, times-listed d (fd s.held i) s.released)
whole-call d (reset_call i new_fd) s h = omega (arith, whole-reset d i new_fd s h)
whole-call d (move_call i j) s h = omega (arith, whole-move d i j s h.0 h.1)

length-call : (c : Call) (s : Descriptors) → length (call c s).held ≡ length s.held
unfolding call release reset move_from
length-call (close_call i) s = length-set s.held i none
length-call (release_call i) s = length-set s.held i none
length-call (reset_call i new_fd) s =
    length-set (set s.held i none) i new_fd ∙ length-set s.held i none
length-call (move_call i j) s =
    let cleared = set s.held i none in
    let taken = set cleared i (fd s.held j) in
    elim (Bool-cases (i == j)) [
      | inl e ↦ rw e refl
      | inr e ↦
          rw e (
            length-set taken j none ∙ length-set cleared i (fd s.held j) ∙ length-set s.held i none)
    ]

given-cons : (d : ℕ) (c : Call) (cs : List Call) → given d (c ∷ cs) ≡ given d (c ∷ []) + given d cs
given-cons d (close_call i) cs = omega arith
given-cons d (release_call i) cs = omega arith
given-cons d (reset_call i new_fd) cs = omega arith
given-cons d (move_call i j) cs = omega arith

whole-calls :
    (d : ℕ) (cs : List Call) (s : Descriptors)
    → All (InRange (length s.held)) cs
    → whole d (calls cs s) ≡ whole d s + given d cs
unfolding calls
whole-calls d [] s h = omega arith
whole-calls d (c ∷ cs) s (h, hs) =
    let later = subst (λ n. All (InRange n) cs) (sym (length-call c s)) hs in
    omega (arith, whole-calls d cs (call c s) later, whole-call d c s h, given-cons d c cs)

holders-none : (d : ℕ) (xs : List (Option ℕ)) → ((i : ℕ) → fd xs i ≡ none) → holders d xs ≡ 0
holders-none d [] empty = refl
holders-none d (x ∷ xs) empty =
    omega (arith, ap (one d) (empty 0), holders-none d xs (λ i. empty (suc i)))

length-calls : (cs : List Call) (s : Descriptors) → length (calls cs s).held ≡ length s.held
unfolding calls
length-calls [] s = refl
length-calls (c ∷ cs) s = length-calls cs (call c s) ∙ length-call c s

holders-destroy_all :
    (d n : ℕ) (s : Descriptors)
    → n ≤ length s.held
    → ((i : ℕ) → n ≤ i → fd s.held i ≡ none)
    → holders d (destroy_all n s).held ≡ 0
unfolding destroy_all
holders-destroy_all d zero s h empty = holders-none d s.held (λ i. empty i (omega arith))
holders-destroy_all d (suc n) s h empty =
    holders-destroy_all d n (close n s) (omega (arith, h, length-set s.held n none)) (λ i k.
      elim (Bool-cases (n == i)) [
        | inl e ↦ ap (fd (set s.held n none)) (ground arith) ∙ fd-set n s.held none (omega arith)
        | inr e ↦ fd-set_other n i s.held none (λ p. absurd (ground arith)) ∙ empty i (ground arith)
      ])

whole-destroy_all :
    (d n : ℕ) (s : Descriptors) → n ≤ length s.held → whole d (destroy_all n s) ≡ whole d s
unfolding destroy_all
whole-destroy_all d zero s h = refl
whole-destroy_all d (suc n) s h =
    whole-destroy_all d n (close n s) (omega (arith, h, length-set s.held n none))
    ∙ whole-close d n s (omega arith)

fd-past_end : (i : ℕ) (xs : List (Option ℕ)) → length xs ≤ i → fd xs i ≡ none
fd-past_end i [] h = refl
fd-past_end zero (x ∷ xs) h = absurd (omega arith)
fd-past_end (suc i) (x ∷ xs) h = fd-past_end i xs (omega arith)

-- Whatever the objects' calls are, a descriptor is at every time held, closed or handed out as many
-- times in all as it was given to an object. After the destructors it is closed or handed out that
-- many times: none that was given once leaks, or is closed twice.
pub calls-once :
    (d : ℕ) (cs : List Call) (s : Descriptors)
    → All (InRange (length s.held)) cs
    → let r = destroy_all (length s.held) (calls cs s) in
      (whole d (calls cs s) ≡ whole d s + given d cs)
      × (times d r.closed + times d r.released ≡ whole d s + given d cs)
calls-once d cs s h =
    let n = length-calls cs s in
    let kept = whole-calls d cs s h in
    let bare =
      holders-destroy_all d (length s.held) (calls cs s) (omega arith)
        (λ i k. fd-past_end i (calls cs s).held (omega arith)) in
    let last = whole-destroy_all d (length s.held) (calls cs s) (omega arith) in (kept, omega arith)
