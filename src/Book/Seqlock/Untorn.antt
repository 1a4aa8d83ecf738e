-- ===== src/Book/Seqlock/Untorn.antt =====
-- src/order_book.cpp, read_bbo: a copy that is accepted is never torn between two updates.
use rtes.Prelude.{
  ℕ, suc, ◌+◌, ◌%◌, ◌≤◌, ◌<◌, ◌≡◌, ◌≢◌, refl, ap, ◌∙◌, false, Option, none, some, arith, ◌==◌,
  u64_mod, Bool-cases, Option-cases, inl, inr,
}
use rtes.Mpmc.{write}
use rtes.Book.Seqlock.{
  Snapshot, word, Writer, resting, writing, Reader, idle, copying, Threads, advanced, Step,
  update_begin, update_word, update_end, read_begin, read_word, read_end, Reach, here, next,
}

-- The words before the next one have been written.
abbrev pub WriterKnows : Snapshot → (ℕ → ℕ) → Writer → Type 0
WriterKnows b published resting = (b.sequence % 2 ≡ 0) × ((j : ℕ) → j < 4 → b.quote j ≡ published j)
WriterKnows b published (writing quotes k) =
    (b.sequence % 2 ≡ 1) × ((j : ℕ) → j < k → j < 4 → b.quote j ≡ quotes j)

-- What has been copied is what stands there as long as the sequence is the one that was read.
abbrev pub ReaderKnows : Snapshot → Reader → Type 0
ReaderKnows b idle = Unit
ReaderKnows b (copying seq1 out) =
    (seq1 ≤ b.sequence)
    × (seq1 % 2 ≡ 0)
    × (b.sequence ≡ seq1 → (j v : ℕ) → out j ≡ some v → v ≡ word b j)

record Inv (n : ℕ) (s : Threads) : Type 0 where
  counted : s.snapshot.sequence ≤ n
  writer_knows : WriterKnows s.snapshot s.published s.writer
  reader_knows : (i : ℕ) → ReaderKnows s.snapshot (s.reader i)

advanced-ReaderKnows :
    (b : Snapshot) (n : ℕ)
    → b.sequence ≤ n
    → n + 1 < u64_mod
    → (r : Reader) → ReaderKnows b r
    → ReaderKnows (advanced b) r
advanced-ReaderKnows b n c room idle k = tt
advanced-ReaderKnows b n c room (copying seq1 out) (le, even, same) =
    (omega arith, even, λ e. absurd (omega arith))

odd-ReaderKnows :
    (b : Snapshot) (k v : ℕ)
    → b.sequence % 2 ≡ 1
    → (r : Reader) → ReaderKnows b r
    → ReaderKnows (record b { quote = write b.quote k v }) r
odd-ReaderKnows b k v odd idle h = tt
odd-ReaderKnows b k v odd (copying seq1 out) (le, even, same) =
    (le, even, λ e. absurd (omega arith))

write-ReaderKnows :
    (b : Snapshot) (readers : ℕ → Reader) (i : ℕ) (r : Reader)
    → ((j : ℕ) → ReaderKnows b (readers j))
    → ReaderKnows b r
    → (j : ℕ) → ReaderKnows b (write readers i r j)
write-ReaderKnows b readers i r h k j = elim (Bool-cases (i == j)) [
  | inl e ↦ rw e k
  | inr e ↦ rw e (h j)
]

word-ReaderKnows :
    (b : Snapshot) (seq1 j : ℕ) (out : ℕ → Option ℕ)
    → ReaderKnows b (copying seq1 out)
    → ReaderKnows b (copying seq1 (write out j (some (word b j))))
word-ReaderKnows b seq1 j out (le, even, same) = (
  le,
  even,
  λ e k v h. elim (Bool-cases (j == k)) [
    | inl at_k ↦
        let here_is : some (word b j) ≡ some v = rw at_k at h in
        let same_index : j ≡ k = ground arith in
        let copied : v ≡ word b j = cc in rw⁻¹ same_index copied
    | inr other ↦ same e k v (rw other at h)
  ],
)

-- The writer moves on: the readers know what they know of the new snapshot.
write-Inv :
    {n : ℕ} (s : Threads) (b : Snapshot) (w : Writer) (published : ℕ → ℕ)
    → b.sequence ≤ suc n
    → WriterKnows b published w
    → ((i : ℕ) → ReaderKnows b (s.reader i))
    → Inv (suc n) (record s { snapshot = b; writer = w; published = published })
write-Inv s b w published c k r = record { counted = c; writer_knows = k; reader_knows = r }

read-Inv :
    {n : ℕ} {s : Threads} (i : ℕ) (r : Reader)
    → Inv n s
    → ReaderKnows s.snapshot r
    → Inv (suc n) (record s { reader = write s.reader i r })
read-Inv {n} {s} i r v k = record {
  counted = omega (arith, v.counted);
  writer_knows = v.writer_knows;
  reader_knows = write-ReaderKnows s.snapshot s.reader i r v.reader_knows k;
}

words_so_far :
    (quote quotes : ℕ → ℕ) (k : ℕ)
    → ((j : ℕ) → j < k → j < 4 → quote j ≡ quotes j)
    → (j : ℕ) → j < k + 1
    → j < 4
    → write quote k (quotes k) j ≡ quotes j
words_so_far quote quotes k h j l m = elim (Bool-cases (k == j)) [
  | inl e ↦ let same : k ≡ j = ground arith in rw (e, same) refl
  | inr e ↦ rw e (h j (ground arith) m)
]

Step-Inv : {n : ℕ} {s t : Threads} → suc n < u64_mod → Inv n s → Step s t → Inv (suc n) t
Step-Inv {n} {s} room v (update_begin {quotes} e) =
    let (even, _) = rw e at v.writer_knows in
    write-Inv s (advanced s.snapshot) (writing quotes 0) s.published (omega (arith, v.counted))
      (omega (arith, v.counted), λ j h. absurd (omega arith))
      (λ i.
        advanced-ReaderKnows s.snapshot n v.counted (omega arith) (s.reader i) (v.reader_knows i))
Step-Inv {n} {s} room v (update_word {quotes} {k} e h) =
    let (odd, done) = rw e at v.writer_knows in
    write-Inv s (record (s.snapshot) { quote = write s.snapshot.quote k (quotes k) })
      (writing quotes (k + 1)) s.published (omega (arith, v.counted))
      (odd, words_so_far s.snapshot.quote quotes k done)
      (λ i. odd-ReaderKnows s.snapshot k (quotes k) odd (s.reader i) (v.reader_knows i))
Step-Inv {n} {s} room v (update_end {quotes} {k} e h) =
    let (odd, done) = rw e at v.writer_knows in
    write-Inv s (advanced s.snapshot) resting quotes (omega (arith, v.counted))
      (omega (arith, v.counted), λ j m. done j (omega arith) m)
      (λ i.
        advanced-ReaderKnows s.snapshot n v.counted (omega arith) (s.reader i) (v.reader_knows i))
Step-Inv {n} {s} room v (read_begin i e even) =
    read-Inv i (copying s.snapshot.sequence (λ _. none)) v
      (omega arith, ground arith, λ same j w h. absurd (ground arith))
Step-Inv {n} {s} room v (read_word i j {seq1} {out} e) =
    read-Inv i (copying seq1 (write out j (some (word s.snapshot j)))) v
      (word-ReaderKnows s.snapshot seq1 j out (rw e at (v.reader_knows i)))
Step-Inv {n} {s} room v (read_end i e all) = read-Inv i idle v tt

Reach-Inv : {n : ℕ} {s : Threads} → Reach n s → n < u64_mod → Inv n s
Reach-Inv here room = record {
  counted = omega arith;
  writer_knows = (refl, λ j h. refl);
  reader_knows = λ i. tt;
}
Reach-Inv (next r st) room = Step-Inv room (Reach-Inv r (omega arith)) st

even_rests :
    (b : Snapshot) (published : ℕ → ℕ) (w : Writer)
    → WriterKnows b published w
    → b.sequence % 2 ≡ 0
    → (w ≡ resting) × ((j : ℕ) → j < 4 → b.quote j ≡ published j)
even_rests b published resting k even = (refl, k.1)
even_rests b published (writing quotes j) k even = absurd (omega arith)

copied_word :
    (b : Snapshot) (seq1 : ℕ) (out : ℕ → Option ℕ)
    → ReaderKnows b (copying seq1 out)
    → b.sequence ≡ seq1
    → (j : ℕ) → out j ≢ none
    → out j ≡ some (word b j)
copied_word b seq1 out (le, even, copied) same j some_at = elim (Option-cases (out j)) [
  | inl e ↦ absurd (some_at e)
  | inr (w, e) ↦ e ∙ ap some (copied same j w e)
]

-- From a new book, under any interleaving of the matching thread with any number of readers in fewer
-- than 2 ^ 64 accesses: where a reader has copied all words and finds the sequence number that it read
-- before, no update is under way, the four words that it has copied are the quotes of the last update
-- that is over, and the fifth is the sequence number.
pub Reach-untorn :
    {n : ℕ} {s : Threads}
    → Reach n s
    → n < u64_mod
    → (i seq1 : ℕ) (out : ℕ → Option ℕ) → s.reader i ≡ copying seq1 out
    → ((j : ℕ) → j < 5 → out j ≢ none)
    → s.snapshot.sequence ≡ seq1
    → (s.writer ≡ resting) × ((j : ℕ) → j < 4 → out j ≡ some (s.published j)) × (out 4 ≡ some seq1)
Reach-untorn {n} {s} r room i seq1 out e all same =
    let v = Reach-Inv r room in
    let knows : ReaderKnows s.snapshot (copying seq1 out) = rw e at (v.reader_knows i) in
    let at_word = λ (j : ℕ) (h : j < 5). copied_word s.snapshot seq1 out knows same j (all j h) in
    let (rests, quotes) =
      even_rests s.snapshot s.published s.writer v.writer_knows (rw same (knows.1)) in
    (
      rests,
      λ j h.
          let other : (j == 4) ≡ false = ground arith in
          let q : s.snapshot.quote j ≡ s.published j = quotes j h in
          at_word j (omega arith) ∙ ap some (rw (other, q) refl),
      at_word 4 (omega arith) ∙ ap some same,
    )
