-- ===== src/Book/Seqlock.antt =====
-- src/order_book.cpp, update_bbo_snapshot and read_bbo: the matching thread writes the snapshot of the
-- best quotes, and any number of other threads copy it. They are interleaved word by word, in any order
-- of the copied words; every load sees the last store.
pub mod Untorn
use rtes.Prelude.{
  ℕ, zero, suc, ◌+◌, ◌%◌, ◌≤◌, ◌<◌, ◌≡◌, ◌≢◌, refl, ap, ◌∙◌, Bool, true, false, Option, none, some,
  arith, ◌==◌, if◌then◌else◌, add64, u64_mod, Bool-cases, Option-cases, inl, inr,
}
use rtes.Mpmc.{write}

-- The words 0 to 3 of `BBOSnapshot` in their order: the prices and quantities of bid and ask.
pub record Snapshot : Type 0 where
  pub quote : ℕ → ℕ
  pub sequence : ℕ

-- The fifth word is the sequence number.
abbrev pub word : Snapshot → ℕ → ℕ
word b i = if i == 4 then b.sequence else b.quote i

-- Where the matching thread stands in `update_bbo_snapshot` with these quotes: the next word it writes.
pub data Writer : Type 0 where
  resting : Writer
  writing : (quotes : ℕ → ℕ) (next_word : ℕ) → Writer

-- Where another thread stands in `read_bbo`, with `seq1` and the words of `out` so far.
pub data Reader : Type 0 where
  idle : Reader
  copying : (seq1 : ℕ) (out : ℕ → Option ℕ) → Reader

-- `published` is no part of the snapshot: it remembers the quotes of the last update that is over.
pub record Threads : Type 0 where
  pub snapshot : Snapshot
  pub writer : Writer
  pub reader : ℕ → Reader
  pub published : ℕ → ℕ

abbrev pub begin : Threads
begin = record {
  snapshot = record { quote = λ _. 0; sequence = 0 };
  writer = resting;
  reader = λ _. idle;
  published = λ _. 0;
}

abbrev pub advanced : Snapshot → Snapshot
advanced b = record b { sequence = add64 b.sequence 1 }

abbrev pub is_odd : ℕ → Bool
is_odd n = n % 2 == 1

-- One access of one thread.
pub data Step (s : Threads) : Threads → Type 0 where
  update_begin :
      {quotes : ℕ → ℕ}
      → s.writer ≡ resting
      → Step s (record s { snapshot = advanced s.snapshot; writer = writing quotes 0 })
  update_word :
      {quotes : ℕ → ℕ} {k : ℕ}
      → s.writer ≡ writing quotes k
      → k < 4
      → Step s (record s {
        snapshot = record (s.snapshot) { quote = write s.snapshot.quote k (quotes k) };
        writer = writing quotes (k + 1);
      })
  update_end :
      {quotes : ℕ → ℕ} {k : ℕ}
      → s.writer ≡ writing quotes k
      → 4 ≤ k
      → Step s (record s { snapshot = advanced s.snapshot; writer = resting; published = quotes })
  read_begin :
      (i : ℕ)
      → s.reader i ≡ idle
      → is_odd s.snapshot.sequence ≡ false
      → Step s (record s { reader = write s.reader i (copying s.snapshot.sequence (λ _. none)) })
  read_word :
      (i j : ℕ) {seq1 : ℕ} {out : ℕ → Option ℕ}
      → s.reader i ≡ copying seq1 out
      → Step s (record s {
        reader = write s.reader i (copying seq1 (write out j (some (word s.snapshot j))));
      })
  -- The second load of the sequence and the answer of `read_bbo`
  read_end :
      (i : ℕ) {seq1 : ℕ} {out : ℕ → Option ℕ}
      → s.reader i ≡ copying seq1 out
      → ((j : ℕ) → j < 5 → out j ≢ none)
      → Step s (record s { reader = write s.reader i idle })

-- The states that `n` steps lead to.
pub data Reach : ℕ → Threads → Type 0 where
  here : Reach zero begin
  next : {n : ℕ} {s t : Threads} → Reach n s → Step s t → Reach (suc n) t
