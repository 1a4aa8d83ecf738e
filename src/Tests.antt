-- ===== src/Tests.antt =====
-- The theorems on the book, the pool, the queue, the engine and the risk manager, applied to the
-- samples.
mod Queues
mod Access
mod Interleavings
mod Gateways
mod Services
mod Checks
mod Limits
mod Buffers
use rtes.Prelude.{
  u64_mod, ◌<◌, ℕ, ◌≡◌, refl, ◌≢◌, true, false, List, [], ◌∷◌, none, some, arith, contains, not,
}
use rtes.Types.FixedString.{FixedString, eq, hash, of_c_string, strncmp_eq}
use rtes.Types.FixedString.Keys.{eq-of_c_string, eq-hash}
use rtes.Types.Orders.{buy}
use rtes.Errors.{ok}
use rtes.Pool.{Pool, init, allocate, deallocate}
use rtes.Pool.FreeList.{IsValid, init-IsValid, allocate-IsValid, deallocate-IsValid}
use rtes.Queue.{SpscQueue, make_queue, push, pop}
use rtes.Queue.Ring.{IsQueue, make_queue-IsQueue, push-IsQueue, pop-IsQueue}
use rtes.Book.Lookup.{lookup, lookup_single}
use rtes.Book.Matching.{crosses_of}
use rtes.Book.Matching.Rule.{Idle}
use rtes.Book.{OrderBook, add_order, cancel_order}
use rtes.Book.Invariant.{on_book, BookIsValid}
use rtes.Book.Accepts.{
  Prioritised, add_order-BookIsValid, add_order-Prioritised, swept_by-Idle, out, expected,
}
use rtes.Book.Cancels.{cancel_order-BookIsValid}
use rtes.Book.Quotes.{BboIsCurrent, add_order-BboIsCurrent, cancel_order-BboIsCurrent}
use rtes.Book.Departures.{cancel_order-on_book}
use rtes.Book.Slots.{BookIsSafe, KeptSlot, add_order-KeptSlot}
use rtes.Book.Returned.{cancel_order-BookIsSafe, freed_by}
use rtes.Book.Leaks.{add_order-filled_leaks}
use rtes.Protocol.{MessageHeader, make_header, validate_checksum, set_checksum, crc_from}
use rtes.Protocol.Checksums.{validate_checksum-changed}
use rtes.Risk.{ClientRiskState, process_new_order}
use rtes.Risk.Outcomes.{Outcome, exposure_of, process_new_order-Outcome}
use rtes.Risk.Tables.{find_in}
use rtes.Worker
use rtes.Worker.{process_cancel}
use rtes.Worker.Books.{
  BookIsSound, accepts, process_new_order-BookIsSound, process_cancel-BookIsSound,
}
use rtes.Samples.{
  acme, sample_memory, sample_pool, sample_free, sample_pool-IsValid, sample_book,
  sample_book-BookIsValid, sample-Submitted, sample_book-BookIsSafe, sample_book-BookIsSound,
  keep_event, sample_engine, sample_manager,
}

-- The snapshot of the sample is the best of its two sides.
sample_book-BboIsCurrent : BboIsCurrent sample_book
sample_book-BboIsCurrent = record {
  even = refl;
  bid_price_is = refl;
  bid_quantity_is = refl;
  ask_price_is = refl;
  ask_quantity_is = refl;
}

add_order-BboIsCurrent_example : BboIsCurrent (add_order sample_book (some 1)).1
add_order-BboIsCurrent_example = add_order-BboIsCurrent sample_book 1 sample_book-BboIsCurrent

unlisted_8 : lookup 8 sample_book.env.order_lookup ≡ none
unlisted_8 = lookup_single {V = ℕ} 8 7 0

listed_7 : lookup 7 sample_book.env.order_lookup ≡ some 0
listed_7 = lookup_single {V = ℕ} 7 7 0

positive_3 : (sample_memory 1).remaining_quantity ≢ 0
positive_3 = λ h. ground (arith, h)

filled_8 : (expected sample_book 1 buy).left ≡ 0
unfolding rtes.Book.Matching.View.match_spec
filled_8 = refl

add_order-Prioritised_example : Prioritised sample_book 1 buy (add_order sample_book (some 1))
add_order-Prioritised_example =
    add_order-Prioritised sample_book 1 sample_book-BookIsValid sample-Submitted refl positive_3
      unlisted_8

add_order-BookIsValid_example : BookIsValid (add_order sample_book (some 1)).1
add_order-BookIsValid_example =
    add_order-BookIsValid sample_book 1 sample_book-BookIsValid sample-Submitted

cancel_order-BookIsValid_example : BookIsValid (cancel_order sample_book 7).1
cancel_order-BookIsValid_example = cancel_order-BookIsValid sample_book 7 sample_book-BookIsValid

cancel_order-on_book_example :
    ((cancel_order sample_book 7).0 ≡ ok tt)
    × (on_book 0 (cancel_order sample_book 7).1.bids (cancel_order sample_book 7).1.asks ≡ false)
cancel_order-on_book_example =
    cancel_order-on_book sample_book 7 0 0 sample_book-BookIsValid refl listed_7

process_new_order-BookIsSound_example :
    (free : List ℕ) × BookIsSound
      (Worker.process_new_order keep_event sample_engine (some 1)).book
      free
    × (contains 1 free ≡ not (accepts sample_book 1))
process_new_order-BookIsSound_example =
    process_new_order-BookIsSound keep_event sample_engine 1 sample_free sample_book-BookIsSound
      sample-Submitted refl (omega arith)

process_cancel-BookIsSound_example :
    BookIsSound
      (process_cancel keep_event sample_engine 7 acme).book
      (freed_by sample_book 7 sample_free)
process_cancel-BookIsSound_example =
    process_cancel-BookIsSound keep_event sample_engine 7 acme sample_free sample_book-BookIsSound

add_order-filled_leaks_example :
    KeptSlot sample_book 1 (add_order sample_book (some 1)).1
    × (on_book 1 (add_order sample_book (some 1)).1.bids (add_order sample_book (some 1)).1.asks
        ≡ false)
add_order-filled_leaks_example =
    add_order-filled_leaks sample_book 1 sample_free sample_book-BookIsValid sample-Submitted
      sample_book-BookIsSafe refl (omega arith) refl positive_3 unlisted_8 filled_8

swept_by-Idle_example :
    Idle
      (crosses_of (sample_memory 1).type)
      (out sample_book 1 buy sample_book-BookIsValid sample-Submitted refl refl unlisted_8 refl).0
      1
      (out sample_book 1 buy sample_book-BookIsValid sample-Submitted refl refl unlisted_8 refl).1
swept_by-Idle_example =
    swept_by-Idle sample_book 1 buy sample_book-BookIsValid sample-Submitted refl refl unlisted_8
      refl

eq-of_c_string_example :
    eq 4 (of_c_string 4 (some (65 ∷ 66 ∷ []))) (of_c_string 4 (some (65 ∷ 67 ∷ [])))
    ≡ strncmp_eq 3 (65 ∷ 66 ∷ []) (65 ∷ 67 ∷ [])
eq-of_c_string_example = eq-of_c_string 3 (65 ∷ 66 ∷ []) (65 ∷ 67 ∷ [])

-- A header for a payload of two bytes.
abbrev sample_header : MessageHeader
sample_header = make_header 1 30 7 0

validate_checksum-changed_example :
    (validate_checksum (set_checksum sample_header (some (65 ∷ 66 ∷ []))) (some (65 ∷ 66 ∷ []))
      ≡ true)
    × (validate_checksum (set_checksum sample_header (some (65 ∷ 66 ∷ []))) (some (65 ∷ 67 ∷ []))
        ≡ false)
validate_checksum-changed_example =
    validate_checksum-changed sample_header (65 ∷ []) [] 66 67 (omega arith, tt) tt (omega arith)
      (omega arith) (λ e. absurd (omega (arith, e))) (omega arith) (omega arith)

-- A client with a limit of two orders, whose window begins at 100; the third order opens a new one.
abbrev client : ClientRiskState
client = record {
  active_orders = [];
  notional_exposure_scaled = 0;
  orders_in_window = 1;
  window_start_ns = 100;
}

known_client : exposure_of sample_manager (sample_memory 1).client_id < u64_mod
unfolding find_in eq strncmp_eq
known_client = omega arith

process_new_order-Outcome_example :
    Outcome sample_manager 1 (process_new_order sample_manager (some 1))
process_new_order-Outcome_example = process_new_order-Outcome sample_manager 1 known_client
