-- ===== src/Tests/Buffers.antt =====
-- The theorems on the checked buffers, strings and descriptors, applied to a buffer of four bytes, a
-- string of capacity 3 and two descriptor objects.
use rtes.Prelude.{◌≡◌, refl, List, [], ◌∷◌, ◌+◌, none, some, arith}
use rtes.Memory.{FixedSizeBuffer, Descriptors, BoundedString, assign}
use rtes.Memory.Buffers.{
  Call, write_call, append_call, read_call, calls, bytes_calls, contents, IsBuffer, calls-refine,
}
use rtes.Memory.Owners
use rtes.Memory.Owners.{reset_call, move_call, close_call, whole, times, given, destroy_all}
use rtes.Memory.Strings.{Assigned, assign-Assigned}

abbrev four : FixedSizeBuffer
four = record { bytes = 0 ∷ 0 ∷ 0 ∷ 0 ∷ []; used_size = 0 }

-- The first append finds no room.
abbrev buffer_calls : List Call
buffer_calls =
    write_call (1 ∷ 2 ∷ []) ∷ append_call (3 ∷ 4 ∷ 5 ∷ []) ∷ append_call (6 ∷ []) ∷ read_call 3 ∷ []

calls-refine_example :
    let r = calls 4 buffer_calls four in
    let s = bytes_calls 4 buffer_calls (contents four) in
    (r.0 ≡ s.0) × (contents r.1 ≡ s.1) × IsBuffer 4 r.1
calls-refine_example =
    calls-refine 4 buffer_calls four (refl, omega arith)
      (omega arith, (omega arith, (omega arith, (omega arith, tt))))

abbrev two_objects : Descriptors
two_objects = record { held = none ∷ none ∷ []; closed = []; released = [] }

-- The descriptor 7 moves to the second object, which then takes 8.
abbrev object_calls : List Owners.Call
object_calls = reset_call 0 (some 7) ∷ move_call 1 0 ∷ reset_call 1 (some 8) ∷ close_call 0 ∷ []

calls-once_example :
    let r = destroy_all 2 (Owners.calls object_calls two_objects) in
    (whole 7 (Owners.calls object_calls two_objects) ≡ whole 7 two_objects + given 7 object_calls)
    × (times 7 r.closed + times 7 r.released ≡ whole 7 two_objects + given 7 object_calls)
calls-once_example =
    Owners.calls-once 7 object_calls two_objects
      (omega arith, ((omega arith, omega arith), (omega arith, (omega arith, tt))))

abbrev old : BoundedString
old = record { chars = 67 ∷ 0 ∷ 9 ∷ []; char_count = 1 }

assign-Assigned_example : Assigned 3 (65 ∷ 66 ∷ 0 ∷ []) (assign 3 (some (65 ∷ 66 ∷ 0 ∷ [])) old)
assign-Assigned_example = assign-Assigned 3 (65 ∷ 66 ∷ 0 ∷ []) old refl
