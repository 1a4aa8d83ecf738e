-- ===== src/Risk/Outcomes.antt =====
-- src/risk_manager.cpp: what process_new_order makes of an order, and what it charges to the client.
use rtes.Prelude.{
  ℕ, suc, ◌≤◌, ◌<◌, ◌≡◌, ◌⊎◌, inl, inr, refl, sym, ap, ◌∙◌, Bool, true, false, ◌&&◌, not, ◌||◌,
  ◌==◌, ==_refl, List, Option, none, some, arith, ltb, if◌then◌else◌, add64, mul64, u64_mod,
  contains, Option-cases,
}
use rtes.Types.FixedString.{FixedString}
use rtes.Types.Orders.{rejected, accepted}
use rtes.Requests
use rtes.Requests.{Engine}
use rtes.Risk.{
  RiskManager, ClientRiskState, client_width, symbol_width, new_client, write_client,
  get_or_create_client, check_rate_limit, check_price_collar, calculate_notional, charge, refund,
  reject_order, track, roll_back, approve, with_engines, route, screen, process_new_order,
}
use rtes.Risk.Tables.{find_in, assign_in, find_in-assign_in}

abbrev pub exposure : Option ClientRiskState → ℕ
exposure none = 0
exposure (some c) = c.notional_exposure_scaled

-- The exposure of a client, 0 for one that was not seen yet
abbrev pub exposure_of : RiskManager → FixedString → ℕ
exposure_of m id = exposure (find_in client_width id m.client_states)

abbrev Approved : RiskManager → ℕ → RiskManager → Type 0
Approved m order r =
    let o = m.mem order in
    let total = add64 (exposure_of m o.client_id) (mul64 o.price o.quantity) in
    ((r.mem order).status ≡ accepted)
    × (exposure_of r o.client_id ≡ total)
    × (total ≤ m.max_notional_scaled)
    × (r.stats.approved_count ≡ add64 m.stats.approved_count 1)
    × (r.stats.rejected_count ≡ m.stats.rejected_count)

abbrev Rejected : RiskManager → ℕ → RiskManager → Type 0
Rejected m order r =
    ((r.mem order).status ≡ rejected)
    × (exposure_of r (m.mem order).client_id ≡ exposure_of m (m.mem order).client_id)
    × (r.stats.approved_count ≡ m.stats.approved_count)
    × (r.stats.rejected_count ≡ add64 m.stats.rejected_count 1)

abbrev pub Outcome : RiskManager → ℕ → RiskManager → Type 0
Outcome m order r = Approved m order r ⊎ Rejected m order r

-- The same as far as an order's outcome goes
record Same (m : RiskManager) (id : FixedString) (r : RiskManager) : Type 0 where
  mem : r.mem ≡ m.mem
  exposure : exposure_of r id ≡ exposure_of m id
  stats : r.stats ≡ m.stats
  limit : r.max_notional_scaled ≡ m.max_notional_scaled

reject-Outcome :
    (m r : RiskManager) (order : ℕ)
    → Same m (m.mem order).client_id r
    → Outcome m order (reject_order r order)
unfolding reject_order
reject-Outcome m r order v = inr (
  rw (==_refl order) refl,
  v.exposure,
  ap (λ s. s.approved_count) v.stats,
  ap (λ s. add64 s.rejected_count 1) v.stats,
)

if-Outcome :
    (m : RiskManager) (order : ℕ) (b : Bool) (x y : RiskManager)
    → (b ≡ true → Outcome m order x)
    → (b ≡ false → Outcome m order y)
    → Outcome m order (if b then x else y)
if-Outcome m order true x y h k = h refl
if-Outcome m order false x y h k = k refl

option-Outcome :
    {A : Type 0} (m : RiskManager) (order : ℕ) (o : Option A) (x : RiskManager)
    (f : A → RiskManager)
    → Outcome m order x
    → ((a : A) → o ≡ some a → Outcome m order (f a))
    → Outcome m order (elim o [ none ↦ x | some a ↦ f a ])
option-Outcome m order none x f h k = h
option-Outcome m order (some a) x f h k = k a refl

exposure-write :
    (m : RiskManager) (id : FixedString) (c : ClientRiskState)
    → exposure_of (write_client m id c) id ≡ c.notional_exposure_scaled
exposure-write m id c = ap exposure (find_in-assign_in client_width id c m.client_states)

-- The client that get_or_create_client gives has the exposure it had.
known-Same :
    (m : RiskManager) (id : FixedString)
    → ((get_or_create_client m id).0.notional_exposure_scaled ≡ exposure_of m id)
      × Same m id (get_or_create_client m id).1
unfolding get_or_create_client
known-Same m id = elim (Option-cases (find_in client_width id m.client_states)) [
  | inl fresh ↦
      rw (get_or_create_client, fresh)
        (
          refl,
          record {
            mem = refl;
            exposure =
                ap exposure
                  (find_in-assign_in client_width id (new_client (m.clock m.ticks)) m.client_states)
                ∙ sym (ap exposure fresh);
            stats = refl;
            limit = refl;
          },
        )
  | inr (c, known) ↦
      rw (get_or_create_client, known)
        (refl, record { mem = refl; exposure = refl; stats = refl; limit = refl })
]

check_exposure :
    (limit now : ℕ) (c : ClientRiskState)
    → (check_rate_limit limit now c).1.notional_exposure_scaled ≡ c.notional_exposure_scaled
unfolding check_rate_limit
check_exposure limit now c = ground arith

-- An outcome of the manager `r` is one of `m` where both are the same.
Outcome-Same :
    (m r x : RiskManager) (order : ℕ)
    → Same m (m.mem order).client_id r
    → Outcome r order x
    → Outcome m order x
Outcome-Same m r x order v (inl h) = inl (rw (v.mem, v.stats, v.limit, v.exposure) at h)
Outcome-Same m r x order v (inr h) = inr (rw (v.mem, v.stats, v.exposure) at h)

-- What is charged and refunded is not charged.
refund-charge :
    (c : ClientRiskState) (id notional : ℕ)
    → c.notional_exposure_scaled < u64_mod
    → notional < u64_mod
    → (refund (charge c id notional) id notional).notional_exposure_scaled
      ≡ c.notional_exposure_scaled
refund-charge c id notional w k = omega arith

module _ (m : RiskManager) (order : ℕ) (c : ClientRiskState)
    (e : c.notional_exposure_scaled ≡ exposure_of m (m.mem order).client_id)
    (w : exposure_of m (m.mem order).client_id < u64_mod)
    (credit : ltb m.max_notional_scaled
        (add64 c.notional_exposure_scaled (calculate_notional (m.mem order)))
      ≡ false) where
  rolled_back-Same : Same m (m.mem order).client_id (roll_back m order c)
  unfolding roll_back track
  rolled_back-Same =
      let o = m.mem order in
      let n = calculate_notional o in
      record {
        mem = refl;
        exposure =
            ap exposure (find_in-assign_in client_width o.client_id _ _)
            ∙ refund-charge c o.id n (omega arith) (omega arith)
            ∙ e;
        stats = refl;
        limit = refl;
      }

  approve-Outcome :
      (engines : List (FixedString × Engine))
      → Outcome m order (approve (with_engines (track m order c) engines) order)
  unfolding track
  approve-Outcome engines =
      let o = m.mem order in
      let n = calculate_notional o in
      inl (
        rw (==_refl order) refl,
        ap exposure (find_in-assign_in client_width o.client_id (charge c o.id n) m.client_states)
            ∙ ap (λ x. add64 x n) e,
        ground arith,
        refl,
        refl,
      )

  with_engines-Same :
      (r : RiskManager) (engines : List (FixedString × Engine))
      → Same m (m.mem order).client_id r
      → Same m (m.mem order).client_id (with_engines r engines)
  with_engines-Same r engines v = record {
    mem = v.mem;
    exposure = v.exposure;
    stats = v.stats;
    limit = v.limit;
  }

  route-Outcome : Outcome m order (route m order c)
  unfolding route
  route-Outcome =
      option-Outcome m order (find_in symbol_width (m.mem order).symbol m.matching_engines) _ _
        (reject-Outcome m _ order rolled_back-Same)
        (λ engine _.
          let sent = Requests.submit_order engine (some order) in
          let engines = assign_in symbol_width (m.mem order).symbol (sent.1) m.matching_engines in
          if-Outcome m order (sent.0) (approve (with_engines (track m order c) engines) order)
            (reject_order (with_engines (roll_back m order c) engines) order)
            (λ _. approve-Outcome engines)
            (λ _.
              reject-Outcome m _ order
                (with_engines-Same (roll_back m order c) engines rolled_back-Same)))

-- The client's state after the rate check is written back.
checked-Same :
    (m r : RiskManager) (id : FixedString) (c : ClientRiskState)
    → Same m id r
    → c.notional_exposure_scaled ≡ exposure_of m id
    → Same m id (record (write_client r id c) { ticks = suc r.ticks })
checked-Same m r id c v e = record {
  mem = v.mem;
  exposure = exposure-write r id c ∙ e;
  stats = v.stats;
  limit = v.limit;
}

screen-Outcome :
    (m : RiskManager) (order collar_pct : ℕ)
    → exposure_of m (m.mem order).client_id < u64_mod
    → Outcome m order (screen m order collar_pct)
unfolding screen
screen-Outcome m order collar_pct w =
    let o = m.mem order in
    let id = o.client_id in
    let known = get_or_create_client m id in
    let (c_is, known_is) = known-Same m id in
    let checked = check_rate_limit m.max_orders_per_second (m.clock known.1.ticks) (known.0) in
    let same_exposure : checked.1.notional_exposure_scaled ≡ exposure_of m id =
      check_exposure m.max_orders_per_second (m.clock known.1.ticks) (known.0) ∙ c_is in
    let m' : RiskManager = record (write_client (known.1) id (checked.1)) {
      ticks = suc known.1.ticks;
    } in
    let v : Same m id m' = checked-Same m (known.1) id (checked.1) known_is same_exposure in
    let refused : Outcome m order (reject_order m' order) = reject-Outcome m m' order v in
    let credit_step =
      if ltb m.max_notional_scaled (add64 checked.1.notional_exposure_scaled (calculate_notional o))
      then reject_order m' order
      else route m' order (checked.1) in
    let collar_step =
      if m.price_collar_enabled && not (check_price_collar m.reference_prices o collar_pct)
      then reject_order m' order
      else credit_step in
    let duplicate_step =
      if contains o.id checked.1.active_orders then reject_order m' order else collar_step in
    if-Outcome m order (not checked.0) (reject_order m' order) duplicate_step (λ _. refused)
      (λ _.
        if-Outcome m order (contains o.id checked.1.active_orders) (reject_order m' order)
          collar_step (λ _. refused)
          (λ _.
            if-Outcome m order
              (m.price_collar_enabled && not (check_price_collar m.reference_prices o collar_pct))
              (reject_order m' order) credit_step (λ _. refused)
              (λ _.
                if-Outcome m order
                  (ltb m.max_notional_scaled
                    (add64 checked.1.notional_exposure_scaled (calculate_notional o)))
                  (reject_order m' order) (route m' order (checked.1)) (λ _. refused)
                  (λ credit. Outcome-Same m m' (route m' order (checked.1)) order v (
                    route-Outcome m' order (checked.1) (rw v.mem (same_exposure ∙ sym v.exposure))
                      (rw (v.mem, v.exposure) w) (rw (v.mem, v.limit) credit))))))

-- Every order that process_new_order is given ends in one of two ways. It is accepted, counted as
-- approved, and its client is charged exactly its notional, within the limit; or it is rejected and
-- counted as such, and its client is charged nothing, also where the engine's queue is full after the
-- charge. The notional and the sum with the exposure are 64 bit words that wrap around.
pub process_new_order-Outcome :
    (m : RiskManager) (order : ℕ)
    → exposure_of m (m.mem order).client_id < u64_mod
    → Outcome m order (process_new_order m (some order))
unfolding process_new_order
process_new_order-Outcome m order w =
    let refused =
      reject-Outcome m m order
        (record { mem = refl; exposure = refl; stats = refl; limit = refl }) in
    option-Outcome m order (find_in symbol_width (m.mem order).symbol m.symbol_configs) _ _ refused
      (λ collar_pct _.
        if-Outcome m order
          (((m.mem order).quantity == 0) || ltb m.max_order_size (m.mem order).quantity)
          (reject_order m order) (screen m order collar_pct) (λ _. refused)
          (λ _. screen-Outcome m order collar_pct w))
