-- ===== src/Risk/Rate.antt =====
-- src/risk_manager.cpp, `check_rate_limit`: how many orders of a client it lets through.
use rtes.Prelude.{ℕ, suc, ◌≤◌, ◌<◌, List, [], ◌∷◌, if◌then◌else◌}
use rtes.Risk.{ClientRiskState, check_rate_limit}

-- The checks of a client's orders at the times of the list, one after another: how many pass.
abbrev pub passes : ℕ → List ℕ → ClientRiskState → ℕ
passes limit [] c = 0
passes limit (now ∷ later) c =
    let r = check_rate_limit limit now c in
    let rest = passes limit later r.1 in if r.0 then suc rest else rest

-- The clock does not go back from `last` on, and stops before `until`.
abbrev pub Steady : ℕ → ℕ → List ℕ → Type 0
Steady last until [] = Unit {0}
Steady last until (now ∷ later) = (last ≤ now) × (now < until) × Steady now until later
