-- ===== src/Credits/Multipliers.antt =====
-- `NodeMultiplierState` and `CreditMultiplierEngine` (legacy/services_python/credit_multipliers.py).
-- A multiplier is a number of tenths; a product of the six is in millionths, where one that is not
-- applied counts as 10. Credits that are earned are in millionths of a millionth. A utilization is a
-- number of percents.
pub mod Caps
mod Examples
use distrib_ai.Base.{
  ℕ, suc, ◌+◌, ◌*◌, ◌-◌, ◌/◌, ◌%◌, ◌==◌, Bool, true, false, ◌&&◌, ◌||◌, Option, none, some, List,
  [], ◌∷◌, if◌then◌else◌, ltb, leb,
}
use distrib_ai.Base.Int.{ℤ, pos, negsuc, ◌+ℤ◌, ◌-ℤ◌, ◌*ℤ◌, ltb_ℤ}
use distrib_ai.Base.Dict.{Dict, lookup, insert}

pub record NodeMultiplierState : Type 0 where
  pub node_id : ℕ
  pub surge_opt_in : Bool
  pub early_adopter : Bool
  pub early_adopter_start : ℕ
  pub tasks_completed : ℕ
  pub tasks_failed : ℕ
  pub uptime_seconds : ℕ
  pub first_seen : ℕ
  pub daily_earnings : ℤ
  pub daily_window_start : ℕ

abbrev pub tasks_done : NodeMultiplierState → ℕ
tasks_done s = s.tasks_completed + s.tasks_failed

-- At 99 percent.
abbrev pub is_reliable : NodeMultiplierState → Bool
is_reliable s =
    if ltb (tasks_done s) 10 then false else leb (99 * tasks_done s) (100 * s.tasks_completed)

-- Above 2 percent.
abbrev pub has_high_error_rate : NodeMultiplierState → Bool
has_high_error_rate s =
    if ltb (tasks_done s) 10 then false else ltb (2 * tasks_done s) (100 * s.tasks_failed)

abbrev pub early_adopter_active : ℕ → NodeMultiplierState → Bool
early_adopter_active now s = ltb now (s.early_adopter_start + 15552000)

pub record CreditMultiplierEngine : Type 0 where
  pub velocity_cap : ℤ
  pub launch_timestamp : ℕ
  pub node_states : Dict NodeMultiplierState
  pub network_utilization : ℕ
  pub surge_active : Bool
  pub surge_expires_at : ℕ

-- `launch_timestamp or time.time()` is given.
abbrev pub new_engine : ℤ → ℕ → CreditMultiplierEngine
new_engine cap launch = record {
  velocity_cap = cap;
  launch_timestamp = launch;
  node_states = [];
  network_utilization = 50;
  surge_active = false;
  surge_expires_at = 0;
}

abbrev pub new_state : ℕ → ℕ → ℕ → NodeMultiplierState
new_state node launch now = record {
  node_id = node;
  surge_opt_in = false;
  early_adopter = true;
  early_adopter_start = launch;
  tasks_completed = 0;
  tasks_failed = 0;
  uptime_seconds = 0;
  first_seen = now;
  daily_earnings = pos 0;
  daily_window_start = now;
}

abbrev pub put_state : ℕ → NodeMultiplierState → CreditMultiplierEngine → CreditMultiplierEngine
put_state node s e = record e { node_states = insert node s e.node_states }

-- The state, which is stored where it is new.
abbrev pub get_or_create_state : ℕ → ℕ → CreditMultiplierEngine → NodeMultiplierState
get_or_create_state node now e = elim (lookup node e.node_states) [
  | none ↦ new_state node e.launch_timestamp now
  | some s ↦ s
]

abbrev pub applies : Bool → ℕ → ℕ
applies test tenths = if test then tenths else 10

-- Each factor, as `multipliers` lists them.
pub record Multipliers : Type 0 where
  pub surge_opt_in : ℕ
  pub reliability : ℕ
  pub early_adopter : ℕ
  pub error_penalty : ℕ
  pub low_demand : ℕ
  pub surge_boost : ℕ

abbrev pub final : Multipliers → ℕ
final m =
    m.surge_opt_in * m.reliability * m.early_adopter * m.error_penalty * m.low_demand
    * m.surge_boost

-- With the choice that is given, if one is. The clock is read for the early adopters and for the surge.
abbrev pub choose_surge : Option Bool → NodeMultiplierState → NodeMultiplierState
choose_surge none s = s
choose_surge (some b) s = record s { surge_opt_in = b }

unfoldable pub multipliers_of : ℕ → ℕ → NodeMultiplierState → CreditMultiplierEngine → Multipliers
multipliers_of now surged s e = record {
  surge_opt_in = applies s.surge_opt_in 15;
  reliability = applies (is_reliable s) 12;
  early_adopter = applies (early_adopter_active now s) 11;
  error_penalty = applies (has_high_error_rate s) 8;
  low_demand = applies (ltb e.network_utilization 20) 8;
  surge_boost = applies (e.surge_active && ltb surged e.surge_expires_at) 20;
}

unfoldable pub calculate_multipliers :
    ℕ → Option Bool → ℕ → ℕ → ℕ → CreditMultiplierEngine → Multipliers × CreditMultiplierEngine
calculate_multipliers node choice created now surged e =
    let s = choose_surge choice (get_or_create_state node created e) in
    (multipliers_of now surged s e, put_state node s e)

-- A new day begins more than 86400 seconds after the last.
abbrev pub open_window : ℕ → NodeMultiplierState → NodeMultiplierState
open_window now s =
    if ltb (s.daily_window_start + 86400) now
    then record s { daily_earnings = pos 0; daily_window_start = now }
    else s

-- What is credited of an amount, and the state behind it.
unfoldable pub earn : ℤ → ℤ → ℕ → NodeMultiplierState → ℤ × NodeMultiplierState
earn cap adjusted now s =
    let w = open_window now s in
    let remaining = cap -ℤ w.daily_earnings in
    let capped = if ltb_ℤ remaining adjusted then remaining else adjusted in
    (capped, record w { daily_earnings = w.daily_earnings +ℤ capped })

-- `round(a / k)`, a half going to the even number.
abbrev pub round_half : ℕ → ℕ → ℕ
round_half n k =
    let twice = 2 * (n % k) in
    if ltb twice k || twice == k && n / k % 2 == 0 then n / k else suc (n / k)

unfoldable pub round_ℤ : ℤ → ℕ → ℤ
round_ℤ (pos n) k = pos (round_half n k)
round_ℤ (negsuc n) k = pos 0 -ℤ pos (round_half (suc n) k)

-- What is answered; the amounts are rounded to hundredths, and counted in them.
pub record CreditCalculation : Type 0 where
  pub base_credits : ℤ
  pub multipliers : Multipliers
  pub adjusted_credits : ℤ
  pub velocity_capped : Bool
  pub capped_credits : ℤ
  pub daily_remaining : ℤ
  pub daily_total : ℤ

-- `base` is `compute_score * base_rate * hours` in millionths. The state keeps what is credited
-- without rounding.
unfoldable pub calculate_credits :
    ℕ
    → ℤ
    → Option Bool
    → ℕ
    → ℕ
    → ℕ
    → ℕ
    → CreditMultiplierEngine
    → CreditCalculation × CreditMultiplierEngine
calculate_credits node base choice created now surged booked e =
    let (m, e') = calculate_multipliers node choice created now surged e in
    let s = get_or_create_state node created e' in
    let adjusted = base *ℤ pos (final m) in
    let remaining = e.velocity_cap -ℤ (open_window booked s).daily_earnings in
    let (capped, s') = earn e.velocity_cap adjusted booked s in
    (
      record {
        base_credits = round_ℤ base 10000;
        multipliers = m;
        adjusted_credits = round_ℤ adjusted 10000000000;
        velocity_capped = ltb_ℤ remaining adjusted;
        capped_credits = round_ℤ capped 10000000000;
        daily_remaining = round_ℤ remaining 10000000000;
        daily_total = round_ℤ s'.daily_earnings 10000000000;
      },
      put_state node s' e',
    )

unfoldable pub record_task_completion :
    ℕ → Bool → ℕ → ℕ → CreditMultiplierEngine → CreditMultiplierEngine
record_task_completion node success duration created e =
    let s = get_or_create_state node created e in
    put_state node
      (record s {
        tasks_completed = s.tasks_completed + (if success then 1 else 0);
        tasks_failed = s.tasks_failed + (if success then 0 else 1);
        uptime_seconds = s.uptime_seconds + duration;
      })
      e

abbrev pub set_surge_opt_in : ℕ → Bool → ℕ → CreditMultiplierEngine → CreditMultiplierEngine
set_surge_opt_in node choice created e =
    put_state node (record (get_or_create_state node created e) { surge_opt_in = choice }) e

abbrev pub trigger_surge : ℕ → ℕ → CreditMultiplierEngine → CreditMultiplierEngine
trigger_surge duration now e = record e { surge_active = true; surge_expires_at = now + duration }

unfoldable pub set_early_adopter :
    ℕ → Bool → ℕ → ℕ → CreditMultiplierEngine → CreditMultiplierEngine
set_early_adopter node early created now e =
    let s = get_or_create_state node created e in
    put_state node
      (record s {
        early_adopter = early;
        early_adopter_start = if early then now else s.early_adopter_start;
      })
      e

-- A utilization below 0 is 0 here.
abbrev pub update_network_utilization : ℕ → CreditMultiplierEngine → CreditMultiplierEngine
update_network_utilization percent e = record e {
  network_utilization = if ltb 100 percent then 100 else percent;
}
