-- ===== src/Storage/Ops/Examples.antt =====
-- Witnesses of the theorems about the storage operations, on the concrete host.
use soroban_storage_the_on_c.Prelude.{◌≤◌, max, ◌≡◌, ◌↔◌, refl, true, none, some, arith}
use soroban_storage_the_on_c.Storage.Lifecycle.{temporary, persistent}
use soroban_storage_the_on_c.Storage.Ttl.{TtlPolicy, new, clamped_for}
use soroban_storage_the_on_c.Storage.Host.{get_at}
use soroban_storage_the_on_c.Storage.Ops.{get, set, set_ttl, bump, ◌>>◌}
use soroban_storage_the_on_c.Storage.Ops.Laws.{CanBump}
use soroban_storage_the_on_c.Storage.Ops.RoundTrip.{get-set, OnlyAt}
use soroban_storage_the_on_c.Storage.Ops.Lifetime.{
  Bumps, get-Bumps, set_ttl-keeps_longer, set-traps_above_max,
}
use soroban_storage_the_on_c.Storage.Model
use soroban_storage_the_on_c.Storage.Model.{Env, host, laws, empty}

-- Key 5 holds 41 in persistent storage, with 100 ledgers to live.
abbrev holding : Env
holding = record {
  value = (Model.put persistent 5 (some 41) empty).value;
  ttl = Model.replace (λ lc k. 0) persistent 5 100;
}

abbrev weekly : TtlPolicy
weekly = new 120960 518400

weekly_bumps : CanBump host laws persistent weekly
unfolding laws
weekly_bumps = record {
  usable = record { ordered = omega arith; reachable = omega arith };
  allowed = omega arith;
}

-- A read under a policy extends the entry to 30 days.
read_extends :
    (e' : Env) × (get host persistent 5 weekly true holding ≡ some (some 41, e'))
    × (e'.ttl persistent 5 ≡ 518400)
unfolding get bump clamped_for
read_extends = (Model.extended persistent 5 120960 518400 holding, refl, refl)

get-set_example :
    (e' : Env) × ((set host persistent 5 7 weekly true >> get host persistent 5 weekly true) holding
      ≡ some (some 7, e'))
    × OnlyAt host persistent 5 holding e'
get-set_example = get-set host laws persistent 5 weekly true weekly_bumps 7 holding

get-Bumps_example :
    (e' : Env) × (get host persistent 5 weekly true holding ≡ some (some 41, e'))
    × Bumps persistent weekly 100 (e'.ttl persistent 5)
unfolding laws
get-Bumps_example = get-Bumps host laws persistent 5 weekly weekly_bumps 41 holding refl

set_ttl-keeps_longer_example :
    (e' : Env) × (set_ttl host persistent 5 7 60 holding ≡ some (tt, e'))
    × (get_at host persistent 5 e' ≡ some 7)
    × (e'.ttl persistent 5 ≡ max 100 60)
    × ((e'.ttl persistent 5 ≡ 60) ↔ (100 ≤ 60))
unfolding laws
set_ttl-keeps_longer_example =
    set_ttl-keeps_longer host laws persistent 5 7 60 holding (omega arith) (λ p. cc)

-- A threshold of 200 days and a target of a year, for a temporary entry.
abbrev yearly : TtlPolicy
yearly = new 3456000 6307200

set-traps_above_max_example :
    (bump host temporary 5 yearly empty ≡ none) × (set host temporary 5 7 yearly true empty ≡ none)
set-traps_above_max_example =
    set-traps_above_max host laws temporary 5 yearly 7 empty (omega arith) (omega arith)
