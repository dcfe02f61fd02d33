-- ===== src/Billing/Bounty.antt =====
-- src/server/billing/BountyLedger.ts and src/server/billing/BountyManagerService.ts: points for a
-- daily check-in and for one-time quests, and their conversion to credits. `today` is the date part
-- of the clock reading, amounts of points are whole numbers.
pub mod Points
use sera_core.Prelude.{
  ℕ, ◌+◌, ◌-◌, ◌*◌, String, Bool, true, false, Option, none, some, List, [], ◌∷◌, ◌++◌, ◌==◌,
  if◌then◌else◌, get_or, not, any, ltb, nat_eq, is_text,
}
use sera_core.Dict
use sera_core.Dict.{Dict}
use sera_core.Billing.Ledger.{SubscriptionLedger}
use sera_core.Billing.Service.{credits_of, add_credits_directly}

pub record BountyLedger : Type 0 where
  pub points_map : Dict ℕ
  pub completed_quests : Dict (List String)
  pub last_daily_check_in : Dict String

unfoldable pub get_points : String → BountyLedger → ℕ
get_points user l = get_or (Dict.get l.points_map user) 0

unfoldable pub add_points : String → ℕ → BountyLedger → BountyLedger
add_points user points l = record l {
  points_map = Dict.set l.points_map user (get_points user l + points);
}

unfoldable pub deduct_points : String → ℕ → BountyLedger → Bool × BountyLedger
deduct_points user points l =
    let current = get_points user l in
    if ltb current points
    then (false, l)
    else (true, record l { points_map = Dict.set l.points_map user (current - points) })

-- `Set.has` and `Set.add`
abbrev pub in_set : String → List String → Bool
in_set x = any (λ y. y == x)

abbrev pub add_to_set : String → List String → List String
add_to_set x xs = if in_set x xs then xs else xs ++ x ∷ []

abbrev pub quests_of : String → BountyLedger → List String
quests_of user l = get_or (Dict.get l.completed_quests user) []

unfoldable pub mark_quest_completed : String → String → BountyLedger → BountyLedger
mark_quest_completed user quest l = record l {
  completed_quests = Dict.set l.completed_quests user (add_to_set quest (quests_of user l));
}

unfoldable pub is_quest_completed : String → String → BountyLedger → Bool
is_quest_completed user quest l = in_set quest (quests_of user l)

unfoldable pub can_claim_daily : String → String → BountyLedger → Bool
can_claim_daily today user l = not (is_text (Dict.get l.last_daily_check_in user) today)

unfoldable pub mark_daily_claimed : String → String → BountyLedger → BountyLedger
mark_daily_claimed today user l = record l {
  last_daily_check_in = Dict.set l.last_daily_check_in user today;
}

abbrev pub points_daily_checkin : ℕ
points_daily_checkin = 500

abbrev pub points_x_engagement : ℕ
points_x_engagement = 1000

abbrev pub points_watch_earn : ℕ
points_watch_earn = 2000

abbrev pub exchange_rate_points_to_credits : ℕ
exchange_rate_points_to_credits = 100

unfoldable pub claim_daily_check_in : String → String → BountyLedger → Bool × BountyLedger
claim_daily_check_in today user l =
    if can_claim_daily today user l
    then (true, mark_daily_claimed today user (add_points user points_daily_checkin l))
    else (false, l)

pub data BountyError : Type 0 where
  unknown_quest_id : BountyError
  invalid_points_amount : BountyError
  insufficient_points_balance : BountyError

pub data Result {ℓ} (A : Type ℓ) : Type ℓ where
  ok : A → Result A
  throw : BountyError → Result A

unfoldable pub points_of_quest : String → Option ℕ
points_of_quest quest =
    if quest == "x-engagement"
    then some points_x_engagement
    else if quest == "watch-and-earn"
    then some points_watch_earn
    else none

unfoldable pub claim_event_quest : String → String → BountyLedger → Result Bool × BountyLedger
claim_event_quest user quest l =
    if is_quest_completed user quest l then (ok false, l) else (elim (points_of_quest quest) [
      | none ↦ (throw unknown_quest_id, l)
      | some points ↦ (ok true, mark_quest_completed user quest (add_points user points l))
    ])

pub record BountyManagerService : Type 0 where
  pub ledger : BountyLedger
  pub subscriptions : SubscriptionLedger

unfoldable pub convert_points_to_credits :
    ℕ → String → ℕ → BountyManagerService → Result ℕ × BountyManagerService
convert_points_to_credits now user amount s =
    let (has_balance, l) = deduct_points user amount s.ledger in
    let credits = amount * exchange_rate_points_to_credits in
    if nat_eq amount 0
    then (throw invalid_points_amount, s)
    else if not has_balance
    then (throw insufficient_points_balance, s)
    else (
      ok credits,
      record {
        ledger = l;
        subscriptions = add_credits_directly now user (credits_of credits) s.subscriptions;
      },
    )
