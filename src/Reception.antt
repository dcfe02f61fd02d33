-- ===== src/Reception.antt =====
-- src/reception/publicReceptionRouter.ts: who is let in to the public chat, its cache, and what a
-- request leaves behind. A client is the hash of its address, the limits are those of the
-- environment, a day is its number, and a call reads the clock once before it asks the provider and
-- once after. What the parsing of the provider's answer gives is an argument; so is whether a key of
-- the provider is set.
pub mod Question
pub mod Chat
pub mod Traffic
mod Tests
use Prim.Native.Char.{Char}
use Prim.Native.String
use Prim.Native.String.append
use sera_core.Prelude.{
  ℕ, ◌+◌, ◌-◌, ◌/◌, String, Bool, true, false, not, ◌&&◌, ◌||◌, ◌==◌, Option, none, some, List, [],
  ◌∷◌, if◌then◌else◌, get_or, is_empty, is_some, any, filter, map, length, drop, ltb, leb, nat_eq,
}
use sera_core.Dict
use sera_core.Dict.{Dict}
use sera_core.Text.{to_lower, trim, includes, is_space, text_length, take_text}

abbrev pub minute_window_ms : ℕ
minute_window_ms = 60000

abbrev pub public_cache_ttl_ms : ℕ
public_cache_ttl_ms = 300000

abbrev pub day_ms : ℕ
day_ms = 86400000

pub record Limits : Type 0 where
  pub per_minute : ℕ
  pub per_day : ℕ
  pub daily_budget : ℕ

pub record ClientUsage : Type 0 where
  pub minute_started_at : ℕ
  pub minute_requests : ℕ
  pub day : ℕ
  pub day_requests : ℕ
  pub active_requests : ℕ

pub record ReceptionReply : Type 0 where
  pub visual : String
  pub label : String
  pub response : String
  pub suggested_questions : List String

pub record CachedReply : Type 0 where
  pub reply : ReceptionReply
  pub expires_at : ℕ

pub record Reception : Type 0 where
  pub client_usage : Dict ClientUsage
  pub public_reply_cache : Dict CachedReply
  pub global_day : Option ℕ
  pub global_requests : ℕ

-- `utcDay()`
abbrev pub utc_day : ℕ → ℕ
utc_day now = now / day_ms

unfoldable pub usage_of : ℕ → Option ClientUsage → ClientUsage
usage_of now none = record {
  minute_started_at = now;
  minute_requests = 0;
  day = utc_day now;
  day_requests = 0;
  active_requests = 0;
}
usage_of now (some u) = u

unfoldable pub roll_minute : ℕ → ClientUsage → ClientUsage
roll_minute now u =
    if leb minute_window_ms (now - u.minute_started_at)
    then record u { minute_started_at = now; minute_requests = 0 }
    else u

unfoldable pub roll_day : ℕ → ClientUsage → ClientUsage
roll_day today u = if nat_eq u.day today then u else record u { day = today; day_requests = 0 }

unfoldable pub is_today : ℕ → Option ℕ → Bool
is_today today none = false
is_today today (some day) = nat_eq day today

unfoldable pub roll_global : ℕ → Reception → Reception
roll_global today s =
    if is_today today s.global_day
    then s
    else record s { global_day = some today; global_requests = 0 }

pub data Admission : Type 0 where
  admitted : Admission
  retry_after : (seconds : ℕ) → Admission

unfoldable pub admission : Limits → ℕ → ClientUsage → ℕ → Admission
admission l now u global_requests =
    if leb 1 u.active_requests
    then retry_after 3
    else if leb l.per_minute u.minute_requests
    then retry_after ((minute_window_ms + u.minute_started_at - now + 999) / 1000)
    else if leb l.per_day u.day_requests || leb l.daily_budget global_requests
    then retry_after 3600
    else admitted

-- the usage of a known client is one object, whose windows a refusal leaves rolled
unfoldable pub keep_usage : String → ClientUsage → Dict ClientUsage → Dict ClientUsage
keep_usage client u usages = if Dict.has usages client then Dict.set usages client u else usages

unfoldable pub counted : ClientUsage → ClientUsage
counted u = record u {
  minute_requests = u.minute_requests + 1;
  day_requests = u.day_requests + 1;
  active_requests = u.active_requests + 1;
}

unfoldable pub settle : String → ClientUsage → Reception → Admission → Admission × Reception
settle client u s (retry_after seconds) =
    (retry_after seconds, record s { client_usage = keep_usage client u s.client_usage })
settle client u s admitted = (
  admitted,
  record s {
    client_usage = Dict.set s.client_usage client (counted u);
    global_requests = s.global_requests + 1;
  },
)

unfoldable pub acquire_request : Limits → ℕ → String → Reception → Admission × Reception
acquire_request l now client s =
    let u =
      roll_day (utc_day now) (roll_minute now (usage_of now (Dict.get s.client_usage client))) in
    let s' = roll_global (utc_day now) s in
    settle client u s' (admission l now u s'.global_requests)

unfoldable pub released : Option ClientUsage → String → Dict ClientUsage → Dict ClientUsage
released none client usages = usages
released (some u) client usages =
    Dict.set usages client (record u { active_requests = u.active_requests - 1 })

unfoldable pub release : String → Reception → Reception
release client s = record s {
  client_usage = released (Dict.get s.client_usage client) client s.client_usage;
}

abbrev pub fallback_reply : ReceptionReply
fallback_reply = record {
  visual = "general";
  label = "";
  response =
      "SERA can introduce its operating model, safeguards, and the systems it can understand.";
  suggested_questions = "What is SERA?" ∷ "How does SERA work?" ∷ "How does SERA stay safe?" ∷ [];
}
