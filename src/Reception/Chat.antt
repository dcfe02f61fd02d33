-- ===== src/Reception/Chat.antt =====
-- src/reception/publicReceptionRouter.ts: the handler of `/chat`, up to the call of the provider
-- (`begin_chat`) and from its answer on (`finish_chat`).
use sera_core.Prelude.{
  ℕ, ◌+◌, ◌-◌, String, Bool, true, false, ◌&&◌, ◌||◌, ◌==◌, Option, none, some, List, if◌then◌else◌,
  is_empty, any, length, ltb, nat_eq,
}
use sera_core.Dict
use sera_core.Text.{to_lower, trim, text_length}
use sera_core.Reception.{
  Limits, ReceptionReply, CachedReply, Reception, Admission, admitted, retry_after, acquire_request,
  release, fallback_reply, public_cache_ttl_ms,
}
use sera_core.Reception.Question.{
  ReceptionTurn, temporary_session_history, collapse, cacheable_questions,
  visual_for_public_question,
}

-- a request that the provider is asked about
pub record Flight : Type 0 where
  pub client : String
  pub message : String
  pub cache_key : Option String

pub data ChatReply : Type 0 where
  bad_message : ChatReply
  busy : (retry_after_seconds : ℕ) → ChatReply
  not_configured : ChatReply
  provider_failed : ChatReply
  replied : (reply : ReceptionReply) → ChatReply

pub data Begun : Type 0 where
  ended : ChatReply → Begun
  asks : Flight → Begun

-- what comes back: no answer, an answer that the parser throws on, or one that it reads
pub data Answer : Type 0 where
  no_answer unreadable : Answer
  parsed : (reply : ReceptionReply) → Answer

unfoldable pub is_bad : Option String → Bool
is_bad none = true
is_bad (some message) = is_empty (trim message) || ltb 1200 (text_length message)

-- the key under which the reply may be cached; the revision of the texts is part of every key
unfoldable pub cache_key_of : String → List ReceptionTurn → Option String
cache_key_of message history =
    let question = to_lower message in
    if nat_eq (length (temporary_session_history history)) 0
      && any (λ q. q == question) cacheable_questions
    then some question
    else none

unfoldable pub fresh_reply : ℕ → Option CachedReply → Option ReceptionReply
fresh_reply now none = none
fresh_reply now (some c) = if ltb now c.expires_at then some c.reply else none

unfoldable pub cached_reply : ℕ → Option String → Reception → Option ReceptionReply
cached_reply now none s = none
cached_reply now (some key) s = fresh_reply now (Dict.get s.public_reply_cache key)

-- a request that was let in
unfoldable pub answer_or_ask : Bool → Flight → Option ReceptionReply → Reception → Begun × Reception
answer_or_ask configured f (some reply) s =
    (ended (replied reply), release f.client (record s { global_requests = s.global_requests - 1 }))
answer_or_ask true f none s = (asks f, s)
answer_or_ask false f none s = (ended not_configured, release f.client s)

unfoldable pub let_in : ℕ → Bool → Flight → Admission × Reception → Begun × Reception
let_in now configured f (retry_after seconds, s) = (ended (busy seconds), s)
let_in now configured f (admitted, s) =
    answer_or_ask configured f (cached_reply now f.cache_key s) s

unfoldable pub flight_of : String → String → List ReceptionTurn → Flight
flight_of client text history =
    let message = collapse (trim text) in
    record { client = client; message = message; cache_key = cache_key_of message history }

unfoldable pub begin_chat :
    Limits → ℕ → Bool → String → Option String → List ReceptionTurn → Reception → Begun × Reception
begin_chat l now configured client none history s = (ended bad_message, s)
begin_chat l now configured client (some text) history s =
    if is_bad (some text)
    then (ended bad_message, s)
    else let_in now configured (flight_of client text history) (acquire_request l now client s)

unfoldable pub put_reply : ℕ → Option String → ReceptionReply → Reception → Reception
put_reply now none reply s = s
put_reply now (some key) reply s = record s {
  public_reply_cache =
      Dict.set s.public_reply_cache key
        (record { reply = reply; expires_at = now + public_cache_ttl_ms });
}

unfoldable pub finish_chat : ℕ → Flight → Answer → Reception → ChatReply × Reception
finish_chat now f no_answer s = (provider_failed, release f.client s)
finish_chat now f unreadable s = (replied fallback_reply, release f.client s)
finish_chat now f (parsed reply) s =
    let reply' : ReceptionReply = record reply {
      visual = visual_for_public_question f.message reply.visual;
    } in
    (replied reply', release f.client (put_reply now f.cache_key reply' s))
