-- ===== src/Reception/Question.antt =====
-- src/reception/publicReceptionRouter.ts: what a visitor sends, and what is read from its words.
use Prim.Native.String
use Prim.Native.String.append
use sera_core.Prelude.{
  ◌-◌, String, Bool, false, not, ◌||◌, Option, none, some, List, [], ◌∷◌, if◌then◌else◌, get_or,
  is_empty, any, filter, map, length, drop,
}
use sera_core.Text.{to_lower, trim, includes, is_space, take_text}

pub data Role : Type 0 where
  user_role assistant_role other_role : Role

-- a turn of the history that the client sends, with a text that is absent where it is no text
pub record ReceptionTurn : Type 0 where
  pub role : Role
  pub content : Option String

unfoldable pub is_turn : ReceptionTurn → Bool
is_turn t = elim t.content [
  | none ↦ false
  | some content ↦ elim t.role [
    | user_role ↦ not (is_empty (trim content))
    | assistant_role ↦ not (is_empty (trim content))
    | other_role ↦ false
  ]
]

unfoldable pub cut_turn : ReceptionTurn → ReceptionTurn
cut_turn t = record t { content = some (take_text 900 (trim (get_or t.content ""))) }

unfoldable pub temporary_session_history : List ReceptionTurn → List ReceptionTurn
temporary_session_history turns =
    let kept = filter is_turn turns in map cut_turn (drop (length kept - 4) kept)

unfoldable pub starts_blank : String → Bool
starts_blank String.[] = false
starts_blank (String.◌∷◌ c s) = is_space c

-- `message.replace(/\s+/g, ' ')`
unfoldable pub collapse : String → String
collapse String.[] = String.[]
collapse (String.◌∷◌ c s) =
    let rest = collapse s in
    if is_space c
    then (if starts_blank s then rest else Prim.Native.String.◌++◌ " " rest)
    else String.◌∷◌ c rest

abbrev pub cacheable_questions : List String
cacheable_questions =
    "what is sera?" ∷ "how does sera work?" ∷ "what can sera help me accomplish?"
    ∷ "how does sera stay safe?" ∷ "what can sera connect to?" ∷ []

-- the words that a text includes one of
abbrev pub mentions : String → List String → Bool
mentions input words = any (includes input) words

unfoldable pub is_launch_request : String → Bool
is_launch_request message = mentions (to_lower message) (
    "launch sera" ∷ "i want to start" ∷ "ready to start" ∷ "how do i access sera"
    ∷ "how can i access sera" ∷ "how to sign up" ∷ "saya ingin mulai" ∷ "saya siap"
    ∷ "mulai sekarang" ∷ "bagaimana saya mengakses sera" ∷ "cara akses sera" ∷ "cara mendaftar"
    ∷ "bagaimana cara mendaftar" ∷ [])

unfoldable pub visual_for_public_question : String → String → String
visual_for_public_question message fallback =
    let input = to_lower message in
    if is_launch_request input || mentions input ("launch app" ∷ "open sera" ∷ "access app" ∷ [])
    then "start"
    else if mentions input ("how does sera work" ∷ "how it works" ∷ [])
    then "operating"
    else if mentions input (
        "proposal" ∷ "approve" ∷ "reject" ∷ "approval" ∷ "automation" ∷ "schedule" ∷ "transfer"
        ∷ [])
    then "automation"
    else if mentions input ("how does sera stay safe" ∷ "safeguard" ∷ "security" ∷ [])
    then "security"
    else if mentions input ("wallet" ∷ "portfolio" ∷ [])
    then "crypto"
    else fallback
