-- ===== src/Billing/Bounty/Points.antt =====
-- src/server/billing/BountyManagerService.ts: where the points of a user come from and go to.
use sera_core.Prelude.{
  ℕ, ◌+◌, ◌-◌, ◌*◌, ◌≤◌, String, ◌≡◌, refl, sym, ap, false, some, List, [], ◌∷◌, ◌++◌, ◌==◌, ◌||◌,
  ◌&&◌, subst, eq_iff, if◌then◌else◌, get_or, ltb, nat_eq, arith, Bool-cases, Option-cases, inl,
  inr,
}
use sera_core.Dict
use sera_core.Dict.Laws.{get-set}
use sera_core.Billing.Bounty.{
  BountyLedger, BountyManagerService, get_points, add_points, deduct_points, in_set, add_to_set,
  quests_of, mark_quest_completed, is_quest_completed, can_claim_daily, mark_daily_claimed,
  claim_daily_check_in, points_daily_checkin, ok, throw, points_of_quest, claim_event_quest,
  convert_points_to_credits,
}

pub data Command : Type 0 where
  checks_in : (today user : String) → Command
  claims : (user quest : String) → Command
  converts : (now : ℕ) (user : String) (amount : ℕ) → Command

-- what a user has been granted: daily check-ins, and points converted to credits
pub record Tally : Type 0 where
  pub checked : ℕ
  pub converted : ℕ

unfoldable pub run_command :
    String → Command → BountyManagerService × Tally → BountyManagerService × Tally
run_command u (checks_in today user) (s, t) =
    let (granted, l) = claim_daily_check_in today user s.ledger in
    (
      record s { ledger = l },
      if granted && (user == u) then record t { checked = t.checked + 1 } else t,
    )
run_command u (claims user quest) (s, t) =
    (record s { ledger = (claim_event_quest user quest s.ledger).1 }, t)
run_command u (converts now user amount) (s, t) =
    let (result, s') = convert_points_to_credits now user amount s in
    (
      s',
      elim result [
        | ok credits ↦ if user == u then record t { converted = t.converted + amount } else t
        | throw e ↦ t
      ],
    )

unfoldable pub run_commands :
    String → List Command → BountyManagerService × Tally → BountyManagerService × Tally
run_commands u [] st = st
run_commands u (c ∷ cs) st = run_commands u cs (run_command u c st)

-- what the quests that a user has completed are worth, each once
abbrev pub worth : List String → ℕ
worth quests =
    (if in_set "x-engagement" quests then 1000 else 0)
    + (if in_set "watch-and-earn" quests then 2000 else 0)

abbrev pub IsBalanced : String → BountyManagerService × Tally → Type 0
IsBalanced u (s, t) =
    get_points u s.ledger + t.converted ≡ 500 * t.checked + worth (quests_of u s.ledger)

in_set-append :
    (x y : String) (xs : List String) → in_set x (xs ++ y ∷ []) ≡ (in_set x xs || (y == x))
in_set-append x y [] = ground arith
in_set-append x y (z ∷ xs) = ground (arith, in_set-append x y xs)

worth-append :
    (quest : String) (points : ℕ) (quests : List String)
    → points_of_quest quest ≡ some points
    → in_set quest quests ≡ false
    → worth (add_to_set quest quests) ≡ worth quests + points
unfolding points_of_quest
worth-append quest points quests known missing =
    let x = in_set-append "x-engagement" quest quests in
    let w = in_set-append "watch-and-earn" quest quests in
    elim (Bool-cases (quest == "x-engagement")) [
      | inl is_x ↦
          let name = (eq_iff quest "x-engagement").0 is_x in
          let missing_x = subst (λ q. in_set q quests ≡ false) name missing in
          let not_w : (quest == "watch-and-earn") ≡ false =
            subst (λ q. (q == "watch-and-earn") ≡ false) (sym name) refl in
          rw (missing, x, w, is_x, not_w, missing_x) (ground arith)
      | inr not_x ↦ elim (Bool-cases (quest == "watch-and-earn")) [
        | inl is_w ↦
            let missing_w =
              subst (λ q. in_set q quests ≡ false) ((eq_iff quest "watch-and-earn").0 is_w)
                missing in
            rw (missing, x, w, not_x, is_w, missing_w) (ground arith)
        | inr not_w ↦ ground arith
      ]
    ]

get_points-set :
    (u v : String) (n : ℕ) (l : BountyLedger)
    → get_points u (record l { points_map = Dict.set l.points_map v n })
      ≡ (if v == u then n else get_points u l)
unfolding get_points
get_points-set u v n l = ground (arith, get-set l.points_map v u n)

quests_of-set :
    (u v : String) (quests : List String) (l : BountyLedger)
    → quests_of u (record l { completed_quests = Dict.set l.completed_quests v quests })
      ≡ (if v == u then quests else quests_of u l)
quests_of-set u v quests l = ground (arith, get-set l.completed_quests v u quests)

checks_in-IsBalanced :
    (u today user : String) (s : BountyManagerService) (t : Tally)
    → IsBalanced u (s, t)
    → IsBalanced u (run_command u (checks_in today user) (s, t))
unfolding run_command claim_daily_check_in mark_daily_claimed add_points get_points
checks_in-IsBalanced u today user s t h = elim (Bool-cases (can_claim_daily today user s.ledger)) [
  | inr claimed ↦ rw claimed h
  | inl free ↦
      let n = get_or (Dict.get s.ledger.points_map user) 0 + points_daily_checkin in
      rw (free, get-set s.ledger.points_map user u n)
        (elim (Bool-cases (user == u)) [
          | inr other ↦ rw other h
          | inl same ↦ rw (same, (eq_iff user u).0 same) (omega arith)
        ])
]

claims-IsBalanced :
    (u user quest : String) (s : BountyManagerService) (t : Tally)
    → IsBalanced u (s, t)
    → IsBalanced u (run_command u (claims user quest) (s, t))
unfolding run_command claim_event_quest mark_quest_completed add_points is_quest_completed
    get_points
claims-IsBalanced u user quest s t h = elim (Bool-cases (in_set quest (quests_of user s.ledger))) [
  | inl done ↦ rw done h
  | inr missing ↦ rw missing (elim (Option-cases (points_of_quest quest)) [
    | inl unknown ↦ rw unknown h
    | inr (points, known) ↦
        let n = get_or (Dict.get s.ledger.points_map user) 0 + points in
        let quests = quests_of user s.ledger in
        let more = worth-append quest points quests known missing in
        rw
          (
            known,
            get-set s.ledger.points_map user u n,
            get-set s.ledger.completed_quests user u (add_to_set quest quests),
          )
          (elim (Bool-cases (user == u)) [
            | inr other ↦ rw other h
            | inl same ↦ rw (same, more, (eq_iff user u).0 same) (omega arith)
          ])
  ])
]

converts-IsBalanced :
    (u : String) (now : ℕ) (user : String) (amount : ℕ) (s : BountyManagerService) (t : Tally)
    → IsBalanced u (s, t)
    → IsBalanced u (run_command u (converts now user amount) (s, t))
unfolding run_command convert_points_to_credits deduct_points get_points
converts-IsBalanced u now user amount s t h =
    let current = get_or (Dict.get s.ledger.points_map user) 0 in
    elim (Bool-cases (nat_eq amount 0)) [
      | inl nothing ↦ rw (nothing, run_command) h
      | inr something ↦
          rw (something, run_command)
            (elim (Bool-cases (ltb current amount)) [
              | inl short ↦ rw (short, deduct_points) h
              | inr enough ↦
                  rw (enough, deduct_points, get-set s.ledger.points_map user u (current - amount))
                    (elim (Bool-cases (user == u)) [
                      | inr other ↦ rw other h
                      | inl same ↦
                          let name = (eq_iff user u).0 same in
                          let own : current ≡ get_or (Dict.get s.ledger.points_map u) 0 =
                            ap (λ k. get_or (Dict.get s.ledger.points_map k) 0) name in
                          let covered : amount ≤ current = ground arith in rw same (omega arith)
                    ])
            ])
    ]

run_command-IsBalanced :
    (u : String) (c : Command) (st : BountyManagerService × Tally)
    → IsBalanced u st
    → IsBalanced u (run_command u c st)
run_command-IsBalanced u (checks_in today user) (s, t) h = checks_in-IsBalanced u today user s t h
run_command-IsBalanced u (claims user quest) (s, t) h = claims-IsBalanced u user quest s t h
run_command-IsBalanced u (converts now user amount) (s, t) h =
    converts-IsBalanced u now user amount s t h

-- Over any history of claims and conversions of any users, the points that a user holds and those
-- that were converted to credits make up 500 for each check-in that was granted and the worth of
-- each completed quest once, as they did before.
pub run_commands-IsBalanced :
    (u : String) (cs : List Command) (st : BountyManagerService × Tally)
    → IsBalanced u st
    → IsBalanced u (run_commands u cs st)
unfolding run_commands
run_commands-IsBalanced u [] st h = h
run_commands-IsBalanced u (c ∷ cs) st h =
    run_commands-IsBalanced u cs (run_command u c st) (run_command-IsBalanced u c st h)
