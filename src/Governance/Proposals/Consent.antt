-- ===== src/Governance/Proposals/Consent.antt =====
-- No goal is spawned that the user was not shown: each spawned goal repeats, word for word, a
-- proposal card that was generated before it.
use sera_core.Prelude.{
  ℕ, String, ◌≡◌, refl, some, List, [], ◌∷◌, arith, subst, Option-cases, Bool-cases, inl, inr, ◌⊎◌,
  ◌==◌,
}
use sera_core.Dict
use sera_core.Dict.{Dict}
use sera_core.Governance.Proposals.{
  Parameters, Proposal, ProposeGoalPayload, Event, proposal_generated, goal_spawned,
  proposal_expired, ProposalManager, emit, create_proposal, drop_pending, id_of, resolve,
  approve_proposal, reject_proposal, expire_proposal, rejection, expiration, fire, start,
}
use sera_core.Governance.Proposals.History.{
  Command, create, approve, reject, expire, elapse, run_command, run_commands, resolve-pending,
  pending-clear_timer, events-clear_timer,
}

-- a card with this intent and these parameters is among the events
abbrev pub Shown : String → Parameters → List Event → Type 0
Shown i ps [] = ⊥
Shown i ps (proposal_generated id j qs ∷ es) = ((j ≡ i) × (qs ≡ ps)) ⊎ Shown i ps es
Shown i ps (_ ∷ es) = Shown i ps es

-- every goal of the log was shown before it was spawned
abbrev pub AllShown : List Event → Type 0
AllShown [] = Unit
AllShown (goal_spawned r i ps u ∷ es) = Shown i ps es × AllShown es
AllShown (_ ∷ es) = AllShown es

-- every pending proposal has been shown
abbrev pub PendingShown : List Event → Dict Proposal → Type 0
PendingShown es [] = Unit
PendingShown es ((k, p) ∷ d) = Shown p.intent p.parameters es × PendingShown es d

pub record IsTraced (m : ProposalManager) : Type 0 where
  pub spawned : AllShown m.events
  pub waiting : PendingShown m.events m.pending

Shown-later :
    (i : String) (ps : Parameters) (e : Event) (es : List Event)
    → Shown i ps es
    → Shown i ps (e ∷ es)
Shown-later i ps (proposal_generated id j qs) es h = inr h
Shown-later i ps _ es h = h

PendingShown-later :
    (e : Event) (es : List Event) (d : Dict Proposal) → PendingShown es d → PendingShown (e ∷ es) d
PendingShown-later e es [] h = tt
PendingShown-later e es ((k, p) ∷ d) h =
    (Shown-later p.intent p.parameters e es h.0, PendingShown-later e es d h.1)

PendingShown-set :
    (es : List Event) (d : Dict Proposal) (k : String) (p : Proposal)
    → Shown p.intent p.parameters es
    → PendingShown es d
    → PendingShown es (Dict.set d k p)
unfolding Dict.set
PendingShown-set es [] k p s h = (s, tt)
PendingShown-set es ((i, q) ∷ d) k p s h = elim (Bool-cases (i == k)) [
  | inl e ↦ rw e (s, h.1)
  | inr e ↦ rw e (h.0, PendingShown-set es d k p s h.1)
]

PendingShown-delete :
    (es : List Event) (d : Dict Proposal) (k : String)
    → PendingShown es d
    → PendingShown es (Dict.delete d k)
unfolding Dict.delete
PendingShown-delete es [] k h = tt
PendingShown-delete es ((i, q) ∷ d) k h = elim (Bool-cases (i == k)) [
  | inl e ↦ rw e (PendingShown-delete es d k h.1)
  | inr e ↦ rw e (h.0, PendingShown-delete es d k h.1)
]

PendingShown-get :
    (es : List Event) (d : Dict Proposal) (k : String) (p : Proposal)
    → PendingShown es d
    → Dict.get d k ≡ some p
    → Shown p.intent p.parameters es
unfolding Dict.get
PendingShown-get es [] k p h g = cc
PendingShown-get es ((i, q) ∷ d) k p h g = elim (Bool-cases (i == k)) [
  | inl e ↦ let here : q ≡ p = ground arith in subst (λ r. Shown r.intent r.parameters es) here h.0
  | inr e ↦ PendingShown-get es d k p h.1 (rw e at g)
]

-- the event log of `m` with one more event, and the pending list less one proposal
close-IsTraced :
    (k : String) (e : Event) (m m' : ProposalManager)
    → m'.pending ≡ Dict.delete m.pending k
    → m'.events ≡ e ∷ m.events
    → AllShown (e ∷ m.events)
    → IsTraced m
    → IsTraced m'
close-IsTraced k e m m' d l a t = record {
  spawned = rw l a;
  waiting =
      rw (d, l)
        (PendingShown-later e m.events (Dict.delete m.pending k)
          (PendingShown-delete m.events m.pending k t.waiting));
}

create-IsTraced :
    (now : ℕ) (fresh : String) (p : ProposeGoalPayload) (m : ProposalManager)
    → IsTraced m
    → IsTraced (create_proposal now fresh p m).1
unfolding create_proposal emit
create-IsTraced now fresh p m t =
    let e = proposal_generated (id_of fresh p) p.proposal.intent p.proposal.parameters in
    record {
      spawned = t.spawned;
      waiting =
          PendingShown-set (e ∷ m.events) m.pending (id_of fresh p) p.proposal (inl (refl, refl))
            (PendingShown-later e m.events m.pending t.waiting);
    }

approve-IsTraced :
    (request_id id : String) (m : ProposalManager)
    → IsTraced m
    → IsTraced (approve_proposal request_id id m).1
unfolding approve_proposal emit drop_pending
approve-IsTraced request_id id m t = elim (Option-cases (resolve id m)) [
  | inl e ↦ rw (e, approve_proposal) t
  | inr ((k, p), e) ↦
      rw (e, approve_proposal)
        (close-IsTraced k (goal_spawned request_id p.intent p.parameters p.user_message) m _
          (rw pending-clear_timer refl) (rw events-clear_timer refl)
          (
            PendingShown-get m.events m.pending k p t.waiting (resolve-pending id m k p e),
            t.spawned,
          )
          t)
]

reject-IsTraced :
    (id : String) (m : ProposalManager) → IsTraced m → IsTraced (reject_proposal id m).1
unfolding reject_proposal emit drop_pending
reject-IsTraced id m t = elim (Option-cases (resolve id m)) [
  | inl e ↦ rw (e, reject_proposal) t
  | inr ((k, p), e) ↦
      rw (e, reject_proposal)
        (close-IsTraced k (rejection p) m _ (rw pending-clear_timer refl)
          (rw events-clear_timer refl) t.spawned t)
]

expire-IsTraced :
    (id : String) (m : ProposalManager) → IsTraced m → IsTraced (expire_proposal id m).1
unfolding expire_proposal emit drop_pending
expire-IsTraced id m t = elim (Option-cases (Dict.get m.pending id)) [
  | inl e ↦ rw (e, expire_proposal) t
  | inr (p, e) ↦
      rw (e, expire_proposal, events-clear_timer, pending-clear_timer)
        (record {
          spawned = t.spawned;
          waiting =
              PendingShown-later (expiration p)
                (proposal_expired id p.intent p.parameters ∷ m.events) (Dict.delete m.pending id)
                (PendingShown-later (proposal_expired id p.intent p.parameters) m.events
                  (Dict.delete m.pending id) (PendingShown-delete m.events m.pending id t.waiting));
        })
]

run_command-IsTraced : (c : Command) (m : ProposalManager) → IsTraced m → IsTraced (run_command c m)
unfolding run_command fire
run_command-IsTraced (create now fresh p) m t = create-IsTraced now fresh p m t
run_command-IsTraced (approve request_id id) m t = approve-IsTraced request_id id m t
run_command-IsTraced (reject id) m t = reject-IsTraced id m t
run_command-IsTraced (expire id) m t = expire-IsTraced id m t
run_command-IsTraced (elapse u) m t =
    expire-IsTraced u.proposal_id _ (record { spawned = t.spawned; waiting = t.waiting })

run_commands-IsTraced :
    (cs : List Command) (m : ProposalManager) → IsTraced m → IsTraced (run_commands cs m)
unfolding run_commands
run_commands-IsTraced [] m t = t
run_commands-IsTraced (c ∷ cs) m t =
    run_commands-IsTraced cs (run_command c m) (run_command-IsTraced c m t)

-- In the event log of any history of calls, each goal that is spawned has the intent and the
-- parameters of a proposal card that was generated before it.
pub spawned-AllShown : (cs : List Command) → AllShown (run_commands cs start).events
spawned-AllShown cs =
    (run_commands-IsTraced cs start (record { spawned = tt; waiting = tt })).spawned
