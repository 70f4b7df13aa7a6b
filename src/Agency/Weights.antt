-- ===== src/Agency/Weights.antt =====
-- backend/agency_runtime/orchestrator.py: the work that the stations have left.
use ai_native_content_agency.Prelude.{
  ℕ, String, true, Option, none, some, ◌≡◌, refl, sym, ap, ◌∙◌, ◌+◌, ◌≤◌, List, [], ◌∷◌, inl, inr,
  arith,
}
use mathlib.Core.Option
use ai_native_content_agency.Prelude.Tests.{Bool-cases, Option-cases, if◌then◌else◌, eqb}
use ai_native_content_agency.Prelude.Tables.{find_where, update_where, find-update, find_some-test}
use ai_native_content_agency.Agency.Model.{
  Role, eqb_role, role_index, AgentStatus, standby, processing, AgentState, Artifact, Run,
  state_for, is_role, update, add_artifact,
}
use ai_native_content_agency.Agency.Stations.{set_state}

abbrev pub weight : AgentStatus → ℕ
weight standby = 2
weight processing = 1
weight _ = 0

abbrev pub weight_of : Option AgentState → ℕ
weight_of none = 0
weight_of (some state) = weight state.status

-- The rounds that a station needs still.
abbrev pub weight_at : Role → Run → ℕ
weight_at role run = weight_of (state_for role run)

-- The rounds that the stations need still.
abbrev pub work_left : List Role → Run → ℕ
work_left [] run = 0
work_left (role ∷ roles) run = weight_at role run + work_left roles run

pub work_left_mono :
    (run after : Run)
    → ((role : Role) → weight_at role after ≤ weight_at role run)
    → (roles : List Role) → work_left roles after ≤ work_left roles run
work_left_mono run after h [] = omega arith
work_left_mono run after h (role ∷ roles) = omega (arith, h role, work_left_mono run after h roles)

eqb_eq : (a b c : ℕ) → eqb a b ≡ true → eqb a c ≡ true → b ≡ c
eqb_eq a b c h k = ground arith

-- The first state of a role, after the states of a role are changed.
module _ (role : Role) (f : AgentState → AgentState)
    (keeps : (state : AgentState) → (f state).role ≡ state.role) where
  find-change :
      (states : List AgentState) (r : Role)
      → find_where (is_role r) (update_where (is_role role) f states)
        ≡ Option.map
            (λ (s : AgentState). if is_role role s then f s else s)
            (find_where (is_role r) states)
  find-change states r =
      find-update (is_role r) (is_role role) f states
        (λ s _. ap (λ (q : Role). eqb_role q r) (keeps s))

  change-weight :
      (run : Run) (r : Role)
      → ((state : AgentState)
          → state_for role run ≡ some state
          → weight (f state).status ≤ weight state.status)
      → weight_of (find_where (is_role r) (update_where (is_role role) f run.agent_states))
        ≤ weight_at r run
  change-weight run r lighter = elim (Option-cases (state_for r run)) [
    | inl missing ↦ rw (find-change run.agent_states r, missing) (omega arith)
    | inr (state, found) ↦ elim (Bool-cases (is_role role state)) [
      | inr other ↦ rw (find-change run.agent_states r, found, other) (omega arith)
      | inl same ↦
          let same_role : role_index r ≡ role_index role =
            eqb_eq (role_index state.role) (role_index r) (role_index role)
              (find_some-test (is_role r) run.agent_states found) same in
          let found_here : state_for role run ≡ some state =
            ap
              (λ (n : ℕ).
                find_where (λ (s : AgentState). eqb (role_index s.role) n) run.agent_states)
              (sym same_role)
            ∙ found in
          rw (find-change run.agent_states r, found, same) (lighter state found_here)
    ]
  ]

pub set_state-weight :
    (role : Role) (status : AgentStatus) (progress : ℕ) (detail : String) (run : Run) (r : Role)
    → ((state : AgentState) → state_for role run ≡ some state → weight status ≤ weight state.status)
    → weight_at r (set_state role status progress detail run) ≤ weight_at r run
unfolding set_state update
set_state-weight role status progress detail run r lighter =
    change-weight role (update status progress detail) (λ _. refl) run r lighter

pub set_state-weight_same :
    (role : Role) (status : AgentStatus) (progress : ℕ) (detail : String) (run : Run)
    (state : AgentState)
    → state_for role run ≡ some state
    → weight_at role (set_state role status progress detail run) ≡ weight status
unfolding set_state update
set_state-weight_same role status progress detail run state found =
    rw
      (
        find-update (is_role role) (is_role role) (update status progress detail) run.agent_states
            (λ _ _. refl),
        found,
        find_some-test (is_role role) run.agent_states found,
      )
      refl

pub add_artifact-weight :
    (artifact : Artifact) (run : Run) (r : Role)
    → weight_at r (add_artifact artifact run) ≤ weight_at r run
unfolding add_artifact
add_artifact-weight artifact run r =
    change-weight artifact.created_by _ (λ _. refl) run r (λ _ _. omega arith)
