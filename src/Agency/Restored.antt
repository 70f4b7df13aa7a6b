-- ===== src/Agency/Restored.antt =====
-- backend/agency_runtime/serialization.py: a run, written and read back.
use ai_native_content_agency.Prelude.{Option, none, some, ◌≡◌, refl, List, [], ◌∷◌}
use ai_native_content_agency.Prelude.Results.{Result, ok, ◌>>=◌}
use ai_native_content_agency.Prelude.Text.{leb_str, leb_codes}
use ai_native_content_agency.Json.{
  Value, Items, Fields, null, boolean, number, text, enum, list, dict, cons, end, field, get,
  to_primitive, primitive_items, primitive_fields, insert_sorted,
}
use ai_native_content_agency.Agency.Model.{
  AgentState, Greenlight, Execution, Error, Run, check_brief, check_greenlight, check_execution,
}
use ai_native_content_agency.Agency.Values.{role_value, artifact_to_value}
use ai_native_content_agency.Agency.Writing.{
  state_fields, states_fields, evidence_to_value, event_to_value, greenlight_to_value,
  execution_to_value, each_value, optional_greenlight_value, run_fields,
}
use ai_native_content_agency.Agency.Reading.{
  Casts, need, as_mapping, items_at, text_at, optional_text,
}
use ai_native_content_agency.Agency.Document.{
  each, states_from, artifact_from, evidence_from, event_from, optional_greenlight,
  execution_or_new, execution_run_from_document,
}
use ai_native_content_agency.Prelude.Tests.{Bool-cases, if◌then◌else◌}
use ai_native_content_agency.Prelude.{map, inl, inr}
use ai_native_content_agency.Agency.Writing.{execution_run_to_document}
use ai_native_content_agency.Agency.Roundtrip.{
  primitive_artifact, primitive_evidence, greenlight_lem, execution_lem, brief_lem, artifact_lem,
  evidence_lem, event_lem, state_lem, run_status_lem, optional_lem,
}

each_cons :
    {A : Type 0} (read : Fields → Result Error A) (v : Value) (vs : Items) (a : A) (rest : List A)
    → (as_mapping v >>= read) ≡ ok a
    → each read vs ≡ ok rest
    → each read (cons v vs) ≡ ok (a ∷ rest)
unfolding each as_mapping
each_cons read (dict fs) vs a rest h k = rw (h, k) refl
each_cons read null vs a rest h k = cc
each_cons read (boolean _) vs a rest h k = cc
each_cons read (number _) vs a rest h k = cc
each_cons read (text _) vs a rest h k = cc
each_cons read (enum _) vs a rest h k = cc
each_cons read (list _) vs a rest h k = cc

each_lem :
    {A : Type 0} (write : A → Value) (read : Fields → Result Error A) (canonical : A → A)
    → ((a : A) → (as_mapping (to_primitive (write a)) >>= read) ≡ ok (canonical a))
    → (items : List A)
    → each read (primitive_items (each_value write items)) ≡ ok (map canonical items)
unfolding each primitive_items each_value
each_lem write read canonical reads [] = refl
each_lem write read canonical reads (a ∷ rest) =
    each_cons read (to_primitive (write a)) (primitive_items (each_value write rest)) (canonical a)
      (map canonical rest) (reads a) (each_lem write read canonical reads rest)

map_same : {A : Type 0} (items : List A) → map (λ a. a) items ≡ items
map_same [] = refl
map_same (a ∷ rest) = rw (map_same rest) refl

insert_state : AgentState → List AgentState → List AgentState
insert_state state [] = state ∷ []
insert_state state (next ∷ rest) =
    if leb_str (role_value state.role) (role_value next.role)
    then state ∷ next ∷ rest
    else next ∷ insert_state state rest

-- The states in the order of the values of their roles, as the keys of the document are.
pub sort_states : List AgentState → List AgentState
sort_states [] = []
sort_states (state ∷ rest) = insert_state state (sort_states rest)

primitive_states : List AgentState → Fields
primitive_states [] = end
primitive_states (state ∷ rest) =
    field (role_value state.role) (dict (primitive_fields (state_fields state)))
      (primitive_states rest)

insert_sorted-states :
    (state : AgentState) (states : List AgentState)
    → insert_sorted
        (role_value state.role)
        (dict (primitive_fields (state_fields state)))
        (primitive_states states)
      ≡ primitive_states (insert_state state states)
unfolding insert_sorted primitive_states insert_state
insert_sorted-states state [] = refl
insert_sorted-states state (next ∷ rest) =
    elim (Bool-cases (leb_str (role_value state.role) (role_value next.role))) [
      | inl before ↦ rw before refl
      | inr after ↦ rw (after, insert_sorted-states state rest) refl
    ]

states_primitive :
    (states : List AgentState)
    → primitive_fields (states_fields states) ≡ primitive_states (sort_states states)
unfolding primitive_fields states_fields primitive_states to_primitive sort_states
states_primitive [] = refl
states_primitive (state ∷ rest) =
    rw (states_primitive rest) (insert_sorted-states state (sort_states rest))

-- The greenlight, if there is one, passes its check.
abbrev pub IsChecked : Option Greenlight → Type 0
IsChecked none = Unit
IsChecked (some g) = check_greenlight g ≡ ok tt

pub record IsWritable (run : Run) : Type 0 where
  pub brief_checked : check_brief run.brief ≡ ok tt
  pub greenlight_checked : IsChecked run.greenlight
  pub execution_checked : check_execution run.execution ≡ ok tt

module _ (casts : Casts) where
  primitive_states_lem :
      (states : List AgentState) → states_from casts (primitive_states states) ≡ ok states
  unfolding states_from primitive_states
  primitive_states_lem [] = refl
  primitive_states_lem (state ∷ rest) = rw (state_lem casts state, primitive_states_lem rest) refl

  optional_greenlight_lem :
      (o : Option Greenlight)
      → IsChecked o
      → optional_greenlight casts (some (to_primitive (optional_greenlight_value o))) ≡ ok o
  unfolding optional_greenlight greenlight_to_value to_primitive as_mapping
  optional_greenlight_lem none h = refl
  optional_greenlight_lem (some g) h = rw (greenlight_lem casts g h) refl

  execution_or_new_lem :
      (e : Execution)
      → check_execution e ≡ ok tt
      → execution_or_new casts (some (to_primitive (execution_to_value e))) ≡ ok e
  unfolding execution_or_new execution_to_value to_primitive as_mapping
  execution_or_new_lem e h = execution_lem casts e h

  -- A run whose brief, greenlight and execution pass the checks of their classes is read back from
  -- the document that is written of it, but that its states are in the order of the values of
  -- their roles and the payloads of its artifacts and evidence are in canonical form.
  pub from_document-to_document :
      (run : Run)
      → IsWritable run
      → execution_run_from_document casts (execution_run_to_document run)
        ≡ ok (record run {
          agent_states = sort_states run.agent_states;
          artifacts = map primitive_artifact run.artifacts;
          evidence = map primitive_evidence run.evidence;
        })
  unfolding execution_run_to_document execution_run_from_document run_fields to_primitive
      primitive_fields insert_sorted leb_str leb_codes need get items_at text_at optional_text
      as_mapping
  from_document-to_document run h =
      rw
        (
          brief_lem casts run.brief h.brief_checked,
          states_primitive run.agent_states,
          primitive_states_lem (sort_states run.agent_states),
          each_lem artifact_to_value (artifact_from casts) primitive_artifact (artifact_lem casts)
              run.artifacts,
          each_lem evidence_to_value (evidence_from casts) primitive_evidence (evidence_lem casts)
              run.evidence,
          each_lem event_to_value (event_from casts) (λ e. e) (event_lem casts) run.trace,
          map_same run.trace,
          optional_greenlight_lem run.greenlight h.greenlight_checked,
          execution_or_new_lem run.execution h.execution_checked,
          run_status_lem run.status,
          optional_lem casts run.completed_at,
        )
        refl
