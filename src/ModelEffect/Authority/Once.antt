-- ===== src/ModelEffect/Authority/Once.antt =====
-- `execute` of backend/agency_runtime/model_effect.py as a history of the store's methods, with the
-- number of times that a provider is asked.
use ai_native_content_agency.Prelude.{
  ℕ, String, ◌+◌, ◌≤◌, ◌≡◌, refl, Bool, true, false, ◌&&◌, Option, none, some, List, [], ◌∷◌, ◌++◌,
  arith, ◌==◌, inl, inr, ap, sym, ◌∙◌,
}
use ai_native_content_agency.Prelude.Tests.{if◌then◌else◌, Bool-cases}
use ai_native_content_agency.Prelude.Tables.{count_where}
use ai_native_content_agency.Prelude.Results.{Result, ok, err}
use ai_native_content_agency.Json.{Platform}
use ai_native_content_agency.ModelEffect.Intent.{Error, Intent}
use ai_native_content_agency.ModelEffect.Store.{Table, Reservation, has_binding, reserve, complete}
use ai_native_content_agency.ModelEffect.Store.Recovery.{
  Operation, reserving, completing, losing, perform, history, history-append,
}
use ai_native_content_agency.ModelEffect.Store.Invariants.{HasUniqueKeys}
use ai_native_content_agency.ModelEffect.Store.Reservations.{
  is_granted, grants, grants-le-one, grants-append,
}
use ai_native_content_agency.ModelEffect.Authority.{
  Outcome, returned, caught, uncaught, Gateway, Command, Descriptor, Answer, Failure, Run,
  validate_command, build_intent, is_receipt_valid, receipt_fields, after_answer, after_reserve,
  after_describe, after_validation, execute, EffectResult, disabled, unavailable, gateway_error,
}

-- The methods of the store that `execute` calls after the provider's answer.
answer_steps : Platform → String → Intent → Descriptor → Outcome Answer → Table → List Operation
answer_steps lib now intent descriptor uncaught table = []
answer_steps lib now intent descriptor caught table =
    losing now intent.tenant_id intent.effect_id intent.execution_fencing_token
      "provider_outcome_unknown"
    ∷ []
answer_steps lib now intent descriptor (returned answer) table =
    let store =
      completing now intent.tenant_id intent.effect_id intent.execution_fencing_token answer.output
        (receipt_fields intent answer.receipt) in
    let lost = λ (reason : String).
      losing now intent.tenant_id intent.effect_id intent.execution_fencing_token reason in
    if is_receipt_valid lib descriptor answer
    then elim (complete lib now intent.tenant_id intent.effect_id intent.execution_fencing_token
        answer.output (receipt_fields intent answer.receipt) table).0 [
          | ok _ ↦ store ∷ []
          | err _ ↦ store ∷ lost "result_persistence_uncertain" ∷ []
        ]
    else lost "provider_receipt_invalid" ∷ []

answer_steps_lem :
    (lib : Platform) (now : String) (intent : Intent) (descriptor : Descriptor)
    (answer : Outcome Answer) (t : Table)
    → (after_answer lib now intent descriptor answer t).table
      ≡ history lib (answer_steps lib now intent descriptor answer t) t
unfolding after_answer answer_steps history perform
answer_steps_lem lib now intent descriptor uncaught t = refl
answer_steps_lem lib now intent descriptor caught t = refl
answer_steps_lem lib now intent descriptor (returned answer) t = ground arith

-- The intent that a command becomes, if it is valid and the gateway describes its request.
described : Platform → String → Command → Outcome Descriptor → Option Intent
described lib now command uncaught = none
described lib now command caught = none
described lib now command (returned descriptor) = some (build_intent lib now command descriptor)

requested : Platform → Gateway → String → Result Failure Command → Option Intent
requested lib gateway now (err _) = none
requested lib gateway now (ok command) =
    described lib now command (gateway.describe command.request)

one_grant :
    (asked wanted granted : Bool) (n : ℕ)
    → granted ≡ true
    → (if asked && wanted then 1 else 0) ≤ (if granted && wanted then 1 else 0) + n
one_grant asked wanted granted n h = ground arith

module _ (lib : Platform) (gateway : Gateway) (tenant_id digest : String) where
  concerns : Option Intent → Bool
  concerns none = false
  concerns (some intent) = intent.tenant_id == tenant_id && intent.binding_digest == digest

  -- A run is a history, in which a reservation is granted if the provider is asked.
  IsCovered : Option Intent → Table → Run → Type 0
  IsCovered wanted t run =
      (ops : List Operation) × (run.table ≡ history lib ops t)
      × ((if run.asked && concerns wanted then 1 else 0) ≤ grants lib tenant_id digest ops t)

  after_reserve-IsCovered :
      (later : String) (meanwhile : List Operation) (command : Command) (descriptor : Descriptor)
      (intent : Intent) (t : Table) (r : Result Error Reservation × Table)
      → reserve lib intent t ≡ r
      → IsCovered
          (some intent)
          t
          (after_reserve lib gateway later meanwhile command descriptor intent r)
  unfolding IsCovered after_reserve history perform concerns grants
  after_reserve-IsCovered later meanwhile command descriptor intent t (err e, t1) same =
      (reserving intent ∷ [], ground arith, ground arith)
  after_reserve-IsCovered later meanwhile command descriptor intent t (ok reservation, t1) same =
      elim (Bool-cases reservation.executable) [
        | inl granted ↦ (
          reserving intent ∷ meanwhile
              ++ answer_steps lib later intent descriptor (gateway.complete command.request)
                  (history lib meanwhile t1),
          rw granted (
              answer_steps_lem lib later intent descriptor (gateway.complete command.request)
                (history lib meanwhile t1)
              ∙ sym (
                  history-append lib meanwhile
                    (answer_steps lib later intent descriptor (gateway.complete command.request)
                      (history lib meanwhile t1))
                    t1)
              ∙ ap
                  (λ (p : Result Error Reservation × Table).
                    history lib
                      (meanwhile
                        ++ answer_steps lib later intent descriptor
                            (gateway.complete command.request) (history lib meanwhile t1))
                      p.1)
                  (sym same)),
          one_grant
              (after_reserve lib gateway later meanwhile command descriptor intent
                (ok reservation, t1)).asked
              (intent.tenant_id == tenant_id && intent.binding_digest == digest)
              (is_granted (reserve lib intent t).0)
              (grants lib tenant_id digest
                (meanwhile
                  ++ answer_steps lib later intent descriptor (gateway.complete command.request)
                      (history lib meanwhile t1))
                (reserve lib intent t).1)
              (rw same granted),
        )
        | inr refused ↦ (reserving intent ∷ [], ground arith, ground arith)
      ]

  nothing_asked :
      (wanted : Option Intent) (t : Table) (result : Result Failure EffectResult)
      → IsCovered wanted t (record { result = result; table = t; asked = false })
  unfolding IsCovered history grants
  nothing_asked wanted t result = ([], refl, omega arith)

  after_describe-IsCovered :
      (now later : String) (meanwhile : List Operation) (command : Command)
      (descriptor : Outcome Descriptor) (t : Table)
      → IsCovered
          (described lib now command descriptor)
          t
          (after_describe lib gateway now later meanwhile command descriptor t)
  unfolding after_describe described
  after_describe-IsCovered now later meanwhile command uncaught t =
      nothing_asked none t (err gateway_error)
  after_describe-IsCovered now later meanwhile command caught t =
      nothing_asked none t (err unavailable)
  after_describe-IsCovered now later meanwhile command (returned descriptor) t =
      after_reserve-IsCovered later meanwhile command descriptor
        (build_intent lib now command descriptor) t
        (reserve lib (build_intent lib now command descriptor) t) refl

  after_validation-IsCovered :
      (now later : String) (meanwhile : List Operation) (valid : Result Failure Command) (t : Table)
      → IsCovered
          (requested lib gateway now valid)
          t
          (after_validation lib gateway now later meanwhile valid t)
  unfolding after_validation requested
  after_validation-IsCovered now later meanwhile (err e) t = nothing_asked none t (err e)
  after_validation-IsCovered now later meanwhile (ok command) t =
      after_describe-IsCovered now later meanwhile command (gateway.describe command.request) t

  execute-IsCovered :
      (enabled : Bool) (now later : String) (meanwhile : List Operation) (command : Command)
      (t : Table)
      → IsCovered
          (requested lib gateway now (validate_command command))
          t
          (execute lib gateway enabled now later meanwhile command t)
  unfolding execute
  execute-IsCovered true now later meanwhile command t =
      after_validation-IsCovered now later meanwhile (validate_command command) t
  execute-IsCovered false now later meanwhile command t =
      nothing_asked (requested lib gateway now (validate_command command)) t (err disabled)

-- One call of `execute`, with the clock's readings and what other threads do meanwhile.
pub record Call : Type 0 where
  pub enabled : Bool
  pub now : String
  pub later : String
  pub meanwhile : List Operation
  pub command : Command

module _ (lib : Platform) (gateway : Gateway) where
  run_call : Call → Table → Run
  run_call call t =
      execute lib gateway call.enabled call.now call.later call.meanwhile call.command t

  module _ (tenant_id digest : String) where
    -- How often the calls ask the provider for a binding.
    pub asks : List Call → Table → ℕ
    unfolding run_call
    asks [] t = 0
    asks (call ∷ calls) t =
        (if (run_call call t).asked
            && concerns lib gateway tenant_id digest
                (requested lib gateway call.now (validate_command call.command))
          then 1
          else 0)
        + asks calls (run_call call t).table

    asks-le :
        (calls : List Call) (t : Table)
        → (ops : List Operation) × (asks calls t ≤ grants lib tenant_id digest ops t)
    unfolding asks run_call IsCovered grants
    asks-le [] t = ([], omega arith)
    asks-le (call ∷ calls) t =
        let (ops, same, one) =
          execute-IsCovered lib gateway tenant_id digest call.enabled call.now call.later
            call.meanwhile call.command t in
        let (rest, more) = asks-le calls (run_call call t).table in
        (ops ++ rest, rw grants-append (rw (← same) (omega (arith, one, more))))

    -- From a table with unique keys, whatever calls of `execute` are made, whatever the provider
    -- answers and whatever store methods other threads call meanwhile, the times that a provider is
    -- asked for a tenant's binding, with the rows that the table had for it, are at most one.
    pub asks-le-one :
        (calls : List Call) (t : Table)
        → HasUniqueKeys t
        → asks calls t + count_where (has_binding tenant_id digest) t ≤ 1
    asks-le-one calls t unique =
        let (ops, bound) = asks-le calls t in
        omega (arith, bound, grants-le-one lib tenant_id digest ops t unique)
