-- ===== src/ModelEffect/Authority/Settled.antt =====
-- `execute` of backend/agency_runtime/model_effect.py: the intent that it leaves once it has asked the
-- provider.
use ai_native_content_agency.Prelude.{
  String, ◌≡◌, ◌≢◌, refl, Bool, true, false, some, List, arith, eq_refl, inl, inr, ap, sym, ◌∙◌,
}
use ai_native_content_agency.Prelude.Tests.{Bool-cases}
use ai_native_content_agency.Prelude.Int.{pos, eqb_ℤ_refl}
use ai_native_content_agency.Prelude.Tables.{find_where, count_mono, find-append_new}
use ai_native_content_agency.Prelude.Results.{Result, ok, err}
use ai_native_content_agency.Json.{Platform, Fields}
use ai_native_content_agency.ModelEffect.Intent.{
  Error, Intent, Row, unknown, is_pending, validate_identity, validate_reason, validate_intent,
  intent_values, pending,
}
use ai_native_content_agency.ModelEffect.Store.{
  Table, Reservation, has_id, primary, reserve, complete, mark_unknown, failure, completion,
  check_transition, is_pending_for, assign,
}
use ai_native_content_agency.ModelEffect.Store.Recovery.{
  Operation, reserving, losing, completing, perform, history,
}
use ai_native_content_agency.ModelEffect.Store.Evolution.{Evolves, perform-Evolves}
use ai_native_content_agency.ModelEffect.Store.Invariants.{
  HasUniqueKeys, Evolves-HasUniqueKeys, history-HasUniqueKeys, IsLater, IsLater-trans,
  Evolves-IsLater, history-IsLater,
}
use ai_native_content_agency.ModelEffect.Store.Reservations.{
  is_granted, reserve_granted, granted-IsFresh,
}
use ai_native_content_agency.ModelEffect.Store.Settlement.{transition_found, complete-ok}
use ai_native_content_agency.ModelEffect.Authority.{
  Outcome, returned, caught, uncaught, Gateway, Command, Descriptor, Answer, Failure,
  validate_command, build_intent, is_receipt_valid, receipt_fields, lose, settle_answer,
  after_answer, after_reserve, after_describe, after_validation, execute, outcome_unknown,
  receipt_invalid, persistence_uncertain,
}

-- The three reasons that `execute` gives are valid.
abbrev IsReason : String → Type 0
IsReason reason = validate_reason reason ≡ ok tt

outcome-IsReason : IsReason "provider_outcome_unknown"
unfolding validate_reason
outcome-IsReason = refl

receipt-IsReason : IsReason "provider_receipt_invalid"
unfolding validate_reason
receipt-IsReason = refl

persistence-IsReason : IsReason "result_persistence_uncertain"
unfolding validate_reason
persistence-IsReason = refl

pub validate_intent-identity :
    (lib : Platform) (intent : Intent)
    → validate_intent lib intent true ≡ ok tt
    → (validate_identity intent.tenant_id intent.effect_id ≡ ok tt) × (intent.status ≡ pending)
unfolding validate_intent validate_identity
validate_intent-identity lib intent h = (ground arith, ground arith)

-- The row with the id is there, and is not pending.
abbrev pub IsSettled : String → String → Table → Type 0
IsSettled tenant_id effect_id t =
    (row : Row) × (find_where (has_id tenant_id effect_id) t ≡ some row)
    × (is_pending row.status ≡ false)

IsSettled-Evolves :
    (tn effect_id : String) {tenant_id : String} {t t' : Table}
    → Evolves tenant_id t t'
    → IsSettled tn effect_id t
    → IsSettled tn effect_id t'
IsSettled-Evolves tn effect_id e (row, found, settled) =
    let (new, found', how) = Evolves-IsLater tn effect_id row e found in
    (new, found', elim how [ inl same ↦ rw same settled | inr settled' ↦ settled' ])

module _ (lib : Platform) (now : String) (intent : Intent)
    (identity : validate_identity intent.tenant_id intent.effect_id ≡ ok tt)
    (first_fence : intent.execution_fencing_token ≡ pos 1) (row : Row)
    (live : is_pending_for intent.tenant_id intent.effect_id intent.execution_fencing_token row
      ≡ true) where
  abbrev Later : Table → Type 0
  Later t = IsLater intent.tenant_id intent.effect_id row t

  check_failure :
      (reason : String)
      → IsReason reason
      → check_transition lib intent.tenant_id intent.effect_id intent.execution_fencing_token
          (failure unknown reason)
        ≡ ok tt
  unfolding check_transition
  check_failure reason good = ground (arith, identity, good)

  lose-IsSettled :
      (reason : String) (why : Failure) (t : Table)
      → IsReason reason
      → HasUniqueKeys t
      → Later t
      → IsSettled intent.tenant_id intent.effect_id (lose lib now intent reason why t).table
  unfolding lose mark_unknown perform assign
  lose-IsSettled reason why t good unique (new, found, inl same) = (
    assign lib now (failure unknown reason) new,
    transition_found lib intent.tenant_id intent.effect_id intent.execution_fencing_token new t
        unique found now (failure unknown reason) (check_failure reason good) (rw same live),
    refl,
  )
  lose-IsSettled reason why t good unique (new, found, inr settled) =
      IsSettled-Evolves intent.tenant_id intent.effect_id
        (perform-Evolves lib
          (losing now intent.tenant_id intent.effect_id intent.execution_fencing_token reason) t)
        (new, found, settled)

  complete-IsSettled :
      (output : String) (receipt : Fields) (t : Table) {stored : Intent}
      → HasUniqueKeys t
      → Later t
      → (complete lib now intent.tenant_id intent.effect_id intent.execution_fencing_token output
          receipt t).0
        ≡ ok stored
      → IsSettled intent.tenant_id intent.effect_id
          (complete lib now intent.tenant_id intent.effect_id intent.execution_fencing_token output
            receipt t).1
  unfolding perform assign
  complete-IsSettled output receipt t unique (new, found, inl same) stored =
      let (valid, run) =
        complete-ok lib now intent.tenant_id intent.effect_id intent.execution_fencing_token output
          receipt t stored in
      (
        assign lib now (completion lib output receipt) new,
        rw run (
            transition_found lib intent.tenant_id intent.effect_id intent.execution_fencing_token
              new t unique found now (completion lib output receipt) valid (rw same live)),
        refl,
      )
  complete-IsSettled output receipt t unique (new, found, inr settled) stored =
      IsSettled-Evolves intent.tenant_id intent.effect_id
        (perform-Evolves lib
          (completing now intent.tenant_id intent.effect_id intent.execution_fencing_token output
            receipt)
          t)
        (new, found, settled)

  settle_answer-IsSettled :
      (output : String) (receipt : Fields) (t : Table) (r : Result Error Intent × Table)
      → complete lib now intent.tenant_id intent.effect_id intent.execution_fencing_token output
          receipt t
        ≡ r
      → HasUniqueKeys t
      → Later t
      → IsSettled intent.tenant_id intent.effect_id (settle_answer lib now intent r).table
  unfolding settle_answer perform
  settle_answer-IsSettled output receipt t (ok stored, t2) same unique later =
      rw (ap (λ (p : Result Error Intent × Table). p.1) same) at (
        complete-IsSettled output receipt t unique later
          (ap (λ (p : Result Error Intent × Table). p.0) same))
  settle_answer-IsSettled output receipt t (err e, t2) same unique later =
      lose-IsSettled "result_persistence_uncertain" persistence_uncertain t2 persistence-IsReason
        (Evolves-HasUniqueKeys step unique)
        (IsLater-trans intent.tenant_id intent.effect_id row step later)
    where
      step : Evolves intent.tenant_id t t2
      step = rw (ap (λ (p : Result Error Intent × Table). p.1) same) at (
          perform-Evolves lib
            (completing now intent.tenant_id intent.effect_id intent.execution_fencing_token output
              receipt)
            t)

  after_answer-IsSettled :
      (descriptor : Descriptor) (answer : Outcome Answer) (t : Table)
      → answer ≢ uncaught
      → HasUniqueKeys t
      → Later t
      → IsSettled intent.tenant_id intent.effect_id
          (after_answer lib now intent descriptor answer t).table
  unfolding after_answer
  after_answer-IsSettled descriptor uncaught t known unique later = absurd (known refl)
  after_answer-IsSettled descriptor caught t known unique later =
      lose-IsSettled "provider_outcome_unknown" outcome_unknown t outcome-IsReason unique later
  after_answer-IsSettled descriptor (returned answer) t known unique later =
      elim (Bool-cases (is_receipt_valid lib descriptor answer)) [
        | inl valid ↦ rw valid (
            settle_answer-IsSettled answer.output (receipt_fields intent answer.receipt) t
              (complete lib now intent.tenant_id intent.effect_id intent.execution_fencing_token
                answer.output (receipt_fields intent answer.receipt) t)
              refl unique later)
        | inr invalid ↦ rw invalid (
            lose-IsSettled "provider_receipt_invalid" receipt_invalid t receipt-IsReason unique
              later)
      ]

-- The row of a granted intent.
new_row-live :
    (lib : Platform) (intent : Intent)
    → intent.status ≡ pending
    → is_pending_for intent.tenant_id intent.effect_id intent.execution_fencing_token
        (intent_values lib intent)
      ≡ true
unfolding intent_values
new_row-live lib intent fresh = ground (
  arith,
  eq_refl intent.tenant_id,
  eq_refl intent.effect_id,
  eqb_ℤ_refl intent.execution_fencing_token,
)

pub granted-Later :
    (lib : Platform) (intent : Intent) (t : Table)
    → is_granted (reserve lib intent t).0 ≡ true
    → find_where (has_id intent.tenant_id intent.effect_id) (reserve lib intent t).1
      ≡ some (intent_values lib intent)
unfolding intent_values
granted-Later lib intent t granted = rw (reserve_granted lib intent t granted) (
    find-append_new (has_id intent.tenant_id intent.effect_id) t (intent_values lib intent)
      (omega (
        arith,
        (granted-IsFresh lib intent t granted).1,
        count_mono (has_id intent.tenant_id intent.effect_id) (primary intent.effect_id) t
            (λ (x : Row) (h : has_id intent.tenant_id intent.effect_id x ≡ true). ground arith),
      ))
      (ground (arith, eq_refl intent.tenant_id, eq_refl intent.effect_id)))

perform-reserve :
    (lib : Platform) (intent : Intent) (t : Table)
    → Evolves intent.tenant_id t (reserve lib intent t).1
unfolding perform
perform-reserve lib intent t = perform-Evolves lib (reserving intent) t

build_intent-fence :
    (lib : Platform) (now : String) (command : Command) (descriptor : Descriptor)
    → (build_intent lib now command descriptor).execution_fencing_token ≡ pos 1
unfolding build_intent
build_intent-fence lib now command descriptor = refl

after_reserve-IsSettled :
    (lib : Platform) (gateway : Gateway) (later : String) (meanwhile : List Operation)
    (command : Command) (descriptor : Descriptor) (intent : Intent) (t : Table)
    (r : Result Error Reservation × Table)
    → gateway.complete command.request ≢ uncaught
    → intent.execution_fencing_token ≡ pos 1
    → reserve lib intent t ≡ r
    → HasUniqueKeys t
    → (after_reserve lib gateway later meanwhile command descriptor intent r).asked ≡ true
    → IsSettled intent.tenant_id intent.effect_id
        (after_reserve lib gateway later meanwhile command descriptor intent r).table
unfolding after_reserve
after_reserve-IsSettled lib gateway later meanwhile command descriptor intent t (err e, t1) known
      first same unique asked =
    absurd (cc)
after_reserve-IsSettled lib gateway later meanwhile command descriptor intent t (ok reservation, t1)
      known first same unique asked =
    elim (Bool-cases reservation.executable) [
      | inl executable ↦
          (let granted : is_granted (reserve lib intent t).0 ≡ true = rw same executable in
            let valid =
              validate_intent-identity lib intent (granted-IsFresh lib intent t granted).0 in
            let found : find_where (has_id intent.tenant_id intent.effect_id) t1
                ≡ some (intent_values lib intent) =
              ap
                (λ (p : Result Error Reservation × Table).
                  find_where (has_id intent.tenant_id intent.effect_id) p.1)
                (sym same)
              ∙ granted-Later lib intent t granted in
            let unique' : HasUniqueKeys t1 =
              Evolves-HasUniqueKeys
                (perform-reserving lib intent t t1
                  (ap (λ (p : Result Error Reservation × Table). p.1) same))
                unique in
            rw executable (
              after_answer-IsSettled lib later intent valid.0 first (intent_values lib intent)
                (new_row-live lib intent valid.1) descriptor (gateway.complete command.request)
                (history lib meanwhile t1) known (history-HasUniqueKeys lib meanwhile t1 unique')
                (history-IsLater lib meanwhile t1 intent.tenant_id intent.effect_id
                  (intent_values lib intent) (intent_values lib intent, found, inl refl))))
      | inr refused ↦ absurd (cc (ap (λ (b : Bool). b) (rw refused at asked)))
    ]
  where
    perform-reserving :
        (l : Platform) (i : Intent) (u u1 : Table)
        → (reserve l i u).1 ≡ u1
        → Evolves i.tenant_id u u1
    perform-reserving l i u u1 e = rw e at (perform-reserve l i u)

-- From a table with unique keys, a call of `execute` with a valid command and a described request,
-- which asked the provider, leaves the intent that it built in the table and not pending, whatever
-- store methods other threads call meanwhile, when the gateway answers or raises the error that
-- `execute` catches.
pub execute-IsSettled :
    (lib : Platform) (gateway : Gateway) (now later : String) (meanwhile : List Operation)
    (command checked : Command) (descriptor : Descriptor) (t : Table)
    → HasUniqueKeys t
    → validate_command command ≡ ok checked
    → gateway.describe checked.request ≡ returned descriptor
    → gateway.complete checked.request ≢ uncaught
    → (execute lib gateway true now later meanwhile command t).asked ≡ true
    → let intent = build_intent lib now checked descriptor in
      IsSettled intent.tenant_id intent.effect_id
        (execute lib gateway true now later meanwhile command t).table
unfolding execute after_validation after_describe
execute-IsSettled lib gateway now later meanwhile command checked descriptor t unique valid shown
      known asked =
    let same : execute lib gateway true now later meanwhile command t
        ≡ after_reserve lib gateway later meanwhile checked descriptor
            (build_intent lib now checked descriptor)
            (reserve lib (build_intent lib now checked descriptor) t) =
      rw (valid, shown) in
    rw same (
      after_reserve-IsSettled lib gateway later meanwhile checked descriptor
        (build_intent lib now checked descriptor) t
        (reserve lib (build_intent lib now checked descriptor) t) known
        (build_intent-fence lib now checked descriptor) refl unique (rw same at asked))
