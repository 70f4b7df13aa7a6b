-- ===== src/ModelEffect/Authority/Uncaught.antt =====
-- `execute` of backend/agency_runtime/model_effect.py, when `ModelGateway.complete` raises an exception
-- that it does not catch.
use ai_native_content_agency.Prelude.{
  String, ◌≡◌, refl, Bool, true, [], some, inl, inr, ap, sym, ◌∙◌,
}
use ai_native_content_agency.Prelude.Tests.{Bool-cases}
use ai_native_content_agency.Prelude.Tables.{find_where}
use ai_native_content_agency.Prelude.Results.{Result, ok, err}
use ai_native_content_agency.Json.{Platform}
use ai_native_content_agency.ModelEffect.Intent.{Error, Intent, pending, intent_values}
use ai_native_content_agency.ModelEffect.Store.{Table, Reservation, has_id, reserve}
use ai_native_content_agency.ModelEffect.Store.Recovery.{history}
use ai_native_content_agency.ModelEffect.Store.Reservations.{is_granted, granted-IsFresh}
use ai_native_content_agency.ModelEffect.Authority.{
  Gateway, Command, Descriptor, returned, uncaught, gateway_error, validate_command, build_intent,
  after_answer, after_reserve, after_describe, after_validation, execute, Run,
}
use ai_native_content_agency.ModelEffect.Authority.Settled.{granted-Later, validate_intent-identity}

-- The intent is in the table as it was reserved, pending.
abbrev pub IsLeft : Platform → Intent → Run → Type 0
IsLeft lib intent run =
    (run.result ≡ err gateway_error)
    × (find_where (has_id intent.tenant_id intent.effect_id) run.table
        ≡ some (intent_values lib intent))
    × ((intent_values lib intent).status ≡ pending)

after_reserve-IsLeft :
    (lib : Platform) (gateway : Gateway) (later : String) (command : Command)
    (descriptor : Descriptor) (intent : Intent) (t : Table) (r : Result Error Reservation × Table)
    → gateway.complete command.request ≡ uncaught
    → reserve lib intent t ≡ r
    → (after_reserve lib gateway later [] command descriptor intent r).asked ≡ true
    → IsLeft lib intent (after_reserve lib gateway later [] command descriptor intent r)
unfolding after_reserve after_answer history intent_values
after_reserve-IsLeft lib gateway later command descriptor intent t (err e, t1) raised same asked =
    absurd (cc)
after_reserve-IsLeft lib gateway later command descriptor intent t (ok reservation, t1) raised same
      asked =
    elim (Bool-cases reservation.executable) [
      | inl executable ↦
          (let granted : is_granted (reserve lib intent t).0 ≡ true = rw same executable in
            rw (executable, raised)
              (
                refl,
                ap
                      (λ (p : Result Error Reservation × Table).
                        find_where (has_id intent.tenant_id intent.effect_id) p.1)
                      (sym same)
                    ∙ granted-Later lib intent t granted,
                (validate_intent-identity lib intent (granted-IsFresh lib intent t granted).0).1,
              ))
      | inr refused ↦ absurd (cc (ap (λ (b : Bool). b) (rw refused at asked)))
    ]

-- A call of `execute` with a valid command and a described request, while no other thread calls the
-- store, which asked the provider and got an exception that it does not catch, raises that
-- exception and leaves the intent that it built in the table as it was reserved, pending.
pub execute-uncaught :
    (lib : Platform) (gateway : Gateway) (now later : String) (command checked : Command)
    (descriptor : Descriptor) (t : Table)
    → validate_command command ≡ ok checked
    → gateway.describe checked.request ≡ returned descriptor
    → gateway.complete checked.request ≡ uncaught
    → (execute lib gateway true now later [] command t).asked ≡ true
    → let run = execute lib gateway true now later [] command t in
      let intent = build_intent lib now checked descriptor in
      (run.result ≡ err gateway_error)
      × (find_where (has_id intent.tenant_id intent.effect_id) run.table
          ≡ some (intent_values lib intent))
      × ((intent_values lib intent).status ≡ pending)
unfolding execute after_validation after_describe
execute-uncaught lib gateway now later command checked descriptor t valid shown raised asked =
    let same : execute lib gateway true now later [] command t
        ≡ after_reserve lib gateway later [] checked descriptor
            (build_intent lib now checked descriptor)
            (reserve lib (build_intent lib now checked descriptor) t) =
      rw (valid, shown) in
    rw same (
      after_reserve-IsLeft lib gateway later checked descriptor
        (build_intent lib now checked descriptor) t
        (reserve lib (build_intent lib now checked descriptor) t) raised refl (rw same at asked))
