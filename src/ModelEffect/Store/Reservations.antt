-- ===== src/ModelEffect/Store/Reservations.antt =====
-- `reserve` of backend/agency_runtime/model_effect_store.py: who may execute, what a repeated request
-- is answered, and which requests are refused.
use ai_native_content_agency.Prelude.{
  ℕ, String, ◌+◌, ◌≤◌, ◌≡◌, ◌≢◌, refl, Bool, true, false, ◌&&◌, Option, none, some, List, [], ◌∷◌,
  ◌++◌, arith, ◌==◌, eq_iff, inl, inr,
}
use ai_native_content_agency.Prelude.Tests.{if◌then◌else◌, Bool-cases, and_left, and_right}
use ai_native_content_agency.Prelude.Tables.{
  find_where, count_where, count-append, count_one, count-update, find_some-test,
}
use ai_native_content_agency.Prelude.Results.{Result, ok, err}
use ai_native_content_agency.Json.{Platform}
use ai_native_content_agency.ModelEffect.Intent.{
  Check, Row, Intent, Error, key_conflict, is_succeeded, validate_intent, intent_values,
  intent_from_mapping,
}
use ai_native_content_agency.ModelEffect.Store.{
  Table, Reservation, has_key, has_binding, primary, reserve, reserve_checked, reserved, insert,
  after_check, find_existing, replay_existing,
}
use ai_native_content_agency.ModelEffect.Store.Recovery.{Operation, reserving, perform, history}
use ai_native_content_agency.ModelEffect.Store.Evolution.{
  Evolves, unchanged, inserted, updated, perform-Evolves,
}
use ai_native_content_agency.ModelEffect.Store.Invariants.{
  HasUniqueKeys, has_binding-Changes, count-le-insert, history-HasUniqueKeys,
}

-- The result lets its caller make the provider call.
abbrev pub is_granted : Result Error Reservation → Bool
is_granted (ok r) = r.executable
is_granted (err _) = false

-- The reservations of a binding that a history grants.
grants_one : Platform → String → String → Operation → Table → ℕ
grants_one lib tenant_id digest (reserving intent) t =
    if is_granted (reserve lib intent t).0
      && (intent.tenant_id == tenant_id && intent.binding_digest == digest)
    then 1
    else 0
grants_one lib tenant_id digest _ t = 0

unfoldable pub grants : Platform → String → String → List Operation → Table → ℕ
unfolding grants_one
grants lib tenant_id digest [] t = 0
grants lib tenant_id digest (op ∷ ops) t =
    grants_one lib tenant_id digest op t + grants lib tenant_id digest ops (perform lib op t)

granted-replay :
    (lib : Platform) (intent : Intent) (row : Row)
    → is_granted (replay_existing lib intent row) ≡ false
unfolding replay_existing
granted-replay lib intent row = ground arith

granted-insert :
    (lib : Platform) (intent : Intent) (t : Table)
    → is_granted (reserved intent (insert (intent_values lib intent) t)).0 ≡ true
    → (reserved intent (insert (intent_values lib intent) t)).1 ≡ t ++ intent_values lib intent ∷ []
unfolding reserved insert
granted-insert lib intent t h = ground arith

granted-checked :
    (lib : Platform) (intent : Intent) (found : Option Row) (t : Table)
    → is_granted (reserve_checked lib intent found t).0 ≡ true
    → (reserve_checked lib intent found t).1 ≡ t ++ intent_values lib intent ∷ []
unfolding reserve_checked
granted-checked lib intent none t h = granted-insert lib intent t h
granted-checked lib intent (some row) t h = cc (granted-replay lib intent row)

granted-after_check :
    (c : Check) (body : Table → Result Error Reservation × Table) (t out : Table)
    → (is_granted (body t).0 ≡ true → (body t).1 ≡ out)
    → is_granted (after_check c body t).0 ≡ true
    → (after_check c body t).1 ≡ out
unfolding after_check
granted-after_check (ok _) body t out k h = k h
granted-after_check (err _) body t out k h = cc

-- A reservation that is granted leaves the table with one more row at its end, the values of the
-- intent.
pub reserve_granted :
    (lib : Platform) (intent : Intent) (t : Table)
    → is_granted (reserve lib intent t).0 ≡ true
    → (reserve lib intent t).1 ≡ t ++ intent_values lib intent ∷ []
unfolding reserve
reserve_granted lib intent t h =
    granted-after_check (validate_intent lib intent true)
      (reserve_checked lib intent (find_existing intent t)) t (t ++ intent_values lib intent ∷ [])
      (granted-checked lib intent (find_existing intent t) t) h

Evolves-le :
    (tn digest : String) {tenant_id : String} {t t' : Table}
    → Evolves tenant_id t t'
    → count_where (has_binding tn digest) t ≤ count_where (has_binding tn digest) t'
Evolves-le tn digest unchanged = omega arith
Evolves-le tn digest {t = t} (inserted row _ _ _ _ _) =
    count-le-insert (has_binding tn digest) t row
Evolves-le tn digest {t = t} (updated p f keeps) = omega (
  arith,
  count-update (has_binding tn digest) p f t (λ (row : Row) (hit : p row ≡ true).
      has_binding-Changes tn digest row (f row) (keeps row hit).1),
)

has_binding-values :
    (lib : Platform) (intent : Intent) (tn digest : String)
    → has_binding tn digest (intent_values lib intent)
      ≡ (intent.tenant_id == tn && intent.binding_digest == digest)
unfolding intent_values
has_binding-values lib intent tn digest = refl

grants_one-le :
    (lib : Platform) (tn digest : String) (op : Operation) (t : Table)
    → grants_one lib tn digest op t + count_where (has_binding tn digest) t
      ≤ count_where (has_binding tn digest) (perform lib op t)
unfolding grants_one perform
grants_one-le lib tn digest (reserving intent) t =
    elim (Bool-cases (
      is_granted (reserve lib intent t).0
      && (intent.tenant_id == tn && intent.binding_digest == digest))) [
        | inl yes_granted ↦
            rw
              (
                yes_granted,
                reserve_granted lib intent t (
                    and_left (is_granted (reserve lib intent t).0)
                      (intent.tenant_id == tn && intent.binding_digest == digest) yes_granted),
                count-append,
                count_one,
                has_binding-values,
                and_right (is_granted (reserve lib intent t).0)
                    (intent.tenant_id == tn && intent.binding_digest == digest) yes_granted,
              )
              (omega arith)
        | inr not_granted ↦
            rw not_granted
              (omega (arith, Evolves-le tn digest (perform-Evolves lib (reserving intent) t)))
      ]
grants_one-le lib tn digest op t = omega (arith, Evolves-le tn digest (perform-Evolves lib op t))

grants-le :
    (lib : Platform) (tn digest : String) (ops : List Operation) (t : Table)
    → grants lib tn digest ops t + count_where (has_binding tn digest) t
      ≤ count_where (has_binding tn digest) (history lib ops t)
unfolding grants history
grants-le lib tn digest [] t = omega arith
grants-le lib tn digest (op ∷ ops) t =
    omega (arith, grants-le lib tn digest ops (perform lib op t), grants_one-le lib tn digest op t)

-- From a table with unique keys, whatever methods are called and in whatever order, the
-- reservations of a tenant's binding that are granted, with the rows that the table had for it, are
-- at most one.
pub grants-le-one :
    (lib : Platform) (tenant_id digest : String) (ops : List Operation) (t : Table)
    → HasUniqueKeys t
    → grants lib tenant_id digest ops t + count_where (has_binding tenant_id digest) t ≤ 1
grants-le-one lib tenant_id digest ops t h = omega (
  arith,
  grants-le lib tenant_id digest ops t,
  (history-HasUniqueKeys lib ops t h).bindings tenant_id digest,
)

decoded_columns :
    (lib : Platform) (row : Row) (stored : Intent)
    → intent_from_mapping lib row ≡ ok stored
    → (stored.binding_digest ≡ row.binding_digest)
      × (stored.idempotency_digest ≡ row.idempotency_digest)
      × (stored.status ≡ row.status)
unfolding intent_from_mapping
decoded_columns lib row stored h = ground arith

-- A valid request whose key a row of its tenant has, with the same binding and a receipt that can
-- be read, changes nothing. It is answered with the stored intent, not executable, and as replayed
-- exactly if that one succeeded.
pub reserve_again :
    (lib : Platform) (intent stored : Intent) (row : Row) (t : Table)
    → validate_intent lib intent true ≡ ok tt
    → find_where (has_key intent.tenant_id intent.idempotency_digest) t ≡ some row
    → row.binding_digest ≡ intent.binding_digest
    → intent_from_mapping lib row ≡ ok stored
    → reserve lib intent t ≡ (
      ok (record { intent = stored; executable = false; replayed = is_succeeded stored.status }),
      t,
    )
unfolding reserve reserve_checked find_existing replay_existing
reserve_again lib intent stored row t valid found same decoded = ground (
  arith,
  decoded_columns lib row stored decoded,
  eq_iff row.binding_digest intent.binding_digest,
  eq_iff stored.binding_digest intent.binding_digest,
)

-- A valid request whose key a row of its tenant has, with another binding and a receipt that can be
-- read, raises the conflict of keys and changes nothing.
pub reserve_conflict :
    (lib : Platform) (intent stored : Intent) (row : Row) (t : Table)
    → validate_intent lib intent true ≡ ok tt
    → find_where (has_key intent.tenant_id intent.idempotency_digest) t ≡ some row
    → row.binding_digest ≢ intent.binding_digest
    → intent_from_mapping lib row ≡ ok stored
    → reserve lib intent t ≡ (err key_conflict, t)
unfolding reserve reserve_checked find_existing replay_existing
reserve_conflict lib intent stored row t valid found other decoded = ground (
  arith,
  decoded_columns lib row stored decoded,
  find_some-test (has_key intent.tenant_id intent.idempotency_digest) t found,
  eq_iff stored.binding_digest intent.binding_digest,
)

pub grants-append :
    (lib : Platform) (tn digest : String) (before after : List Operation) (t : Table)
    → grants lib tn digest (before ++ after) t
      ≡ grants lib tn digest before t + grants lib tn digest after (history lib before t)
unfolding grants history
grants-append lib tn digest [] after t = omega arith
grants-append lib tn digest (op ∷ before) after t =
    omega (arith, grants-append lib tn digest before after (perform lib op t))

insert-IsFresh :
    (lib : Platform) (intent : Intent) (t : Table)
    → is_granted (reserved intent (insert (intent_values lib intent) t)).0 ≡ true
    → count_where (primary intent.effect_id) t ≡ 0
unfolding reserved insert intent_values
insert-IsFresh lib intent t h = ground arith

-- A granted intent was valid, and its id was new.
pub granted-IsFresh :
    (lib : Platform) (intent : Intent) (t : Table)
    → is_granted (reserve lib intent t).0 ≡ true
    → (validate_intent lib intent true ≡ ok tt) × (count_where (primary intent.effect_id) t ≡ 0)
unfolding reserve
granted-IsFresh lib intent t h = checked (validate_intent lib intent true) h
  where
    found :
        (o : Option Row)
        → is_granted (reserve_checked lib intent o t).0 ≡ true
        → count_where (primary intent.effect_id) t ≡ 0
    found none g = insert-IsFresh lib intent t g
    found (some row) g = cc (granted-replay lib intent row)

    checked :
        (c : Check)
        → is_granted (after_check c (reserve_checked lib intent (find_existing intent t)) t).0
          ≡ true
        → (c ≡ ok tt) × (count_where (primary intent.effect_id) t ≡ 0)
    checked (ok _) g = (refl, found (find_existing intent t) g)
    checked (err _) g = absurd (cc)
