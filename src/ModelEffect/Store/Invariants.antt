-- ===== src/ModelEffect/Store/Invariants.antt =====
-- Histories of the methods of backend/agency_runtime/model_effect_store.py: the keys of the table,
-- its final rows, and the rows of other tenants.
use mathlib.Core.Option
use ai_native_content_agency.Prelude.{
  String, ◌≤◌, ◌≡◌, ◌≢◌, refl, Bool, true, false, some, List, [], ◌∷◌, ◌++◌, arith, ◌==◌, eq_iff,
  inl, inr, ◌⊎◌, ap, ◌∙◌,
}
use ai_native_content_agency.Prelude.Tests.{if◌then◌else◌, Bool-cases}
use ai_native_content_agency.Prelude.Tables.{
  find_where, count_where, update_where, select_where, count-append, count_one, count-update,
  find-update, find-append, select-update, select-append,
}
use ai_native_content_agency.Json.{Platform}
use ai_native_content_agency.ModelEffect.Intent.{Status, pending, unknown, is_pending, Row}
use ai_native_content_agency.ModelEffect.Store.{Table, has_key, has_binding, has_id, primary}
use ai_native_content_agency.ModelEffect.Store.Recovery.{Operation, perform, history}
use ai_native_content_agency.ModelEffect.Store.Evolution.{
  Changes, Evolves, unchanged, inserted, updated, tenant_of, perform-Evolves, Move,
}

-- The primary key and the two UNIQUE constraints.
pub record HasUniqueKeys (t : Table) : Type 0 where
  pub ids : (effect_id : String) → count_where (primary effect_id) t ≤ 1
  pub keys : (tenant_id digest : String) → count_where (has_key tenant_id digest) t ≤ 1
  pub bindings : (tenant_id digest : String) → count_where (has_binding tenant_id digest) t ≤ 1

-- A test of columns that no method changes, on one more row that is alone with them.
module _ (q : Row → Bool) where
  count-insert :
      (t : Table) (row : Row)
      → (q row ≡ true → count_where q t ≡ 0)
      → count_where q t ≤ 1
      → count_where q (t ++ row ∷ []) ≤ 1
  count-insert t row alone h = elim (Bool-cases (q row)) [
    | inl hit ↦ rw (count-append, count_one, hit) (omega (arith, alone hit))
    | inr miss ↦ rw (count-append, count_one, miss) (omega arith)
  ]

  pub count-le-insert : (t : Table) (row : Row) → count_where q t ≤ count_where q (t ++ row ∷ [])
  count-le-insert t row = rw (count-append) (omega arith)

pub has_key-Changes :
    (tenant_id digest : String) (row new : Row)
    → Changes row new
    → has_key tenant_id digest new ≡ has_key tenant_id digest row
has_key-Changes tenant_id digest row new c = rw (c.same_tenant, c.same_key)

pub has_binding-Changes :
    (tenant_id digest : String) (row new : Row)
    → Changes row new
    → has_binding tenant_id digest new ≡ has_binding tenant_id digest row
has_binding-Changes tenant_id digest row new c = rw (c.same_tenant, c.same_binding)

pub has_id-Changes :
    (tenant_id effect_id : String) (row new : Row)
    → Changes row new
    → has_id tenant_id effect_id new ≡ has_id tenant_id effect_id row
has_id-Changes tenant_id effect_id row new c = rw (c.same_tenant, c.same_id)

alone_by_key :
    (tenant_id digest : String) (row : Row) (t : Table)
    → count_where (has_key row.tenant_id row.idempotency_digest) t ≡ 0
    → has_key tenant_id digest row ≡ true
    → count_where (has_key tenant_id digest) t ≡ 0
alone_by_key tenant_id digest row t none_yet hit =
    let e : row.tenant_id ≡ tenant_id = ground (arith, eq_iff row.tenant_id tenant_id) in
    let d : row.idempotency_digest ≡ digest =
      ground (arith, eq_iff row.idempotency_digest digest) in
    rw (← e, ← d) none_yet

alone_by_binding :
    (tenant_id digest : String) (row : Row) (t : Table)
    → count_where (has_binding row.tenant_id row.binding_digest) t ≡ 0
    → has_binding tenant_id digest row ≡ true
    → count_where (has_binding tenant_id digest) t ≡ 0
alone_by_binding tenant_id digest row t none_yet hit =
    let e : row.tenant_id ≡ tenant_id = ground (arith, eq_iff row.tenant_id tenant_id) in
    let d : row.binding_digest ≡ digest = ground (arith, eq_iff row.binding_digest digest) in
    rw (← e, ← d) none_yet

alone_by_id :
    (effect_id : String) (row : Row) (t : Table)
    → count_where (primary row.effect_id) t ≡ 0
    → primary effect_id row ≡ true
    → count_where (primary effect_id) t ≡ 0
alone_by_id effect_id row t none_yet hit = rw (← (eq_iff row.effect_id effect_id).0 hit) none_yet

pub Evolves-HasUniqueKeys :
    {tenant_id : String} {t t' : Table}
    → Evolves tenant_id t t'
    → HasUniqueKeys t
    → HasUniqueKeys t'
Evolves-HasUniqueKeys unchanged h = h
Evolves-HasUniqueKeys {t = t} (inserted row _ _ ids keys bindings) h = record {
  ids = λ e. count-insert (primary e) t row (alone_by_id e row t ids) (h.ids e);
  keys = λ tn d. count-insert (has_key tn d) t row (alone_by_key tn d row t keys) (h.keys tn d);
  bindings = λ tn d.
      count-insert (has_binding tn d) t row (alone_by_binding tn d row t bindings)
        (h.bindings tn d);
}
Evolves-HasUniqueKeys {t = t} (updated p f keeps) h = record {
  ids = λ e.
      rw
        (count-update (primary e) p f t
          (λ row hit. ap (λ (s : String). s == e) (keeps row hit).1.same_id))
        (h.ids e);
  keys = λ tn d.
      rw
        (count-update (has_key tn d) p f t
          (λ row hit. has_key-Changes tn d row (f row) (keeps row hit).1))
        (h.keys tn d);
  bindings = λ tn d.
      rw
        (count-update (has_binding tn d) p f t
          (λ row hit. has_binding-Changes tn d row (f row) (keeps row hit).1))
        (h.bindings tn d);
}

-- From a table with a unique primary key and unique pairs of tenant and digest, every history of
-- methods leads to such a table.
pub history-HasUniqueKeys :
    (lib : Platform) (ops : List Operation) (t : Table)
    → HasUniqueKeys t
    → HasUniqueKeys (history lib ops t)
unfolding history
history-HasUniqueKeys lib [] t h = h
history-HasUniqueKeys lib (op ∷ ops) t h =
    history-HasUniqueKeys lib ops (perform lib op t)
      (Evolves-HasUniqueKeys (perform-Evolves lib op t) h)

abbrev pub is_final : Status → Bool
is_final pending = false
is_final unknown = false
is_final _ = true

Move-not_final : {s u : Status} → Move s u → is_final s ≡ false
Move-not_final Move.completed = refl
Move-not_final Move.lost = refl
Move-not_final Move.refused = refl
Move-not_final Move.withdrawn = refl
Move-not_final Move.reconciled = refl

Evolves-final :
    {tenant_id : String} {t t' : Table}
    → Evolves tenant_id t t'
    → (tn effect_id : String) (row : Row) → is_final row.status ≡ true
    → find_where (has_id tn effect_id) t ≡ some row
    → find_where (has_id tn effect_id) t' ≡ some row
Evolves-final unchanged tn effect_id row final found = found
Evolves-final {t = t} (inserted new _ _ _ _ _) tn effect_id row final found =
    find-append (has_id tn effect_id) t (new ∷ []) found
Evolves-final {t = t} (updated p f keeps) tn effect_id row final found = elim (Bool-cases (p row)) [
  | inl hit ↦ cc (Move-not_final (keeps row hit).1.move)
  | inr miss ↦
      rw
        (find-update (has_id tn effect_id) p f t
          (λ x hit. has_id-Changes tn effect_id x (f x) (keeps x hit).1))
        (rw (found, miss))
]

-- A row that is found by its tenant and id and is succeeded, failed or revoked is found exactly as
-- it was after every history of methods.
pub history-final :
    (lib : Platform) (ops : List Operation) (t : Table) (tenant_id effect_id : String) (row : Row)
    → is_final row.status ≡ true
    → find_where (has_id tenant_id effect_id) t ≡ some row
    → find_where (has_id tenant_id effect_id) (history lib ops t) ≡ some row
unfolding history
history-final lib [] t tenant_id effect_id row final found = found
history-final lib (op ∷ ops) t tenant_id effect_id row final found =
    history-final lib ops (perform lib op t) tenant_id effect_id row final
      (Evolves-final (perform-Evolves lib op t) tenant_id effect_id row final found)

abbrev pub of_tenant : String → Row → Bool
of_tenant tenant_id row = row.tenant_id == tenant_id

other_tenant : (a b c : String) → a ≡ b → b ≢ c → (a == c) ≡ false
other_tenant a b c e ne = ground (arith, eq_iff a c)

-- A method called for one tenant leaves the rows of any other tenant as they were, in their order.
pub perform-of_tenant :
    (lib : Platform) (op : Operation) (t : Table) (other : String)
    → tenant_of op ≢ other
    → select_where (of_tenant other) (perform lib op t) ≡ select_where (of_tenant other) t
perform-of_tenant lib op t other ne = isolated (perform-Evolves lib op t)
  where
    isolated :
        {t' : Table}
        → Evolves (tenant_of op) t t'
        → select_where (of_tenant other) t' ≡ select_where (of_tenant other) t
    isolated unchanged = refl
    isolated (inserted row mine _ _ _ _) =
        select-append (of_tenant other) t row
          (other_tenant row.tenant_id (tenant_of op) other mine ne)
    isolated (updated p f keeps) = select-update (of_tenant other) p f t (λ row hit. (
      other_tenant row.tenant_id (tenant_of op) other (keeps row hit).0 ne,
      other_tenant (f row).tenant_id (tenant_of op) other
          ((keeps row hit).1.same_tenant ∙ (keeps row hit).0) ne,
    ))

-- What a later table can hold in place of a row: the row itself, or one that is not pending.
abbrev pub IsLater : String → String → Row → Table → Type 0
IsLater tenant_id effect_id row t' =
    (new : Row) × (find_where (has_id tenant_id effect_id) t' ≡ some new)
    × ((new ≡ row) ⊎ (is_pending new.status ≡ false))

Move-not_pending : {s u : Status} → Move s u → is_pending u ≡ false
Move-not_pending Move.completed = refl
Move-not_pending Move.lost = refl
Move-not_pending Move.refused = refl
Move-not_pending Move.withdrawn = refl
Move-not_pending Move.reconciled = refl

pub Evolves-IsLater :
    (tn effect_id : String) (row : Row) {tenant_id : String} {t t' : Table}
    → Evolves tenant_id t t'
    → find_where (has_id tn effect_id) t ≡ some row
    → IsLater tn effect_id row t'
Evolves-IsLater tn effect_id row unchanged found = (row, found, inl refl)
Evolves-IsLater tn effect_id row {t = t} (inserted new _ _ _ _ _) found =
    (row, find-append (has_id tn effect_id) t (new ∷ []) found, inl refl)
Evolves-IsLater tn effect_id row {t = t} (updated p f keeps) found = elim (Bool-cases (p row)) [
  | inl hit ↦ (f row, rw moved (rw (found, hit)), inr (Move-not_pending (keeps row hit).1.move))
  | inr miss ↦ (row, rw moved (rw (found, miss)), inl refl)
]
  where
    moved :
        find_where (has_id tn effect_id) (update_where p f t)
        ≡ Option.map (λ x. if p x then f x else x) (find_where (has_id tn effect_id) t)
    moved =
        find-update (has_id tn effect_id) p f t
          (λ x hit. has_id-Changes tn effect_id x (f x) (keeps x hit).1)

pub IsLater-trans :
    (tn effect_id : String) (row : Row) {tenant_id : String} {t t' : Table}
    → Evolves tenant_id t t'
    → IsLater tn effect_id row t
    → IsLater tn effect_id row t'
IsLater-trans tn effect_id row e (new, found, inl same) =
    let (last, found', how) = Evolves-IsLater tn effect_id new e found in
    (last, found', elim how [ inl kept ↦ inl (kept ∙ same) | inr settled ↦ inr settled ])
IsLater-trans tn effect_id row e (new, found, inr settled) =
    let (last, found', how) = Evolves-IsLater tn effect_id new e found in
    (last, found', inr (elim how [ inl kept ↦ rw kept settled | inr settled' ↦ settled' ]))

pub history-IsLater :
    (lib : Platform) (ops : List Operation) (t : Table) (tn effect_id : String) (row : Row)
    → IsLater tn effect_id row t
    → IsLater tn effect_id row (history lib ops t)
unfolding history
history-IsLater lib [] t tn effect_id row h = h
history-IsLater lib (op ∷ ops) t tn effect_id row h =
    history-IsLater lib ops (perform lib op t) tn effect_id row
      (IsLater-trans tn effect_id row (perform-Evolves lib op t) h)
