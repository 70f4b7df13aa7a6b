-- ===== src/Auth/Consistency.antt =====
-- backend/agency_runtime/auth.py: the entries of an authenticator stand for different keys.
use ai_native_content_agency.Prelude.{
  ℕ, String, Bool, true, false, ◌≡◌, ◌≤◌, ◌+◌, refl, sym, ap, ◌∙◌, none, some, List, [], ◌∷◌, ◌++◌,
  ◌==◌, inl, inr, arith, eq_iff,
}
use ai_native_content_agency.Prelude.Tests.{if◌then◌else◌, Bool-cases}
use ai_native_content_agency.Prelude.Tables.{count_where, count-append, count_one, count_mono}
use ai_native_content_agency.Prelude.Results.{Result, ok, err, ◌>>=◌, ◌>>◌, Result-cases}
use ai_native_content_agency.Json.{Platform, Fields, get}
use ai_native_content_agency.Auth.{Error, Entry, normal_tenant}
use ai_native_content_agency.Auth.Configuration.{
  Credential, has_digest, has_key, check_new, insert_entry, sort_entries, new_entry, add_entry,
  add_legacy, add_raw, add_credentials, configure, credential_of, legacy_credential, active_of,
}
use ai_native_content_agency.Auth.Access.{last_where}

-- One entry at most for a digest, and one for a key of a tenant.
pub record IsConsistent (entries : List Entry) : Type 0 where
  pub one_digest : (digest : String) → count_where (has_digest digest) entries ≤ 1
  pub one_key : (tenant_id key_id : String) → count_where (has_key tenant_id key_id) entries ≤ 1

count-insert :
    (p : Entry → Bool) (entry : Entry) (entries : List Entry)
    → count_where p (insert_entry entry entries)
      ≡ (if p entry then 1 else 0) + count_where p entries
unfolding insert_entry count_where
count-insert p entry [] = refl
count-insert p entry (next ∷ rest) = ground (arith, count-insert p entry rest)

count-sort :
    (p : Entry → Bool) (entries : List Entry)
    → count_where p (sort_entries entries) ≡ count_where p entries
unfolding sort_entries count_where
count-sort p [] = refl
count-sort p (entry ∷ rest) =
    count-insert p entry (sort_entries rest)
    ∙ ap (λ (n : ℕ). (if p entry then 1 else 0) + n) (count-sort p rest)

sort-IsConsistent :
    (entries : List Entry) → IsConsistent entries → IsConsistent (sort_entries entries)
sort-IsConsistent entries h = record {
  one_digest = λ digest. omega (arith, count-sort (has_digest digest) entries, h.one_digest digest);
  one_key = λ tenant_id key_id.
      omega (arith, count-sort (has_key tenant_id key_id) entries, h.one_key tenant_id key_id);
}

check_new-counts :
    (entry : Entry) (entries : List Entry)
    → check_new entry entries ≡ ok tt
    → (count_where (has_digest entry.digest) entries ≡ 0)
      × (count_where (has_key entry.tenant_id entry.key_id) entries ≡ 0)
unfolding check_new
check_new-counts entry entries h = ground arith

append-digest :
    (entry : Entry) (entries : List Entry) (digest : String)
    → count_where (has_digest entry.digest) entries ≡ 0
    → count_where (has_digest digest) entries ≤ 1
    → count_where (has_digest digest) (entries ++ entry ∷ []) ≤ 1
append-digest entry entries digest new old = elim (Bool-cases (entry.digest == digest)) [
  | inr other ↦
      rw
        (
          count-append (has_digest digest) entries (entry ∷ []),
          count_one (has_digest digest) entry,
          other,
        )
        (omega (arith, old))
  | inl same ↦
      let here : entry.digest ≡ digest = ground (arith, eq_iff entry.digest digest) in
      rw
        (
          count-append (has_digest digest) entries (entry ∷ []),
          count_one (has_digest digest) entry,
          same,
        )
        (omega (arith, sym (ap (λ (d : String). count_where (has_digest d) entries) here) ∙ new))
]

append-key :
    (entry : Entry) (entries : List Entry) (tenant_id key_id : String)
    → count_where (has_key entry.tenant_id entry.key_id) entries ≡ 0
    → count_where (has_key tenant_id key_id) entries ≤ 1
    → count_where (has_key tenant_id key_id) (entries ++ entry ∷ []) ≤ 1
append-key entry entries tenant_id key_id new old =
    elim (Bool-cases (has_key tenant_id key_id entry)) [
      | inr other ↦
          rw
            (
              count-append (has_key tenant_id key_id) entries (entry ∷ []),
              count_one (has_key tenant_id key_id) entry,
              other,
            )
            (omega (arith, old))
      | inl same ↦
          let here : entry.tenant_id ≡ tenant_id =
            ground (arith, eq_iff entry.tenant_id tenant_id) in
          let there : entry.key_id ≡ key_id = ground (arith, eq_iff entry.key_id key_id) in
          let none_before : count_where (has_key tenant_id key_id) entries ≡ 0 =
            rw (sym here, sym there) new in
          rw
            (
              count-append (has_key tenant_id key_id) entries (entry ∷ []),
              count_one (has_key tenant_id key_id) entry,
              same,
            )
            (omega (arith, none_before))
    ]

append-IsConsistent :
    (entry : Entry) (entries : List Entry)
    → check_new entry entries ≡ ok tt
    → IsConsistent entries
    → IsConsistent (entries ++ entry ∷ [])
append-IsConsistent entry entries passed h =
    let new = check_new-counts entry entries passed in
    record {
      one_digest = λ digest. append-digest entry entries digest new.0 (h.one_digest digest);
      one_key = λ tenant_id key_id.
          append-key entry entries tenant_id key_id new.1 (h.one_key tenant_id key_id);
    }

-- What a result holds satisfies the property.
abbrev Yields : {A : Type 0} → (A → Type 0) → Result Error A → Type 0
Yields P (ok a) = P a
Yields P (err _) = Unit

bind-Yields :
    {A B : Type 0} (P : A → Type 0) (Q : B → Type 0) (m : Result Error A) (f : A → Result Error B)
    → Yields P m
    → ((a : A) → P a → Yields Q (f a))
    → Yields Q (m >>= f)
bind-Yields P Q (ok a) f h next = next a h
bind-Yields P Q (err e) f h next = tt

bind-always :
    {A B : Type 0} (Q : B → Type 0) (m : Result Error A) (f : A → Result Error B)
    → ((a : A) → Yields Q (f a))
    → Yields Q (m >>= f)
bind-always Q (ok a) f next = next a
bind-always Q (err e) f next = tt

module _ (lib : Platform) (lower : String → String) where
  append_checked-Yields :
      (entry : Entry) (entries : List Entry)
      → IsConsistent entries
      → Yields IsConsistent (check_new entry entries >> ok (entries ++ entry ∷ []))
  append_checked-Yields entry entries h = elim (Result-cases (check_new entry entries)) [
    | inl (tt, passed) ↦ rw passed (append-IsConsistent entry entries passed h)
    | inr (e, raised) ↦ rw raised tt
  ]

  add_entry-Yields :
      (c : Credential) (entries : List Entry)
      → IsConsistent entries
      → Yields IsConsistent (add_entry lib lower c entries)
  unfolding add_entry
  add_entry-Yields c entries h =
      bind-always IsConsistent (new_entry lib lower c) _
        (λ entry. append_checked-Yields entry entries h)

  add_legacy-Yields :
      (items : List (String × String)) (entries : List Entry)
      → IsConsistent entries
      → Yields IsConsistent (add_legacy lib lower items entries)
  unfolding add_legacy
  add_legacy-Yields [] entries h = h
  add_legacy-Yields (item ∷ items) entries h =
      bind-always IsConsistent (normal_tenant lower item.0) _ (λ tenant_id.
        bind-Yields IsConsistent IsConsistent
          (add_entry lib lower (legacy_credential tenant_id item.1) entries) _
          (add_entry-Yields (legacy_credential tenant_id item.1) entries h)
          (λ added k. add_legacy-Yields items added k))

  if-Yields :
      (b : Bool) (m n : Result Error (List Entry))
      → Yields IsConsistent m
      → Yields IsConsistent n
      → Yields IsConsistent (if b then m else n)
  if-Yields true m n h k = h
  if-Yields false m n h k = k

  add_raw-Yields :
      (raw : Fields) (entries : List Entry)
      → IsConsistent entries
      → Yields IsConsistent (add_raw lib lower raw entries)
  unfolding add_raw
  add_raw-Yields raw entries h =
      bind-always IsConsistent (active_of lib lower (get "active" raw)) _ (λ active.
        if-Yields active (credential_of lib lower raw >>= λ c. add_entry lib lower c entries)
          (ok entries)
          (bind-always IsConsistent (credential_of lib lower raw) _
            (λ c. add_entry-Yields c entries h))
          h)

  add_credentials-Yields :
      (raws : List Fields) (entries : List Entry)
      → IsConsistent entries
      → Yields IsConsistent (add_credentials lib lower raws entries)
  unfolding add_credentials
  add_credentials-Yields [] entries h = h
  add_credentials-Yields (raw ∷ raws) entries h =
      bind-Yields IsConsistent IsConsistent (add_raw lib lower raw entries) _
        (add_raw-Yields raw entries h) (λ added k. add_credentials-Yields raws added k)

  configure-Yields :
      (legacy : List (String × String)) (raws : List Fields)
      → Yields IsConsistent (configure lib lower legacy raws)
  unfolding configure count_where
  configure-Yields legacy raws =
      bind-Yields IsConsistent IsConsistent (add_legacy lib lower legacy []) _
        (add_legacy-Yields legacy []
          (record { one_digest = λ _. omega arith; one_key = λ _ _. omega arith }))
        (λ first h.
          bind-Yields IsConsistent IsConsistent (add_credentials lib lower raws first) _
            (add_credentials-Yields raws first h) (λ entries k. sort-IsConsistent entries k))

  -- A configuration that is accepted has one entry at most for a digest, and one at most for a key
  -- identifier of a tenant.
  pub configure-IsConsistent :
      (legacy : List (String × String)) (raws : List Fields) {entries : List Entry}
      → configure lib lower legacy raws ≡ ok entries
      → IsConsistent entries
  configure-IsConsistent legacy raws made = rw made at (configure-Yields legacy raws)

last_where_hit :
    (p : Entry → Bool) (entries : List Entry) (entry : Entry)
    → last_where p entries ≡ some entry
    → p entry ≡ true
unfolding last_where
last_where_hit p [] entry h = cc
last_where_hit p (first ∷ rest) entry h = ground (arith, last_where_hit p rest entry)

last_where-none :
    (p : Entry → Bool) (entries : List Entry)
    → count_where p entries ≡ 0
    → last_where p entries ≡ none
unfolding last_where count_where
last_where-none p [] h = refl
last_where-none p (first ∷ rest) h = ground (arith, last_where-none p rest)

-- The last entry that a test selects, where a wider one selects one at most.
pub last_where_unique :
    (p q r : Entry → Bool) (entries : List Entry) (entry : Entry)
    → ((e : Entry) → q e ≡ true → r e ≡ true)
    → count_where r entries ≤ 1
    → last_where p entries ≡ some entry
    → q entry ≡ true
    → last_where q entries ≡ some entry
unfolding last_where count_where
last_where_unique p q r [] entry narrow one found hit = cc
last_where_unique p q r (first ∷ rest) entry narrow one found hit = ground (
  arith,
  last_where_unique p q r rest entry narrow,
  last_where-none q rest,
  narrow first,
  count_mono q r rest narrow,
)
