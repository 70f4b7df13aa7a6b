-- ===== src/Agency/Authorization.antt =====
-- backend/agency_runtime/api.py: what the check before an external effect lets pass.
use ai_native_content_agency.Prelude.{
  ℕ, String, Bool, true, false, not, ◌||◌, none, some, ◌≡◌, refl, ◌≤◌, List, [], ◌∷◌, inl, inr, ◌⊎◌,
  ◌↔◌, arith, eq_iff, eq_refl, ◌==◌, sym, ◌∙◌,
}
use ai_native_content_agency.Prelude.Tests.{Bool-cases, Option-cases, eqb}
use ai_native_content_agency.Prelude.Int.{ℤ, pos, negsuc, ltb_ℤ, eqb_ℤ, eqb_ℤ_sound, eqb_ℤ_refl}
use ai_native_content_agency.Prelude.Tables.{count_where}
use ai_native_content_agency.Prelude.Results.{ok, ◌>>◌, raise_if}
use ai_native_content_agency.Agency.Model.{
  Platform, completed, approve, Greenlight, Run, Error, active,
}
use ai_native_content_agency.Agency.Values.{platform_value}
use ai_native_content_agency.Agency.Decisions.{active_greenlight}
use ai_native_content_agency.Agency.Effects.{
  Effect, eqb_texts, is_channel, check_envelope, check_effect,
}

-- One of the platforms has this value.
abbrev pub IsAmong : String → List Platform → Type 0
IsAmong channel [] = ⊥
IsAmong channel (platform ∷ platforms) =
    (platform_value platform ≡ channel) ⊎ IsAmong channel platforms

-- The effect is inside the envelope of the greenlight.
pub record IsInside (effect : Effect) (greenlight : Greenlight) : Type 0 where
  pub same_id : greenlight.greenlight_id ≡ effect.greenlight_id
  pub same_fence : greenlight.fencing_token ≡ effect.fencing_token
  pub same_artifacts : greenlight.approved_artifact_ids ≡ effect.artifact_ids
  pub same_hashes : greenlight.approved_artifact_hashes ≡ effect.artifact_hashes
  pub on_channel : IsAmong effect.channel greenlight.authorized_channels
  pub in_budget :
      (spent limit : ℕ) × (effect.budget_cents ≡ pos spent)
      × (greenlight.authorized_budget_cents ≡ pos limit)
      × (spent ≤ limit)

-- The run is completed under an approval that stands, and the effect is inside its envelope.
abbrev pub Authorizes : Effect → Run → Type 0
Authorizes effect run =
    (greenlight : Greenlight) × (run.status ≡ completed)
    × (run.greenlight ≡ some greenlight)
    × (greenlight.decision ≡ approve)
    × (greenlight.revoked_at ≡ none)
    × IsInside effect greenlight

eqb_texts_sound : (ss ts : List String) → eqb_texts ss ts ≡ true → ss ≡ ts
unfolding eqb_texts
eqb_texts_sound [] [] h = refl
eqb_texts_sound [] (t ∷ ts) h = cc
eqb_texts_sound (s ∷ ss) [] h = cc
eqb_texts_sound (s ∷ ss) (t ∷ ts) h = ground (arith, eq_iff s t, eqb_texts_sound ss ts)

eqb_texts_refl : (ss : List String) → eqb_texts ss ss ≡ true
unfolding eqb_texts
eqb_texts_refl [] = refl
eqb_texts_refl (s ∷ ss) = rw (eq_refl s, eqb_texts_refl ss) refl

count_IsAmong :
    (channel : String) (platforms : List Platform)
    → eqb (count_where (is_channel channel) platforms) 0 ≡ false
    → IsAmong channel platforms
unfolding count_where
count_IsAmong channel [] h = cc
count_IsAmong channel (platform ∷ platforms) h =
    elim (Bool-cases (platform_value platform == channel)) [
      | inl here ↦ inl (ground (arith, eq_iff (platform_value platform) channel))
      | inr other ↦ inr (count_IsAmong channel platforms (ground (arith)))
    ]

IsAmong-count :
    (channel : String) (platforms : List Platform)
    → IsAmong channel platforms
    → eqb (count_where (is_channel channel) platforms) 0 ≡ false
unfolding count_where
IsAmong-count channel [] h = absurd h
IsAmong-count channel (platform ∷ platforms) (inl here) = rw (here, eq_refl channel) (ground arith)
IsAmong-count channel (platform ∷ platforms) (inr later) =
    ground (arith, IsAmong-count channel platforms later)

budget_sound :
    (spent limit : ℤ)
    → (ltb_ℤ spent (pos 0) || ltb_ℤ limit spent) ≡ false
    → (s l : ℕ) × (spent ≡ pos s) × (limit ≡ pos l) × (s ≤ l)
budget_sound (pos s) (pos l) h = (s, l, refl, refl, ground arith)
budget_sound (pos s) (negsuc l) h = absurd (ground arith)
budget_sound (negsuc s) limit h = absurd (ground arith)

five_passed :
    (a b c d e : Bool) (e1 e2 e3 e4 e5 : Error)
    → (raise_if a e1 >> raise_if b e2 >> raise_if c e3 >> raise_if d e4 >> raise_if e e5) ≡ ok tt
    → (a ≡ false) × (b ≡ false) × (c ≡ false) × (d ≡ false) × (e ≡ false)
five_passed a b c d e e1 e2 e3 e4 e5 h = ground arith

envelope_checks :
    (effect : Effect) (greenlight : Greenlight)
    → check_envelope effect greenlight ≡ ok tt
    → (not (greenlight.greenlight_id == effect.greenlight_id) ≡ false)
      × (not (eqb_ℤ greenlight.fencing_token effect.fencing_token) ≡ false)
      × ((not (eqb_texts greenlight.approved_artifact_ids effect.artifact_ids)
            || not (eqb_texts greenlight.approved_artifact_hashes effect.artifact_hashes))
          ≡ false)
      × (eqb (count_where (is_channel effect.channel) greenlight.authorized_channels) 0 ≡ false)
      × ((ltb_ℤ effect.budget_cents (pos 0)
            || ltb_ℤ greenlight.authorized_budget_cents effect.budget_cents)
          ≡ false)
unfolding check_envelope
envelope_checks effect g h = ground arith

or_false : (a b : Bool) → (not a || not b) ≡ false → (a ≡ true) × (b ≡ true)
or_false a b h = ground arith

not-false : (a : Bool) → not a ≡ false → a ≡ true
not-false a h = ground arith

check_envelope-IsInside :
    (effect : Effect) (greenlight : Greenlight)
    → check_envelope effect greenlight ≡ ok tt
    → IsInside effect greenlight
check_envelope-IsInside effect g h =
    let (same_id, same_fence, same_lists, on_channel, in_budget) = envelope_checks effect g h in
    let both = or_false _ _ same_lists in
    record {
      same_id = ground (arith, eq_iff g.greenlight_id effect.greenlight_id);
      same_fence = eqb_ℤ_sound g.fencing_token effect.fencing_token (not-false _ same_fence);
      same_artifacts = eqb_texts_sound g.approved_artifact_ids effect.artifact_ids both.0;
      same_hashes = eqb_texts_sound g.approved_artifact_hashes effect.artifact_hashes both.1;
      on_channel = count_IsAmong effect.channel g.authorized_channels on_channel;
      in_budget = budget_sound effect.budget_cents g.authorized_budget_cents in_budget;
    }

in_budget_passes :
    (spent limit : ℤ) (s l : ℕ)
    → spent ≡ pos s
    → limit ≡ pos l
    → s ≤ l
    → (ltb_ℤ spent (pos 0) || ltb_ℤ limit spent) ≡ false
in_budget_passes spent limit s l h k m = rw (h, k) (ground arith)

IsInside-check_envelope :
    (effect : Effect) (greenlight : Greenlight)
    → IsInside effect greenlight
    → check_envelope effect greenlight ≡ ok tt
unfolding check_envelope
IsInside-check_envelope effect g h =
    let (s, l, spent, limit, within) = h.in_budget in
    rw
      (
        h.same_id,
        h.same_fence,
        h.same_artifacts,
        h.same_hashes,
        eq_refl effect.greenlight_id,
        eqb_ℤ_refl effect.fencing_token,
        eqb_texts_refl effect.artifact_ids,
        eqb_texts_refl effect.artifact_hashes,
        IsAmong-count effect.channel g.authorized_channels h.on_channel,
        in_budget_passes effect.budget_cents g.authorized_budget_cents s l spent limit within,
      )
      refl

active_greenlight-found :
    (run : Run) (greenlight : Greenlight)
    → active_greenlight run ≡ some greenlight
    → (run.status ≡ completed)
      × (run.greenlight ≡ some greenlight)
      × (greenlight.decision ≡ approve)
      × (greenlight.revoked_at ≡ none)
unfolding active_greenlight active
active_greenlight-found run greenlight h = ground arith

check_effect_found :
    (effect : Effect) (run : Run) (greenlight : Greenlight)
    → active_greenlight run ≡ some greenlight
    → check_effect effect run ≡ check_envelope effect greenlight
unfolding check_effect check_envelope
check_effect_found effect run greenlight found = rw (found, check_effect) refl

refused :
    (effect : Effect) (run : Run)
    → active_greenlight run ≡ none
    → check_effect effect run ≡ ok tt
    → ⊥
unfolding check_effect
refused effect run missing h = cc

check_effect_sound :
    (effect : Effect) (run : Run) → check_effect effect run ≡ ok tt → Authorizes effect run
unfolding check_effect
check_effect_sound effect run h = elim (Option-cases (active_greenlight run)) [
  | inl missing ↦ absurd (refused effect run missing h)
  | inr (greenlight, found) ↦
      let parts = active_greenlight-found run greenlight found in
      (
        greenlight,
        parts.0,
        parts.1,
        parts.2,
        parts.3,
        check_envelope-IsInside effect greenlight
            (rw (sym (check_effect_found effect run greenlight found)) h),
      )
]

active_greenlight-given :
    (run : Run) (greenlight : Greenlight)
    → run.status ≡ completed
    → run.greenlight ≡ some greenlight
    → greenlight.decision ≡ approve
    → greenlight.revoked_at ≡ none
    → active_greenlight run ≡ some greenlight
unfolding active_greenlight active
active_greenlight-given run greenlight status given approves standing = ground arith

check_effect_complete :
    (effect : Effect) (run : Run) → Authorizes effect run → check_effect effect run ≡ ok tt
check_effect_complete effect run (greenlight, status, given, approves, standing, inside) =
    check_effect_found effect run greenlight
      (active_greenlight-given run greenlight status given approves standing)
    ∙ IsInside-check_envelope effect greenlight inside

-- The check before an external effect passes exactly when the run is completed, its greenlight is
-- an approval that has not been revoked, and the effect shows that greenlight's identifier, fencing
-- token, artifacts and hashes, a channel that it authorizes and a budget from zero to its budget.
pub check_effect-Authorizes :
    (effect : Effect) (run : Run) → (check_effect effect run ≡ ok tt) ↔ Authorizes effect run
check_effect-Authorizes effect run =
    (check_effect_sound effect run, check_effect_complete effect run)
