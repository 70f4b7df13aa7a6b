-- ===== src/Agency/Effects.antt =====
-- backend/agency_runtime/api.py: the check of a greenlight before an external effect, on the run that
-- the store holds.
use ai_native_content_agency.Prelude.{
  String, Bool, true, false, not, ◌&&◌, ◌||◌, none, some, List, [], ◌∷◌, ◌==◌,
}
use ai_native_content_agency.Prelude.Tests.{eqb}
use ai_native_content_agency.Prelude.Int.{ℤ, pos, ltb_ℤ, eqb_ℤ}
use ai_native_content_agency.Prelude.Tables.{count_where}
use ai_native_content_agency.Prelude.Results.{err, ◌>>◌, raise_if}
use ai_native_content_agency.Agency.Model.{
  Platform, Greenlight, Run, not_active, wrong_greenlight, stale_fence, wrong_envelope,
  wrong_channel, wrong_budget, Check,
}
use ai_native_content_agency.Agency.Values.{platform_value}
use ai_native_content_agency.Agency.Decisions.{active_greenlight}

-- What the caller of an effect shows.
pub record Effect : Type 0 where
  pub greenlight_id : String
  pub fencing_token : ℤ
  pub artifact_ids : List String
  pub artifact_hashes : List String
  pub channel : String
  pub budget_cents : ℤ

-- `==` on tuples of texts.
unfoldable pub eqb_texts : List String → List String → Bool
eqb_texts [] [] = true
eqb_texts (s ∷ ss) (t ∷ ts) = s == t && eqb_texts ss ts
eqb_texts _ _ = false

abbrev pub is_channel : String → Platform → Bool
is_channel channel platform = platform_value platform == channel

-- `assert_greenlight_effect_authorized` after the greenlight is found active.
unfoldable pub check_envelope : Effect → Greenlight → Check
unfolding eqb_texts
check_envelope effect greenlight = do
  raise_if (not (greenlight.greenlight_id == effect.greenlight_id)) wrong_greenlight
  raise_if (not (eqb_ℤ greenlight.fencing_token effect.fencing_token)) stale_fence
  raise_if
      (not (eqb_texts greenlight.approved_artifact_ids effect.artifact_ids)
        || not (eqb_texts greenlight.approved_artifact_hashes effect.artifact_hashes))
      wrong_envelope
  raise_if (eqb (count_where (is_channel effect.channel) greenlight.authorized_channels) 0)
      wrong_channel
  raise_if
      (ltb_ℤ effect.budget_cents (pos 0)
        || ltb_ℤ greenlight.authorized_budget_cents effect.budget_cents)
      wrong_budget

-- `assert_greenlight_effect_authorized` on the stored run.
unfoldable pub check_effect : Effect → Run → Check
unfolding active_greenlight check_envelope
check_effect effect run = elim (active_greenlight run) [
  | none ↦ err not_active
  | some greenlight ↦ check_envelope effect greenlight
]
