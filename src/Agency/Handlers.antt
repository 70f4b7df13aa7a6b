-- ===== src/Agency/Handlers.antt =====
-- backend/agency_runtime/orchestrator.py: the seven stations.
use ai_native_content_agency.Prelude.{ℕ, String, false, none, some, [], ◌∷◌}
use ai_native_content_agency.Prelude.Tests.{if◌then◌else◌}
use ai_native_content_agency.Prelude.Int.{pos}
use ai_native_content_agency.Prelude.Text.{join_text}
use ai_native_content_agency.Prelude.Results.{ok, err}
use ai_native_content_agency.Json.{boolean, number, text, list, dict, nil, cons, end, field, put}
use ai_native_content_agency.Json.{Platform as Library}
use ai_native_content_agency.Agency.Model.{
  Role, ceo, research, strategist, growth, writer, media, risk, publisher, Run, invalid_station,
  is_political,
}
use ai_native_content_agency.Agency.Values.{platform_texts}
use ai_native_content_agency.Agency.Stations.{Outcome}
use ai_native_content_agency.Agency.Services.{
  Services, size_at, value_at, get_or, payload_of, first_platform, items_length, compute,
  complete_then, remember_artifact,
}

module _ (lib : Library) (services : Services) (now : ℕ → String) where
  unfoldable pub run_ceo : Run → Outcome
  run_ceo run =
      let brief = run.brief in
      complete_then lib services now ceo "mission_charter" "Mission charter"
        (field "title" (text brief.title) (
          field "objective" (text brief.objective) (
            field "audience" (text brief.audience) (
              field "platforms" (list (platform_texts brief.platforms)) (
                field "budget_cents" (number brief.budget_cents) (
                  field "campaign_type" (text brief.campaign_type) (
                    field "locale" (text brief.locale) (
                      field "jurisdiction" (text brief.jurisdiction) (
                        field "office" (text brief.office) (
                          field "candidate_name" (text brief.candidate_name) (
                            field "locality" (text brief.locality) (
                              field "legal_review_status" (text brief.legal_review_status) (
                                field "legal_reviewed_by" (text brief.legal_reviewed_by) (
                                  field "constraints"
                                    (list (
                                      cons (text "sandbox adapters only") (
                                        cons (text "manual Greenlight before Publisher")
                                          (cons (text "no external side effects") nil))))
                                    end))))))))))))))
        [] "Mission chartered with sandbox and approval constraints." run
        (λ artifact run. (ok tt, run))

  unfoldable pub run_research : Run → Outcome
  run_research run =
      let brief = run.brief in
      compute (services.collect_trends brief.objective brief.audience brief.platforms) run
        (λ trends.
          compute
            (services.observe_page "sandbox://market-pulse/fixture"
              "audience language and category framing")
            run
            (λ browser. compute (services.claim_ledger brief run.run_id) run (λ claims.
              complete_then lib services now research "research_dossier"
                "Dossier de investigación y afirmaciones"
                (field "trends" (dict trends.result) (
                  field "browser_observation" (dict browser.result) (
                    field "claim_ledger" (list claims) (
                      field "scholar"
                        (dict (
                          field "reencuadre_cognitivo"
                            (text
                              "Convertir una propuesta verificable en una decisión comprensible.")
                            (field "tension_del_trade_off"
                              (text
                                "La claridad no puede simplificar una afirmación más allá de su fuente.")
                              (field "resolucion_operativa"
                                (text
                                  "Mapear claims, adaptar el canal y mantener Critique y Greenlight.")
                                end))))
                        (field "live_sources_contacted" (boolean false) end)))))
                (trends.evidence ∷ browser.evidence ∷ [])
                "Afirmaciones y fuentes consolidadas sin navegación externa." run
                (λ artifact run.
                  remember_artifact lib services now research
                    (join_text "Research mapped " (
                      join_text (services.str (number (pos (items_length claims))))
                        (join_text " claims for " (join_text brief.audience "."))))
                    (elim claims [ nil ↦ 72 | cons _ _ ↦ 84 ])
                    ("research" ∷ "claims" ∷ brief.campaign_goal ∷ []) artifact
                    (some trends.evidence) 1 run))))

  unfoldable pub run_strategist : Run → Outcome
  run_strategist run =
      let brief = run.brief in
      compute
        (services.lookup_docs "sandbox-adapter-contracts" "idempotent approval-gated orchestration")
        run
        (λ docs. compute (services.strategy_payload brief) run (λ strategy.
          let payload =
            put "documentation_guardrails" (list docs.0)
              (put "platforms" (list (platform_texts brief.platforms)) strategy) in
          complete_then lib services now strategist "channel_strategy"
            "Arquitectura de mensaje por canal" payload (docs.1 ∷ [])
            "Estrategia basada en problema, propuesta, prueba y acción." run
            (λ artifact run. compute (size_at "pillars" payload) run (λ pillars.
              remember_artifact lib services now strategist
                (join_text "Strategy prepared "
                  (join_text (services.str (number (pos pillars))) " governed message pillars."))
                (if is_political brief then 90 else 83) ("strategy" ∷ "pillars" ∷ []) artifact
                (some docs.1) 1 run))))

  unfoldable pub run_growth : Run → Outcome
  run_growth run =
      let brief = run.brief in
      compute
        (services.forecast_ads brief.campaign_goal brief.audience brief.budget_cents
          brief.platforms)
        run
        (λ forecast. compute (services.growth_payload brief forecast.result) run (λ payload.
          complete_then lib services now growth "growth_forecast"
            (if is_political brief
              then "Plan de distribución orgánica"
              else "Synthetic growth forecast")
            payload (forecast.evidence ∷ [])
            (if is_political brief
              then "Métricas y guardrails definidos sin afirmar alcance electoral."
              else "Forecast calculated without ad-account access or spend.")
            run
            (λ artifact run.
              remember_artifact lib services now growth
                "Growth plan remains synthetic and external spend is disabled."
                (if is_political brief then 82 else 58) ("growth" ∷ "organic" ∷ "synthetic" ∷ [])
                artifact (some forecast.evidence) 1 run)))

  unfoldable pub run_writer : Run → Outcome
  run_writer run =
      let brief = run.brief in
      compute (payload_of "research_dossier" run) run (λ dossier.
        compute (services.copy_payload brief (get_or "claim_ledger" (list nil) dossier)) run
          (λ payload.
            complete_then lib services now writer "copy_deck" "Copy gobernado por plataforma"
              payload [] "Variantes listas para crítica factual y revisión humana." run
              (λ artifact run. compute (size_at "variants" payload) run (λ variants.
                remember_artifact lib services now writer
                  (join_text "Drafted " (
                    join_text (services.str (number (pos variants)))
                      " platform variants with explicit claim mapping."))
                  93 ("copy" ∷ "draft" ∷ brief.locale ∷ []) artifact none 1 run))))

  unfoldable pub run_media : Run → Outcome
  run_media run =
      let brief = run.brief in
      compute (first_platform brief.platforms) run (λ platform.
        compute (services.plan_video brief.source_asset platform 15) run (λ video.
          compute
            (services.plan_motion brief.source_asset (join_text "Motion study for " brief.title) 8)
            run
            (λ motion.
              compute (services.media_payload brief video.result motion.result) run (λ payload.
                complete_then lib services now media "media_plan" "Plan de medios accesible" payload
                  (video.evidence ∷ motion.evidence ∷ [])
                  "Plan editorial creado; no se renderizó ni publicó media." run
                  (λ artifact run.
                    remember_artifact lib services now media
                      "Media plan is accessible, non-rendered and publication-blocking." 96
                      ("media" ∷ "plan" ∷ "sandbox" ∷ []) artifact (some video.evidence) 1 run)))))

  unfoldable pub run_risk : Run → Outcome
  run_risk run =
      let brief = run.brief in
      compute
        (services.inspect_code "sandbox://local/agency-runtime"
          ("policy/claims" ∷ "policy/platforms" ∷ [])
          "Does the sandbox package preserve the Greenlight boundary?")
        run
        (λ inspection. compute (payload_of "research_dossier" run) run (λ dossier.
          compute (payload_of "copy_deck" run) run (λ deck.
            compute
              (services.critique_payload brief (get_or "claim_ledger" (list nil) dossier)
                (get_or "variants" (dict end) deck))
              run
              (λ critique.
                let payload = put "codebase_inspection" (dict inspection.result) critique in
                complete_then lib services now risk "risk_report" "Crítica pre-Greenlight" payload
                  (inspection.evidence ∷ [])
                  "Crítica factual y de canal completada; Greenlight humano sigue siendo obligatorio."
                  run
                  (λ artifact run. compute (size_at "checks" payload) run (λ checks.
                    compute (value_at "publication_eligible" payload) run (λ eligible.
                      remember_artifact lib services now risk
                        (join_text "Critique evaluated " (
                          join_text (services.str (number (pos checks))) (
                            join_text " checks; publication_eligible="
                              (join_text (services.str eligible) "."))))
                        100 ("risk" ∷ "critique" ∷ "greenlight" ∷ []) artifact
                        (some inspection.evidence) 1 run)))))))

  -- `_execute_role`
  unfoldable pub execute_role : Role → Run → Outcome
  execute_role ceo = run_ceo
  execute_role research = run_research
  execute_role strategist = run_strategist
  execute_role growth = run_growth
  execute_role writer = run_writer
  execute_role media = run_media
  execute_role risk = run_risk
  execute_role publisher = λ run. (err invalid_station, run)
