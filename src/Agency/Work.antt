-- ===== src/Agency/Work.antt =====
-- backend/agency_runtime/orchestrator.py: the shape that the seven handlers share.
use ai_native_content_agency.Prelude.{ℕ, String, false, ◌≡◌, refl, List}
use ai_native_content_agency.Prelude.Results.{Result, ok, err}
use ai_native_content_agency.Json.{Fields}
use ai_native_content_agency.Json.{Platform as Library}
use ai_native_content_agency.Agency.Model.{
  Role, ceo, research, strategist, growth, writer, media, risk, publisher, invalid_station,
  Evidence, Artifact, Run, Error, eqb_role,
}
use ai_native_content_agency.Agency.Stations.{Outcome, and_then, new_artifact, complete_with}
use ai_native_content_agency.Agency.Services.{Services, compute, complete_then, remember_artifact}
use ai_native_content_agency.Agency.Handlers.{
  run_ceo, run_research, run_strategist, run_growth, run_writer, run_media, run_risk, execute_role,
}

-- The outcome of a station's work: a raise that left the run as it was, or the run with one
-- artifact of the role completed, whatever was raised then.
pub data Worked (role : Role) (run : Run) (o : Outcome) : Type 0 where
  idle : (e : Error) → o ≡ (err e, run) → Worked role run o
  done :
      (timestamp : String) (artifact : Artifact) (evidence : List Evidence) (detail : String)
      → artifact.created_by ≡ role
      → eqb_role role publisher ≡ false
      → o.1 ≡ (complete_with timestamp artifact evidence detail run).1
      → (o.0 ≡ ok tt → (complete_with timestamp artifact evidence detail run).0 ≡ ok tt)
      → Worked role run o

compute-Worked :
    {A : Type 0} (role : Role) (run : Run) (r : Result Error A) (f : A → Outcome)
    → ((a : A) → Worked role run (f a))
    → Worked role run (compute r run f)
unfolding compute
compute-Worked role run (ok a) f h = h a
compute-Worked role run (err e) f h = idle e refl

compute-kept :
    {A : Type 0} (run : Run) (r : Result Error A) (f : A → Outcome)
    → ((a : A) → (f a).1 ≡ run)
    → (compute r run f).1 ≡ run
unfolding compute
compute-kept run (ok a) f h = h a
compute-kept run (err e) f h = refl

and_then-kept :
    (o : Outcome) (rest : Run → Outcome)
    → ((run : Run) → (rest run).1 ≡ run)
    → ((and_then o rest).1 ≡ o.1) × ((and_then o rest).0 ≡ ok tt → o.0 ≡ ok tt)
unfolding and_then
and_then-kept (ok tt, run) rest h = (h run, λ _. refl)
and_then-kept (err e, run) rest h = (refl, λ p. p)

module _ (lib : Library) (services : Services) (now : ℕ → String) where
  complete_then-Worked :
      (role : Role) (kind title : String) (payload : Fields) (evidence : List Evidence)
      (detail : String) (run : Run) (rest : Artifact → Run → Outcome)
      → eqb_role role publisher ≡ false
      → ((artifact : Artifact) (run : Run) → (rest artifact run).1 ≡ run)
      → Worked role run
          (complete_then lib services now role kind title payload evidence detail run rest)
  unfolding complete_then new_artifact
  complete_then-Worked role kind title payload evidence detail run rest other h =
      let artifact = new_artifact lib run.run_id role kind title payload evidence in
      let kept =
        and_then-kept (complete_with (now 0) artifact evidence detail run) (rest artifact)
          (h artifact) in
      done (now 0) artifact evidence detail refl other kept.0 kept.1

  pub execute_role-Worked :
      (role : Role) (run : Run) → Worked role run (execute_role lib services now role run)
  unfolding execute_role run_ceo run_research run_strategist run_growth run_writer run_media
      run_risk remember_artifact
  execute_role-Worked ceo run = complete_then-Worked ceo _ _ _ _ _ run _ refl (λ _ _. refl)
  execute_role-Worked research run = compute-Worked research run _ _ (λ trends.
      compute-Worked research run _ _ (λ browser.
        compute-Worked research run _ _
          (λ claims. complete_then-Worked research _ _ _ _ _ run _ refl (λ _ _. refl))))
  execute_role-Worked strategist run = compute-Worked strategist run _ _ (λ docs.
      compute-Worked strategist run _ _ (λ payload.
        complete_then-Worked strategist _ _ _ _ _ run _ refl
          (λ _ run. compute-kept run _ _ (λ _. refl))))
  execute_role-Worked growth run = compute-Worked growth run _ _ (λ forecast.
      compute-Worked growth run _ _
        (λ payload. complete_then-Worked growth _ _ _ _ _ run _ refl (λ _ _. refl)))
  execute_role-Worked writer run = compute-Worked writer run _ _ (λ dossier.
      compute-Worked writer run _ _ (λ payload.
        complete_then-Worked writer _ _ _ _ _ run _ refl
          (λ _ run. compute-kept run _ _ (λ _. refl))))
  execute_role-Worked media run = compute-Worked media run _ _ (λ platform.
      compute-Worked media run _ _ (λ video. compute-Worked media run _ _ (λ motion.
        compute-Worked media run _ _
          (λ payload. complete_then-Worked media _ _ _ _ _ run _ refl (λ _ _. refl)))))
  execute_role-Worked risk run = compute-Worked risk run _ _ (λ inspection.
      compute-Worked risk run _ _ (λ dossier. compute-Worked risk run _ _ (λ deck.
        compute-Worked risk run _ _ (λ critique.
          complete_then-Worked risk _ _ _ _ _ run _ refl
            (λ _ run. compute-kept run _ _ (λ _. compute-kept run _ _ (λ _. refl)))))))
  execute_role-Worked publisher run = idle invalid_station refl
