-- ===== src/Rules/Store/Outside.antt =====
-- What other files write in the table custom_filter_rules: `protection_toggle` of app/webapp.py, which
-- switches all rules, and `_rollback_migration_job` of app/importer.py, which removes those of a job.
use alderpoint_dns.Base.{
  ℕ, Bool, true, false, not, ◌==◌, Option, none, some, List, [], ◌∷◌, keep, All, if◌then◌else◌, ◌≡◌,
  refl, if_ind,
}
use alderpoint_dns.Rules.Types.{Row, is_valid}
use alderpoint_dns.Rules.Store.Rows.{ids}

-- A rule that is not valid stays switched off.
abbrev pub protect : Bool → Row → Row
protect true row = if is_valid row.validation_state then record row { enabled = true } else row
protect false row = record row { enabled = false }

unfoldable pub protection_toggle : Bool → List Row → List Row
protection_toggle enable [] = []
protection_toggle enable (row ∷ table) = protect enable row ∷ protection_toggle enable table

abbrev pub is_of_job : ℕ → Option ℕ → Bool
is_of_job job_id none = false
is_of_job job_id (some k) = k == job_id

unfoldable pub rollback_rules : ℕ → List Row → List Row
rollback_rules job_id = keep (λ (row : Row). not (is_of_job job_id row.import_job_id))

protect-id : (enable : Bool) (row : Row) → (protect enable row).id ≡ row.id
protect-id true row =
    if_ind (λ (r : Row). r.id ≡ row.id) (is_valid row.validation_state) (λ _. refl) (λ _. refl)
protect-id false row = refl

pub ids-protection_toggle :
    (enable : Bool) (t : List Row) → ids (protection_toggle enable t) ≡ ids t
unfolding protection_toggle
ids-protection_toggle enable [] = refl
ids-protection_toggle enable (r ∷ t) = rw (protect-id enable r, ids-protection_toggle enable t) refl

pub All-protection_toggle {κ} :
    (P : Row → Type κ) (enable : Bool) (t : List Row)
    → ((r : Row) → P r → P (protect enable r))
    → All P t
    → All P (protection_toggle enable t)
unfolding protection_toggle
All-protection_toggle P enable [] keeps h = tt
All-protection_toggle P enable (r ∷ t) keeps h =
    (keeps r h.0, All-protection_toggle P enable t keeps h.1)
