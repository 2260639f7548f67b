-- ===== src/Diagnose/Health.antt =====
-- When a report calls everything healthy.
use codery.Base.{◌≡◌, ◌↔◌, Bool, true, false, List, [], ◌∷◌, arith, length, retain, any, is_empty}
use codery.Diagnose.{ServiceIssue, RouteIssue, PreviewIssue, is_unhealthy, aggregate}

length-zero : {A : Type 0} (xs : List A) → (is_empty xs ≡ true) ↔ (length xs ≡ 0)
length-zero [] = ground arith
length-zero (x ∷ xs) = ground arith

retain-zero :
    {A : Type 0} (p : A → Bool) (xs : List A) → (any p xs ≡ false) ↔ (length (retain p xs) ≡ 0)
retain-zero p [] = ground arith
retain-zero p (x ∷ xs) = ground (arith, retain-zero p xs)

-- A report is healthy exactly if it counts no issue.
pub all_healthy_iff :
    (services : List ServiceIssue) (routes : List RouteIssue) (found : List PreviewIssue)
    → ((aggregate services routes found).all_healthy ≡ true)
      ↔ ((aggregate services routes found).issue_count ≡ 0)
unfolding aggregate
all_healthy_iff services routes found = ground (
  arith,
  retain-zero (λ (s : ServiceIssue). is_unhealthy s.severity) services,
  length-zero routes,
  length-zero found,
)
