-- ===== src/Auth/Refresh/Attempts.antt =====
-- How an attempt ends, and what it leaves when it loses its race.
use first_principles.Base.{◌≡◌, refl, ◌⊎◌, inl, inr, ℕ, String, Bool, true, List, arith}
use first_principles.Auth.Family.{TokenFamily, RefreshDecision, rotated, reuse, rejected}
use first_principles.Auth.Store.{Entry, Families, compare_and_set, Operation, perform_all}
use first_principles.Auth.Refresh.{
  IssuedRefreshToken, Outcome, ok, Attempt, Step, settled, lost_race, issued_from, write_decision,
}
use first_principles.Auth.Store.Runs.{Won-cases, compare_and_set-lost}

pub Step-cases {ℓ} :
    {A : Type ℓ} (p : Step × A)
    → ((o : Outcome IssuedRefreshToken) × (a : A) × (p ≡ (settled o, a)))
      ⊎ ((r : Bool) × (a : A) × (p ≡ (lost_race r, a)))
Step-cases (settled o, a) = inl (o, a, refl)
Step-cases (lost_race r, a) = inr (r, a, refl)

pub write_decision-ok :
    (decision : RefreshDecision) (token : String) (stored : Entry) (m m' : Families)
    (issued : IssuedRefreshToken) (at : Attempt)
    → write_decision decision token stored.revision at.between m ≡ (settled (ok issued), m')
    → (g : TokenFamily) × (decision ≡ rotated g)
      × (issued_from token g ≡ ok issued)
      × (compare_and_set g stored.revision (perform_all at.between m) ≡ (true, m'))
unfolding write_decision
write_decision-ok (rejected why) token stored m m' issued at h = absurd (ground arith)
write_decision-ok (reuse g) token stored m m' issued at h =
    elim (Won-cases (compare_and_set g stored.revision (perform_all at.between m))) [
      | inl (n, e) ↦ absurd (ground arith)
      | inr (n, e) ↦ absurd (ground arith)
    ]
write_decision-ok (rotated g) token stored m m' issued at h =
    elim (Won-cases (compare_and_set g stored.revision (perform_all at.between m))) [
      | inl (n, e) ↦ (g, refl, ground arith, ground arith)
      | inr (n, e) ↦ absurd (ground arith)
    ]

pub write_decision-lost :
    (decision : RefreshDecision) (token : String) (revision : ℕ) (between : List Operation)
    (m m' : Families) (reused_it : Bool)
    → write_decision decision token revision between m ≡ (lost_race reused_it, m')
    → m' ≡ perform_all between m
unfolding write_decision
write_decision-lost (rejected why) token revision between m m' r h = absurd (ground arith)
write_decision-lost (reuse g) token revision between m m' r h =
    elim (Won-cases (compare_and_set g revision (perform_all between m))) [
      | inl (n, e) ↦ absurd (ground arith)
      | inr (n, e) ↦ ground (arith, compare_and_set-lost g revision (perform_all between m) n e)
    ]
write_decision-lost (rotated g) token revision between m m' r h =
    elim (Won-cases (compare_and_set g revision (perform_all between m))) [
      | inl (n, e) ↦ absurd (ground arith)
      | inr (n, e) ↦ ground (arith, compare_and_set-lost g revision (perform_all between m) n e)
    ]
