-- ===== src/AccessControl/Engine/Reason.antt =====
-- A decision, described without loops, buckets or order: by which rules apply to the request.
use first_principles.Base.{
  ◌≡◌, refl, ◌∙◌, String, Bool, true, false, ◌&&◌, ◌||◌, Option, none, some, List, [], ◌∷◌,
  if◌then◌else◌, any, filter, any-filter, arith,
}
use first_principles.AccessControl.Resolve.{AttributeEnvironment}
use first_principles.AccessControl.Policy.{
  Rule, DecisionReason, allowed, explicit_deny, unresolved_deny, no_matching_rule,
}
use first_principles.AccessControl.Engine.{
  matches_selector, verdict_of, is_deny, is_allow, bucket_of, concerns, DenyScan, denied, finished,
  is_definite_true, is_unresolved, note_unresolved, note_id, scan_deny, scan_allow, scan_bucket,
}

abbrev pub is_allowed : DecisionReason → Bool
is_allowed allowed = true
is_allowed _ = false

module _ (action : String) (roles : List String) (environment : AttributeEnvironment) where
  -- A rule that concerns the request and whose verdict is true; one whose verdict is unknown.
  abbrev pub is_met : Rule → Bool
  is_met rule = concerns action roles rule && is_definite_true (verdict_of rule environment)

  abbrev pub is_open : Rule → Bool
  is_open rule = concerns action roles rule && is_unresolved (verdict_of rule environment)

  abbrev kind : DenyScan → Option Bool
  kind (denied id) = none
  kind (finished saw id) = some saw

  kind-scan_deny :
      (saw : Bool) (id : Option String) (rules : List Rule)
      → kind (scan_deny action roles environment saw id rules)
        ≡ (if any is_met rules then none else some (saw || any is_open rules))
  unfolding scan_deny
  kind-scan_deny saw id [] = ground arith
  kind-scan_deny saw id (rule ∷ rules) =
      let verdict = verdict_of rule environment in
      ground (
        arith,
        kind-scan_deny saw id rules,
        kind-scan_deny (note_unresolved verdict saw) (note_id verdict saw id rule.id) rules,
      )

  abbrev found {ℓ} : {A : Type ℓ} → Option A → Bool
  found none = false
  found (some _) = true

  found-scan_allow :
      (rules : List Rule) → found (scan_allow action roles environment rules) ≡ any is_met rules
  unfolding scan_allow
  found-scan_allow [] = refl
  found-scan_allow (rule ∷ rules) = ground (arith, found-scan_allow rules)

  module _ (subject : String) where
    abbrev pub denies : Rule → Bool
    denies rule = matches_selector rule.subjects subject && (is_deny rule.effect && is_met rule)

    abbrev pub may_deny : Rule → Bool
    may_deny rule = matches_selector rule.subjects subject && (is_deny rule.effect && is_open rule)

    abbrev pub grants : Rule → Bool
    grants rule = matches_selector rule.subjects subject && (is_allow rule.effect && is_met rule)

    abbrev concerns_subject : Rule → Bool
    concerns_subject rule = matches_selector rule.subjects subject

    any-denies : (rules : List Rule) → any is_met (bucket_of rules subject).deny ≡ any denies rules
    unfolding bucket_of
    any-denies rules =
        any-filter (λ (rule : Rule). is_deny rule.effect) is_met (filter concerns_subject rules)
        ∙ any-filter concerns_subject (λ (rule : Rule). is_deny rule.effect && is_met rule) rules

    any-may_deny :
        (rules : List Rule) → any is_open (bucket_of rules subject).deny ≡ any may_deny rules
    unfolding bucket_of
    any-may_deny rules =
        any-filter (λ (rule : Rule). is_deny rule.effect) is_open (filter concerns_subject rules)
        ∙ any-filter concerns_subject (λ (rule : Rule). is_deny rule.effect && is_open rule) rules

    any-grants : (rules : List Rule) → any is_met (bucket_of rules subject).allow ≡ any grants rules
    unfolding bucket_of
    any-grants rules =
        any-filter (λ (rule : Rule). is_allow rule.effect) is_met (filter concerns_subject rules)
        ∙ any-filter concerns_subject (λ (rule : Rule). is_allow rule.effect && is_met rule) rules

    -- The reason for the answer to a request about declared names.
    unfoldable pub reason_for : List Rule → DecisionReason
    reason_for rules =
        if any denies rules
        then explicit_deny
        else if any may_deny rules
        then unresolved_deny
        else if any grants rules
        then allowed
        else no_matching_rule

    -- The two loops over a subject's bucket find the reason and the answer that go with it.
    pub scan_bucket-reason :
        (rules : List Rule)
        → ((scan_bucket action roles environment (bucket_of rules subject)).1 ≡ reason_for rules)
          × ((scan_bucket action roles environment (bucket_of rules subject)).0
              ≡ is_allowed (reason_for rules))
    unfolding scan_bucket reason_for
    scan_bucket-reason rules = ground (
      arith,
      any-denies rules,
      any-may_deny rules,
      any-grants rules,
      kind-scan_deny false none (bucket_of rules subject).deny,
      found-scan_allow (bucket_of rules subject).allow,
    )
