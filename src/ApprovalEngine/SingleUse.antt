-- ===== src/ApprovalEngine/SingleUse.antt =====
-- One approval serves one attempt, of the action whose payload was approved, by somebody other
-- than the requester, before it expires.
use mr_enderson.Base.{
  ℕ, ◌+◌, ◌≤◌, ◌≡◌, refl, ◌≢◌, ◌⊎◌, inl, inr, true, false, Option, none, some, List, [], ◌∷◌, arith,
  string_eq, Outcome, ok, raise, is_empty, Bool-cases,
}
use mr_enderson.Schemas.{approval_request_status_eq, Action, ApprovalRequest}
use mr_enderson.ApprovalEngine.Hash.{Digest}
use mr_enderson.ApprovalEngine.Requests.{ApprovalError, is_expired}
use mr_enderson.ApprovalEngine.Validity.{validity_reasons, authorize_action, consume_approval}
use mr_enderson.ApprovalEngine.Lifecycle.{
  IsUsable, reasons_nil_iff, reasons_none_iff, reasons_some_iff, assert_stops, gated, authorize_iff,
}

module _ (digest : Digest) where
  consume_inv :
      (r s : ApprovalRequest) (o : Option Action) (now : ℕ)
      → consume_approval digest r o now ≡ ok s
      → IsUsable r now × (s ≡ record r { consumed = true; consumed_at = some now })
  unfolding consume_approval
  consume_inv r s o now h =
      let (good, same) =
        gated digest r now o (ok (record r { consumed = true; consumed_at = some now })) h in
      (usable o good, cc)
    where
      usable :
          (o : Option Action) → is_empty (validity_reasons digest r o now) ≡ true → IsUsable r now
      usable none good = (reasons_none_iff digest r now).0 good
      usable (some a) good = ((reasons_some_iff digest r now a).0 good).0

  consumed_stops :
      (r : ApprovalRequest) (o : Option Action) (now : ℕ)
      → r.consumed ≡ true
      → (e : ApprovalError) × (consume_approval digest r o now ≡ raise e)
  unfolding consume_approval
  consumed_stops r o now used =
      let (e, stop) = assert_stops digest r now o (failing o) in (e, rw stop)
    where
      failing : (o : Option Action) → is_empty (validity_reasons digest r o now) ≡ false
      failing o = elim (Bool-cases (is_empty (validity_reasons digest r o now))) [
        | inr bad ↦ bad
        | inl good ↦
            let (_, _, _, unused, _) = (reasons_nil_iff digest r now o).0 good in absurd (cc)
      ]

  -- What an attempt leaves: the consumed request, or the old one where it raised.
  abbrev left_by : ApprovalRequest → Outcome ApprovalError ApprovalRequest → ApprovalRequest
  left_by r (ok s) = s
  left_by r (raise _) = r

  abbrev counted : Outcome ApprovalError ApprovalRequest → ℕ
  counted (ok _) = 1
  counted (raise _) = 0

  -- A caller that tries to consume the request again and again, at any times and for any
  -- actions, each time with what the last attempt left: how often it succeeds.
  pub successes : ApprovalRequest → List (Option Action × ℕ) → ℕ
  successes r [] = 0
  successes r ((o, now) ∷ rest) =
      let attempt = consume_approval digest r o now in
      counted attempt + successes (left_by r attempt) rest

  no_success :
      (r : ApprovalRequest) (calls : List (Option Action × ℕ))
      → r.consumed ≡ true
      → successes r calls ≡ 0
  unfolding successes
  no_success r [] used = refl
  no_success r ((o, now) ∷ rest) used =
      let (e, stop) = consumed_stops r o now used in
      rw (stop, successes) (omega (arith, no_success r rest used))

  -- However often a request is presented for consumption, at any times and for any actions, each
  -- time as the attempt before left it, at most one of the attempts succeeds.
  pub consumed_at_most_once :
      (calls : List (Option Action × ℕ)) (r : ApprovalRequest) → successes r calls ≤ 1
  unfolding successes
  consumed_at_most_once [] r = omega arith
  consumed_at_most_once ((o, now) ∷ rest) r =
      go (consume_approval digest r o now) refl (consumed_at_most_once rest)
    where
      go :
          (t : Outcome ApprovalError ApprovalRequest)
          → consume_approval digest r o now ≡ t
          → ((q : ApprovalRequest) → successes q rest ≤ 1)
          → successes r ((o, now) ∷ rest) ≤ 1
      go (raise x) e ih = rw (e, successes) (omega (arith, ih r))
      go (ok s) e ih =
          let (_, same) = consume_inv r s o now e in
          rw (e, successes) (omega (arith, no_success s rest (rw same refl)))

  -- An approval that is consumed, or that has reached its expiry, authorizes nothing and cannot
  -- be consumed, now or at any later time.
  pub lapsed_never_serves :
      (r : ApprovalRequest) (a b : Action) (o : Option Action) (s : ApprovalRequest) (lapse now : ℕ)
      → (r.consumed ≡ true) ⊎ (is_expired r lapse ≡ true)
      → lapse ≤ now
      → (authorize_action digest a r now ≢ ok b) × (consume_approval digest r o now ≢ ok s)
  lapsed_never_serves r a b o s lapse now lapsed later = (
    λ e. stop (((authorize_iff digest r now a b).0 e).0),
    λ e. stop ((consume_inv r s o now e).0),
  )
    where
      later_expired :
          (e : Option ℕ) → r.expires_at ≡ e → is_expired r lapse ≡ true → is_expired r now ≡ true
      later_expired e p h = unfold is_expired in ground arith

      stop : ¬ (IsUsable r now)
      stop v = elim lapsed [
        | inl used ↦ cc (v.unused)
        | inr old ↦ cc (v.current, later_expired r.expires_at refl old)
      ]
