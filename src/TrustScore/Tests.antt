-- ===== src/TrustScore/Tests.antt =====
-- Runs of TrustScoreService, and its theorems at concrete inputs.
use borrow_hub.Common.{ℕ, ◌≤◌, ◌≡◌, refl, none, some, [], ◌∷◌, ◌++◌, find, update_first}
use borrow_hub.Common.Int.{pos, negsuc}
use borrow_hub.Schema.{
  ReviewStatus, RiskTargetType, RiskLevel, RiskIncidentStatus, DisputeStatus, Review, RiskIncident,
  Dispute, Database,
}
use borrow_hub.Store.{ok, has_user_id, update_user}
use borrow_hub.Rentals.Tests.Fixture.{env, ann, db}
use borrow_hub.TrustScore.Score.{
  trust_score, set_trust_score, recalculate_user_trust_score, rating_bonus, bonus, penalty,
  clamp_score,
}
use borrow_hub.TrustScore.Results.{recalculate_lem, recalculate-forgets, trust_score_antitone}

abbrev review : (rating : ℕ) → Review
review rating = record {
  id = 70;
  rental_id = 15;
  reviewer_id = 2;
  reviewee_id = 1;
  rating = rating;
  comment = none;
  status = ReviewStatus.published;
  created_at = 1000;
}

abbrev incident : RiskIncident
incident = record {
  target_type = RiskTargetType.user;
  target_id = 1;
  level = RiskLevel.high;
  reason = "late";
  status = RiskIncidentStatus.opened;
}

abbrev quarrel : Dispute
quarrel = record {
  id = 80;
  rental_id = 15;
  opened_by_id = 2;
  reason = "OTHER";
  description = "broken";
  status = DisputeStatus.opened;
  events = [];
  evidence_ids = [];
  assigned_to_id = none;
  resolution_summary = none;
  resolved_at = none;
}

abbrev rated : Database
rated = record db { reviews = review 5 ∷ review 4 ∷ [] }

-- 20 for the verification, 54 for an average of 4.5 and 2 for one completed rental.
rated_score : trust_score env.now ann rated ≡ 76
unfolding clamp_score bonus penalty rating_bonus
rated_score = refl

-- 8 less for an open dispute.
disputed_score : trust_score env.now ann (record rated { disputes = quarrel ∷ [] }) ≡ 68
unfolding clamp_score bonus penalty rating_bonus
disputed_score = refl

recalculate_lem_example :
    (score : ℕ) × ((recalculate_user_trust_score env 1 rated).0 ≡ ok score)
    × (score ≤ 100)
    × (find (has_user_id 1) (recalculate_user_trust_score env 1 rated).1.users
        ≡ some (set_trust_score (pos score) ann))
    × ((recalculate_user_trust_score env 1 rated).1 ≡ record rated {
      users = update_first (has_user_id 1) (set_trust_score (pos score)) rated.users;
    })
recalculate_lem_example = recalculate_lem env 1 rated ann refl

-- A penalty that brought the score below 0 is forgotten.
recalculate-forgets_example :
    recalculate_user_trust_score env 1 (update_user 1 (set_trust_score (negsuc 9)) rated).1
    ≡ recalculate_user_trust_score env 1 rated
recalculate-forgets_example = recalculate-forgets env 1 (negsuc 9) rated

trust_score_antitone_example :
    (trust_score 1000 ann (record rated { disputes = [] ++ quarrel ∷ [] })
      ≤ trust_score 1000 ann rated)
    × (trust_score 1000 ann (record rated { risk_incidents = [] ++ incident ∷ [] })
        ≤ trust_score 1000 ann rated)
trust_score_antitone_example = trust_score_antitone 1000 ann rated quarrel incident
